-- ===== src/Ui/Messages.antt =====
-- The channel and direct messages that client/ui.c receives.
use tizcord.Base.{
  ℕ, zero, suc, ◌+◌, ◌-◌, ◌/◌, ◌%◌, ◌^◌, List, [], ◌∷◌, ◌++◌, Text, ◌&&◌, ◌||◌, Option, none, some,
  if◌then◌else◌, ltb, ◌==◌, length, take, set, get_or, find_index, codes,
}
use tizcord.Protocol.{
  Packet, ChannelPayload, DmPayload, list_frame_start, list_frame_end, max_name_len,
}
use tizcord.Words.{to_int64}
use tizcord.Ui.State.{
  Ui, Message, UiServer, UiChannel, UiFriend, server_at, channel_at, friend_at, write_server,
  max_messages, max_msg_len,
}

-- The decimal digits of a number below 10 ^ fuel, before the digits `rest`.
abbrev pub digits : ℕ → ℕ → Text → Text
digits zero n rest = rest
digits (suc fuel) n rest =
    let text = digits fuel (n / 10) ((48 + n % 10) ∷ rest) in
    if ltb n 10 then (48 + n) ∷ rest else text

-- printf's %lld of the bits of an int64_t; 20 digits are enough for any.
abbrev pub print_int64 : ℕ → Text
print_int64 v = if ltb v (2 ^ 63) then digits 20 v [] else 45 ∷ digits 20 (2 ^ 64 - v) []

-- A list of messages after a packet: START empties it, END leaves it, and another frame appends
-- while there is room.
unfoldable pub take_message : ℕ → Message → List Message → List Message
take_message frame m messages =
    if frame == list_frame_start
    then []
    else if frame == list_frame_end
    then messages
    else if ltb (length messages) max_messages
    then messages ++ m ∷ []
    else messages

abbrev pub channel_message_of : Packet → ChannelPayload → Message
channel_message_of packet p = record {
  sender =
      if ltb 0 (length p.channel_name)
      then take (max_name_len - 1) p.channel_name
      else take (max_name_len - 1) (print_int64 packet.sender_id);
  body = take (max_msg_len - 1) p.message;
  ts = packet.timestamp;
}

abbrev pub write_channel : ℕ → UiChannel → UiServer → UiServer
write_channel i c s = record s { channels = set s.channels i c }

-- The message goes to the channel on the screen, whichever it was sent to.
unfoldable pub ui_receive_channel_message : Packet → ChannelPayload → Ui → Ui
ui_receive_channel_message packet p u = elim u.active_server [
  | none ↦ u
  | some i ↦
      if ltb i u.server_count && ltb u.active_channel (server_at u i).channel_count
      then (let c = channel_at (server_at u i) u.active_channel in
          let received = take_message packet.list_frame (channel_message_of packet p) c.messages in
          write_server i
            (write_channel u.active_channel (record c { messages = received }) (server_at u i)) u)
      else u
]

-- The first friend that is the sender or the recipient.
abbrev pub find_friend : ℕ → ℕ → List UiFriend → Option ℕ
find_friend sender_id recipient_id friends =
    find_index (λ f. f.id == sender_id || f.id == recipient_id) friends

abbrev pub own_name : Ui → Text
own_name u = elim u.current_user [
  | none ↦ codes "Me"
  | some k ↦
      take (max_name_len - 1)
        (get_or u.users k (record { username = []; password = []; server_id = none })).username
]

abbrev pub direct_message_of : Packet → DmPayload → UiFriend → Ui → Message
direct_message_of packet p f u = record {
  sender = if packet.sender_id == f.id then take (max_name_len - 1) f.username else own_name u;
  body = take (max_msg_len - 1) p.message;
  ts = packet.timestamp;
}

abbrev pub write_friend : ℕ → UiFriend → Ui → Ui
write_friend i f u = record u { friends = set u.friends i f }

unfoldable pub ui_receive_dm_message : Packet → DmPayload → Ui → Ui
ui_receive_dm_message packet p u =
    elim (find_friend packet.sender_id (to_int64 p.recipient_id) (take u.friend_count u.friends)) [
      | none ↦ u
      | some i ↦
          let f = friend_at u i in
          let received =
            take_message packet.list_frame (direct_message_of packet p f u) f.messages in
          write_friend i (record f { messages = received }) u
    ]
