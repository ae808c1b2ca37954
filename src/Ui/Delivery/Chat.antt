-- ===== src/Ui/Delivery/Chat.antt =====
-- A chat message from the client that sends it, client/client.c, over the server's handler,
-- server/tizcord_chat.c, to the screens of the clients that receive it, client/ui.c.
use tizcord.Base.{
  ℕ, zero, suc, ◌-◌, ◌≤◌, ◌<◌, ◌≡◌, refl, ap, ◌∙◌, List, [], ◌∷◌, ◌++◌, Text, true, ◌&&◌, Option,
  none, some, if◌then◌else◌, ltb, length, length-take, take, arith, gets, pure, ◌>>=◌, ◌>>◌,
}
use tizcord.Protocol.{
  Packet, blank_packet, ChannelPayload, channel, no_channel, packet_channel, channel_message,
  max_name_len, message_len,
}
use tizcord.Db.Env.{Env, Outcome}
use tizcord.Db.Sql.{insert_message}
use tizcord.Db.World.{World, Action, ClientNode, run}
use tizcord.Db.Messages.{db_save_message}
use tizcord.Chat.Channel.{
  sender_node, channel_broadcast, stamp_channel, post_channel_message, handle_channel_message,
}
use tizcord.Chat.Broadcast.{copies, channel_broadcast-copies}
use tizcord.Client.{Connection, safe_send_packet, send_request, send_channel_message}
use tizcord.Ui.State.{Ui, Message, server_at, channel_at, write_server, max_messages, max_msg_len}
use tizcord.Ui.Messages.{
  take_message, channel_message_of, write_channel, ui_receive_channel_message,
}
use tizcord.Ui.Network.{receive_channel_packet, receive_payload, process_network_packet}
use tizcord.Ui.Invariant.{pick}
use tizcord.Ui.Delivery.Fill.{take-take}

pub take-whole : {A : Type 0} (n : ℕ) (xs : List A) → length xs ≤ n → take n xs ≡ xs
take-whole zero [] h = refl
take-whole zero (x ∷ xs) h = absurd (omega (arith, h))
take-whole (suc n) [] h = refl
take-whole (suc n) (x ∷ xs) h = ap (λ t. x ∷ t) (take-whole n xs (omega (arith, h)))

db_save_message-sent :
    (e : Env) (channel_id user_id : ℕ) (text : Text) (w : World e)
    → (db_save_message e channel_id user_id text w).1.sent ≡ w.sent
unfolding db_save_message run ◌>>=◌ pure
db_save_message-sent e channel_id user_id text w =
    pick (λ (r : Option (Outcome e.Row) × World e). r.1.sent ≡ w.sent)
      (e.prepare w.conn (insert_message channel_id user_id text)) refl refl

-- The channel member of the packet that the client hands over.
abbrev pub posted : ℕ → Text → ChannelPayload
posted channel_id text = record no_channel {
  action = channel_message;
  channel_id = channel_id;
  message = take (message_len - 1) text;
}

-- The packet with its time.
abbrev pub posted_packet : ℕ → ℕ → Text → Packet
posted_packet time channel_id text =
    record (blank_packet packet_channel (channel (posted channel_id text))) { timestamp = time }

send_channel_message-sent :
    (clock : ℕ → ℕ) (channel_id : ℕ) (text : Text) (c : Connection) (fd : ℕ)
    → c.client_socket ≡ some fd
    → (send_channel_message clock channel_id text c).sent
      ≡ c.sent ++ posted_packet (clock (length c.sent)) channel_id text ∷ []
unfolding send_channel_message send_request safe_send_packet
send_channel_message-sent clock channel_id text c fd connected = rw connected refl

handle_channel_message-sent :
    (e : Env) (time channel_id : ℕ) (text : Text) (sender_fd : ℕ) (s : ClientNode e.abi.Byte)
    (w : World e)
    → sender_node e sender_fd w ≡ some s
    → let packet = posted_packet time channel_id text in
      let p = posted channel_id text in
      (handle_channel_message e packet p sender_fd w).1.sent
      ≡ w.sent ++ copies (stamp_channel e (some s) packet p) none w.clients
unfolding handle_channel_message post_channel_message gets pure ◌>>=◌ ◌>>◌
handle_channel_message-sent e time channel_id text sender_fd s w known =
    ap (λ (o : Option (ClientNode e.abi.Byte)). (after o w).1.sent) known
    ∙ db_save_message-sent e channel_id s.id p.message
        (channel_broadcast e channel_id (stamped (some s)) none w).1
    ∙ ap (λ (v : World e). v.sent) (channel_broadcast-copies e (stamped (some s)) none channel_id w)
  where
    p : ChannelPayload
    p = posted channel_id text

    stamped : Option (ClientNode e.abi.Byte) → Packet
    stamped o = stamp_channel e o (posted_packet time channel_id text) p

    after : Option (ClientNode e.abi.Byte) → Action e (Unit {0})
    after o = do
      channel_broadcast e channel_id (stamped o) none
      elim o [ none ↦ pure tt | some t ↦ (db_save_message e channel_id t.id p.message >> pure tt) ]

-- The message as it is shown: under the sender's name, with the text and the time of the packet.
abbrev pub shown_message : Text → Text → ℕ → Message
shown_message name text time = record {
  sender = take (max_name_len - 1) name;
  body = text;
  ts = time;
}

-- The channel on the screen with one more message.
abbrev pub with_message : ℕ → Message → Ui → Ui
with_message i m u =
    let s = server_at u i in
    let c = channel_at s u.active_channel in
    write_server i (write_channel u.active_channel (record c { messages = c.messages ++ m ∷ [] }) s)
      u

module _ (e : Env) (clock : ℕ → ℕ) (time channel_id : ℕ) (text : Text)
    (s : ClientNode e.abi.Byte) where
  packet : Packet
  packet = stamp_channel e (some s) (posted_packet time channel_id text) (posted channel_id text)

  member : ChannelPayload
  member = record (posted channel_id text) { channel_name = take (max_name_len - 1) s.username }

  message_shown :
      0 < length s.username
      → length text < max_msg_len
      → channel_message_of packet member ≡ shown_message s.username text time
  unfolding packet member stamp_channel
  message_shown named small =
      let some_name : ltb 0 (length (take (max_name_len - 1) s.username)) ≡ true =
        ground (arith, named, length-take (max_name_len - 1) s.username) in
      rw some_name (
        ap (λ (t : Text). message t (take (max_msg_len - 1) (take (message_len - 1) text)))
          (take-take (max_name_len - 1) s.username)
        ∙ ap (λ (t : Text). message (take (max_name_len - 1) s.username) t)
            (ap (λ (t : Text). take (max_msg_len - 1) t)
                (take-whole (message_len - 1) text (omega (arith, small)))
              ∙ take-whole (max_msg_len - 1) text (omega (arith, small))))
    where
      message : Text → Text → Message
      message name body = record { sender = name; body = body; ts = time }

  receive_posted :
      (i : ℕ) (u : Ui)
      → u.active_server ≡ some i
      → i < u.server_count
      → u.active_channel < (server_at u i).channel_count
      → length (channel_at (server_at u i) u.active_channel).messages < max_messages
      → process_network_packet clock packet u ≡ with_message i (channel_message_of packet member) u
  unfolding packet member stamp_channel process_network_packet receive_payload
      receive_channel_packet ui_receive_channel_message take_message
  receive_posted i u shown listed inside room =
      ap (λ (o : Option ℕ). elim o as (λ x. Ui) [ none ↦ u | some i ↦ on_screen i ]) shown
      ∙ in_range
    where
      on_screen : ℕ → Ui
      on_screen i =
          if ltb i u.server_count && ltb u.active_channel (server_at u i).channel_count
          then (let c = channel_at (server_at u i) u.active_channel in
              let received =
                take_message packet.list_frame (channel_message_of packet member) c.messages in
              write_server i
                (write_channel u.active_channel (record c { messages = received }) (server_at u i))
                u)
          else u

      in_range : on_screen i ≡ with_message i (channel_message_of packet member) u
      in_range =
          let first : ltb i u.server_count ≡ true = ground arith in
          let second : ltb u.active_channel (server_at u i).channel_count ≡ true = ground arith in
          let third : ltb (length (channel_at (server_at u i) u.active_channel).messages)
                max_messages
              ≡ true =
            ground arith in
          rw (first, second, third) refl

-- A chat message from client to client. With an open connection the client's call hands one packet over.
-- When the server, which has the sender as a client with a name, handles this packet, it hands to each
-- connected client, in the order of the entries and the sender included, one packet, and a client that
-- receives it with a channel on the screen that has room shows the whole text, of fewer than
-- MAX_MSG_LEN bytes, under the sender's name as the channel's last message and is otherwise as it was.
pub post-shown :
    (e : Env) (clock : ℕ → ℕ) (channel_id : ℕ) (text : Text) (c : Connection) (fd : ℕ)
    (sender_fd : ℕ) (s : ClientNode e.abi.Byte) (w : World e) (i : ℕ) (u : Ui)
    → c.client_socket ≡ some fd
    → length text < max_msg_len
    → sender_node e sender_fd w ≡ some s
    → 0 < length s.username
    → u.active_server ≡ some i
    → i < u.server_count
    → u.active_channel < (server_at u i).channel_count
    → length (channel_at (server_at u i) u.active_channel).messages < max_messages
    → (p : ChannelPayload) × (request : Packet) × (answer : Packet) × ((send_channel_message clock
          channel_id text c).sent
        ≡ c.sent ++ request ∷ [])
      × (request.payload ≡ channel p)
      × ((handle_channel_message e request p sender_fd w).1.sent
          ≡ w.sent ++ copies answer none w.clients)
      × (process_network_packet clock answer u
          ≡ with_message i (shown_message s.username text (clock (length c.sent))) u)
unfolding packet stamp_channel
post-shown e clock channel_id text c fd sender_fd s w i u connected small known named shown listed
      inside room =
    let time = clock (length c.sent) in
    (
      posted channel_id text,
      posted_packet time channel_id text,
      packet e clock time channel_id text s,
      send_channel_message-sent clock channel_id text c fd connected,
      refl,
      handle_channel_message-sent e time channel_id text sender_fd s w known,
      receive_posted e clock time channel_id text s i u shown listed inside room
          ∙ ap (λ (m : Message). with_message i m u)
              (message_shown e clock time channel_id text s named small),
    )
