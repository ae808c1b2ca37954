-- ===== src/Chat/Direct.antt =====
-- `handle_private_message` of server/tizcord_chat.c and its history stream.
use tizcord.Base.{
  ℕ, ◌-◌, List, Text, Bool, Option, none, some, if◌then◌else◌, ltb, ◌==◌, ◌&&◌, take, find_index,
  text_eq, pure, gets, ◌>>=◌, ◌>>◌,
}
use tizcord.Protocol.{
  Packet, DmPayload, dm, no_dm, packet_dm, dm_message, dm_history_request, list_frame_start,
  list_frame_middle, list_frame_end, max_name_len, message_len,
}
use tizcord.Words.{to_int32, to_int64}
use tizcord.Db.Env.{Env}
use tizcord.Db.World.{Action, ClientNode, send, create_base_packet, client_at}
use tizcord.Db.Messages.{db_save_direct_message, db_list_direct_messages}
use tizcord.Chat.Channel.{sender_node, next_index}

-- The first connected client with the id, authenticated or not.
abbrev pub find_recipient : {Byte : Type 0} → ℕ → List (ClientNode Byte) → Option ℕ
find_recipient id clients = find_index (λ c. ltb 0 c.socket_fd && c.id == id) clients

module _ (e : Env) where
  -- One stored message as a MIDDLE frame. The sender is told by comparing the names.
  unfoldable pub direct_message_history_cb :
      ℕ → ℕ → ClientNode e.abi.Byte → ℕ → ℕ → Text → Text → Text → ℕ → ℕ → Action e ℕ
  direct_message_history_cb client_fd list_id me friend_id msg_id sender_username _ content
        timestamp index =
      do
        packet ← create_base_packet e packet_dm (
            dm (record no_dm {
              action = dm_message;
              recipient_id = to_int32 friend_id;
              message_id = msg_id;
              message = take (message_len - 1) content;
            }))
        send e client_fd (record packet {
          list_id = list_id;
          list_index = index;
          list_frame = list_frame_middle;
          sender_id =
              if text_eq sender_username (take (max_name_len - 1) me.username)
              then me.id
              else friend_id;
          timestamp = timestamp;
        })
        pure (next_index index)

  -- A START or END frame of a history.
  unfoldable pub direct_history_frame : ℕ → ℕ → ℕ → ℕ → Action e Bool
  direct_history_frame client_fd list_id friend_id frame = do
    packet ←
        create_base_packet e packet_dm
          (dm (record no_dm { action = dm_message; recipient_id = to_int32 friend_id }))
    send e client_fd (record packet { list_id = list_id; list_frame = frame })

  unfoldable pub send_direct_history : ℕ → ClientNode e.abi.Byte → DmPayload → Action e (Unit {0})
  send_direct_history sender_fd me p = do
    let list_id = p.recipient_id
    let friend_id = to_int64 p.recipient_id
    direct_history_frame sender_fd list_id friend_id list_frame_start
    db_list_direct_messages e me.id friend_id
        (direct_message_history_cb sender_fd list_id me friend_id) 0
    direct_history_frame sender_fd list_id friend_id list_frame_end
    pure tt

  -- The packet with the sender's id, where the sender is a client.
  unfoldable pub stamp_direct : Option (ClientNode e.abi.Byte) → Packet → Packet
  stamp_direct none packet = packet
  stamp_direct (some sender) packet = record packet { sender_id = sender.id }

  unfoldable pub save_direct : Option (ClientNode e.abi.Byte) → DmPayload → Action e (Unit {0})
  save_direct none p = pure tt
  save_direct (some sender) p =
      db_save_direct_message e sender.id (to_int64 p.recipient_id) p.message >> pure tt

  -- The packet goes to the first client that has the recipient's id.
  unfoldable pub forward_direct : Packet → DmPayload → Action e (Unit {0})
  forward_direct packet p = do
    target ← gets (λ w. elim (find_recipient (to_int64 p.recipient_id) w.clients) [
      | none ↦ none
      | some i ↦ some (client_at e w i)
    ])
    elim target [ none ↦ pure tt | some client ↦ (send e client.socket_fd packet >> pure tt) ]

  unfoldable pub handle_private_message : Packet → DmPayload → ℕ → Action e (Unit {0})
  handle_private_message packet p sender_fd = do
    sender ← gets (sender_node e sender_fd)
    if p.action == dm_message
        then (do save_direct sender p; forward_direct (stamp_direct sender packet) p)
        else if p.action == dm_history_request
        then (elim sender [ none ↦ pure tt | some me ↦ send_direct_history sender_fd me p ])
        else pure tt
