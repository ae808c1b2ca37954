-- ===== src/Ui/Delivery/Direct.antt =====
-- A direct message from the client that sends it, client/client.c, over the server's handler,
-- server/tizcord_chat.c, to the screen of its recipient, client/ui.c.
use tizcord.Base.{
  ℕ, get_or, ◌-◌, ◌^◌, ◌<◌, ◌≡◌, refl, ap, ◌∙◌, List, [], ◌∷◌, ◌++◌, Text, true, Option, none, some,
  ltb, ◌==◌, length, take, arith, gets, pure, ◌>>=◌, ◌>>◌,
}
use tizcord.Protocol.{
  Packet, blank_packet, DmPayload, dm, no_dm, packet_dm, dm_message, message_len, max_name_len,
}
use tizcord.Words.{to_int32, to_int64, to_int64-to_int32}
use tizcord.Db.Sql.{insert_direct_message}
use tizcord.Db.Env.{Env, Outcome}
use tizcord.Db.World.{World, Action, ClientNode, no_client, client_at, run, send}
use tizcord.Db.Messages.{db_save_direct_message}
use tizcord.Chat.Channel.{sender_node}
use tizcord.Chat.Direct.{
  find_recipient, stamp_direct, save_direct, forward_direct, handle_private_message,
}
use tizcord.Client.{Connection, safe_send_packet, send_request, send_dm_message}
use tizcord.Ui.State.{Ui, Message, friend_at, max_messages, max_msg_len}
use tizcord.Ui.Messages.{
  take_message, find_friend, direct_message_of, write_friend, ui_receive_dm_message,
}
use tizcord.Ui.Network.{receive_payload, process_network_packet}
use tizcord.Ui.Invariant.{pick}
use tizcord.Ui.Delivery.Chat.{take-whole, shown_message}

-- The member of the packet that the client hands over, and the packet with its time.
abbrev pub written : ℕ → Text → DmPayload
written recipient_id text = record no_dm {
  action = dm_message;
  recipient_id = to_int32 recipient_id;
  message = take (message_len - 1) text;
}

abbrev pub written_packet : ℕ → ℕ → Text → Packet
written_packet time recipient_id text =
    record (blank_packet packet_dm (dm (written recipient_id text))) { timestamp = time }

send_dm_message-sent :
    (clock : ℕ → ℕ) (recipient_id : ℕ) (text : Text) (c : Connection) (fd : ℕ)
    → c.client_socket ≡ some fd
    → (send_dm_message clock recipient_id text c).sent
      ≡ c.sent ++ written_packet (clock (length c.sent)) recipient_id text ∷ []
unfolding send_dm_message send_request safe_send_packet
send_dm_message-sent clock recipient_id text c fd connected = rw connected refl

-- A saved message changes only the database.
abbrev Same : (e : Env) → World e → World e → Type 0
Same e w v = (v.sent ≡ w.sent) × (v.clients ≡ w.clients)

save_direct-Same :
    (e : Env) (s : ClientNode e.abi.Byte) (p : DmPayload) (w : World e)
    → Same e w (save_direct e (some s) p w).1
unfolding save_direct db_save_direct_message run ◌>>=◌ ◌>>◌ pure
save_direct-Same e s p w =
    pick (λ (r : Option (Outcome e.Row) × World e). Same e w r.1)
      (e.prepare w.conn (insert_direct_message s.id (to_int64 p.recipient_id) p.message))
      (refl, refl) (refl, refl)

forward_direct-sent :
    (e : Env) (packet : Packet) (p : DmPayload) (j : ℕ) (w : World e)
    → find_recipient (to_int64 p.recipient_id) w.clients ≡ some j
    → (forward_direct e packet p w).1.sent ≡ w.sent ++ ((client_at e w j).socket_fd, packet) ∷ []
unfolding forward_direct gets send pure ◌>>=◌ ◌>>◌
forward_direct-sent e packet p j w there = ap (λ (o : Option ℕ). (after o w).1.sent) there
  where
    after : Option ℕ → Action e (Unit {0})
    after o =
        elim (elim o as (λ x. Option (ClientNode e.abi.Byte)) [
          | none ↦ none
          | some i ↦ some (client_at e w i)
        ]) [ none ↦ pure tt | some client ↦ (send e client.socket_fd packet >> pure tt) ]

handle_private_message-sent :
    (e : Env) (time recipient_id : ℕ) (text : Text) (sender_fd : ℕ) (s : ClientNode e.abi.Byte)
    (j : ℕ) (w : World e)
    → sender_node e sender_fd w ≡ some s
    → find_recipient (to_int64 (written recipient_id text).recipient_id) w.clients ≡ some j
    → let packet = written_packet time recipient_id text in
      (handle_private_message e packet (written recipient_id text) sender_fd w).1.sent
      ≡ w.sent ++ ((client_at e w j).socket_fd, stamp_direct e (some s) packet) ∷ []
unfolding handle_private_message gets pure ◌>>=◌ ◌>>◌
handle_private_message-sent e time recipient_id text sender_fd s j w known there =
    let v = (save_direct e (some s) p w).1 in
    let same = save_direct-Same e s p w in
    ap (λ (o : Option (ClientNode e.abi.Byte)). (after o w).1.sent) known
    ∙ forward_direct-sent e (stamped (some s)) p j v (
        ap (λ (cs : List (ClientNode e.abi.Byte)). find_recipient (to_int64 p.recipient_id) cs)
          same.1
        ∙ there)
    ∙ ap (λ t. t ++ ((client_at e v j).socket_fd, stamped (some s)) ∷ []) same.0
    ∙ ap
        (λ (cs : List (ClientNode e.abi.Byte)).
          w.sent ++ ((get_or cs j no_client).socket_fd, stamped (some s)) ∷ [])
        same.1
  where
    p : DmPayload
    p = written recipient_id text

    stamped : Option (ClientNode e.abi.Byte) → Packet
    stamped o = stamp_direct e o (written_packet time recipient_id text)

    after : Option (ClientNode e.abi.Byte) → Action e (Unit {0})
    after o = do save_direct e o p; forward_direct e (stamped o) p

-- The friend's messages with one more.
abbrev pub with_direct : ℕ → Text → ℕ → Ui → Ui
with_direct k text time u =
    let f = friend_at u k in
    write_friend k (record f { messages = f.messages ++ shown_message f.username text time ∷ [] }) u

receive_written :
    (e : Env) (clock : ℕ → ℕ) (time recipient_id : ℕ) (text : Text) (s : ClientNode e.abi.Byte)
    (k : ℕ) (u : Ui)
    → length text < max_msg_len
    → find_friend s.id
        (to_int64 (written recipient_id text).recipient_id)
        (take u.friend_count u.friends)
      ≡ some k
    → (friend_at u k).id ≡ s.id
    → length (friend_at u k).messages < max_messages
    → process_network_packet clock
        (stamp_direct e (some s) (written_packet time recipient_id text))
        u
      ≡ with_direct k text time u
unfolding stamp_direct process_network_packet receive_payload ui_receive_dm_message take_message
receive_written e clock time recipient_id text s k u small found friend room =
    ap (λ (o : Option ℕ). elim o as (λ x. Ui) [ none ↦ u | some i ↦ received i ]) found ∙ taken
  where
    packet : Packet
    packet = stamp_direct e (some s) (written_packet time recipient_id text)

    p : DmPayload
    p = written recipient_id text

    received : ℕ → Ui
    received i =
        let f = friend_at u i in
        write_friend i
          (record f {
            messages = take_message packet.list_frame (direct_message_of packet p f u) f.messages;
          })
          u

    taken : received k ≡ with_direct k text time u
    taken =
        let fits : ltb (length (friend_at u k).messages) max_messages ≡ true = ground arith in
        let same : (s.id == (friend_at u k).id) ≡ true = ground arith in
        rw (fits, same)
          (ap
            (λ (t : Text).
              let f = friend_at u k in
              let m : Message = record {
                sender = take (max_name_len - 1) f.username;
                body = t;
                ts = time;
              } in
              write_friend k (record f { messages = f.messages ++ m ∷ [] }) u)
            (ap (λ (t : Text). take (max_msg_len - 1) t)
                (take-whole (message_len - 1) text (omega (arith, small)))
              ∙ take-whole (max_msg_len - 1) text (omega (arith, small))))

-- A direct message from client to client. With an open connection the client's call hands one packet over.
-- When the server, which has the sender and the recipient as clients, handles this packet, it hands one
-- packet to the recipient's socket and to no other, and a recipient that receives it, has the sender
-- as the first friend with one of the two ids, and has room for it, shows the whole text, of fewer
-- than MAX_MSG_LEN bytes, under the friend's name as the friend's last message and is otherwise as it
-- was. The recipient's id is an int that is not negative.
pub direct-shown :
    (e : Env) (clock : ℕ → ℕ) (recipient_id : ℕ) (text : Text) (c : Connection) (fd : ℕ)
    (sender_fd : ℕ) (s : ClientNode e.abi.Byte) (j : ℕ) (w : World e) (k : ℕ) (u : Ui)
    → c.client_socket ≡ some fd
    → recipient_id < 2 ^ 31
    → length text < max_msg_len
    → sender_node e sender_fd w ≡ some s
    → find_recipient recipient_id w.clients ≡ some j
    → find_friend s.id recipient_id (take u.friend_count u.friends) ≡ some k
    → (friend_at u k).id ≡ s.id
    → length (friend_at u k).messages < max_messages
    → (p : DmPayload) × (request : Packet) × (answer : Packet) × ((send_dm_message clock
          recipient_id text c).sent
        ≡ c.sent ++ request ∷ [])
      × (request.payload ≡ dm p)
      × ((handle_private_message e request p sender_fd w).1.sent
          ≡ w.sent ++ ((client_at e w j).socket_fd, answer) ∷ [])
      × (process_network_packet clock answer u ≡ with_direct k text (clock (length c.sent)) u)
direct-shown e clock recipient_id text c fd sender_fd s j w k u connected int small known there
      found friend room =
    let time = clock (length c.sent) in
    let id : to_int64 (to_int32 recipient_id) ≡ recipient_id = to_int64-to_int32 recipient_id int in
    (
      written recipient_id text,
      written_packet time recipient_id text,
      stamp_direct e (some s) (written_packet time recipient_id text),
      send_dm_message-sent clock recipient_id text c fd connected,
      refl,
      handle_private_message-sent e time recipient_id text sender_fd s j w known
          (ap (λ (n : ℕ). find_recipient n w.clients) id ∙ there),
      receive_written e clock time recipient_id text s k u small
          (ap (λ (n : ℕ). find_friend s.id n (take u.friend_count u.friends)) id ∙ found) friend
          room,
    )
