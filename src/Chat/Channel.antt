-- ===== src/Chat/Channel.antt =====
-- `handle_channel_message` of server/tizcord_chat.c, its broadcast and its history stream.
use tizcord.Base.{
  ℕ, ◌+◌, ◌-◌, ◌%◌, ◌^◌, List, Text, Bool, Option, none, some, if◌then◌else◌, ltb, ◌==◌, ◌&&◌, not,
  length, take, find_index, pure, gets, for_range, ◌>>=◌, ◌>>◌,
}
use tizcord.Protocol.{
  Packet, ChannelPayload, channel, no_channel, packet_channel, channel_create, channel_delete,
  channel_message, channel_history_request, list_frame_start, list_frame_middle, list_frame_end,
  resp_ok, resp_err_unauthorized, resp_err_not_found, resp_err_db, resp_err_internal, max_name_len,
  message_len,
}
use tizcord.Words.{to_int32}
use tizcord.Db.Env.{Env}
use tizcord.Db.World.{World, Action, ClientNode, send, create_base_packet, client_at}
use tizcord.Db.Servers.{db_user_is_server_admin}
use tizcord.Db.Channels.{db_create_channel, db_delete_channel, db_get_channel_server_id}
use tizcord.Db.Messages.{db_save_message, db_list_channel_messages}
use tizcord.TizcordServer.Requests.{is_admin_flag}

-- The first client on the socket.
abbrev pub find_fd : {Byte : Type 0} → ℕ → List (ClientNode Byte) → Option ℕ
find_fd fd clients = find_index (λ c. c.socket_fd == fd) clients

abbrev pub next_index : ℕ → ℕ
next_index i = (i + 1) % 2 ^ 32

-- The socket is connected, and it is not the one that is left out.
unfoldable pub gets_message : Option ℕ → ℕ → Bool
gets_message none fd = ltb 0 fd
gets_message (some sender_fd) fd = ltb 0 fd && not (fd == sender_fd)

module _ (e : Env) where
  abbrev pub sender_node : ℕ → World e → Option (ClientNode e.abi.Byte)
  sender_node sender_fd w = elim (find_fd sender_fd w.clients) [
    | none ↦ none
    | some i ↦ some (client_at e w i)
  ]

  -- The loop's body: client `i` gets the packet, unless it is on the excluded socket.
  unfoldable pub broadcast_to : Packet → Option ℕ → ℕ → Action e (Unit {0})
  broadcast_to packet sender_fd i w =
      let fd = (client_at e w i).socket_fd in
      if gets_message sender_fd fd then (tt, (send e fd packet w).1) else (tt, w)

  -- A `sender_fd` of -1 is `none`: nobody is left out. The channel is not looked at.
  unfoldable pub channel_broadcast : ℕ → Packet → Option ℕ → Action e (Unit {0})
  channel_broadcast channel_id packet sender_fd w =
      for_range (length w.clients) 0 (broadcast_to packet sender_fd) w

  -- One stored message as a MIDDLE frame; the data is `current_index`.
  unfoldable pub message_history_cb : ℕ → ℕ → ℕ → ℕ → Text → Text → ℕ → ℕ → Action e ℕ
  message_history_cb client_fd list_id channel_id msg_id username content timestamp index = do
    packet ← create_base_packet e packet_channel (
        channel (record no_channel {
          action = channel_message;
          channel_id = channel_id;
          message_id = msg_id;
          channel_name = take (max_name_len - 1) username;
          message = take (message_len - 1) content;
        }))
    send e client_fd (record packet {
      list_id = list_id;
      list_index = index;
      list_frame = list_frame_middle;
      timestamp = timestamp;
    })
    pure (next_index index)

  -- A START or END frame of a history.
  unfoldable pub history_frame : ℕ → ℕ → ℕ → Action e Bool
  history_frame client_fd list_id frame = do
    packet ←
        create_base_packet e packet_channel
          (channel (record no_channel { action = channel_message }))
    send e client_fd (record packet { list_id = list_id; list_frame = frame })

  unfoldable pub send_channel_history : ℕ → ChannelPayload → Action e (Unit {0})
  send_channel_history sender_fd p = do
    let list_id = to_int32 p.channel_id
    history_frame sender_fd list_id list_frame_start
    db_list_channel_messages e p.channel_id (message_history_cb sender_fd list_id p.channel_id) 0
    history_frame sender_fd list_id list_frame_end
    pure tt

  -- The packet with the sender's id and name, where the sender is a client.
  unfoldable pub stamp_channel : Option (ClientNode e.abi.Byte) → Packet → ChannelPayload → Packet
  stamp_channel none packet p = record packet { payload = channel p }
  stamp_channel (some sender) packet p = record packet {
    sender_id = sender.id;
    payload = channel (record p { channel_name = take (max_name_len - 1) sender.username });
  }

  unfoldable pub post_channel_message : Packet → ChannelPayload → ℕ → Action e (Unit {0})
  post_channel_message packet p sender_fd = do
    sender ← gets (sender_node sender_fd)
    channel_broadcast p.channel_id (stamp_channel sender packet p) none
    elim sender [
      | none ↦ pure tt
      | some s ↦ (db_save_message e p.channel_id s.id p.message >> pure tt)
    ]

  unfoldable pub create_channel : ChannelPayload → ℕ → Action e (Unit {0})
  create_channel p sender_fd = do
    sender ← gets (sender_node sender_fd)
    let reply = record no_channel { action = channel_create; server_id = p.server_id }
    packet ← create_base_packet e packet_channel (channel reply)
    flag ← elim sender [ none ↦ pure none | some s ↦ db_user_is_server_admin e p.server_id s.id ]
    answer ←
        if is_admin_flag flag
        then (do
          id ← db_create_channel e p.server_id p.channel_name
          pure (elim id [
            | none ↦ record reply { status_code = resp_err_db }
            | some new_channel_id ↦ record reply {
              status_code = resp_ok;
              channel_id = new_channel_id;
              channel_name = take (max_name_len - 1) p.channel_name;
            }
          ]))
        else pure (record reply { status_code = resp_err_unauthorized })
    send e sender_fd (record packet { payload = channel answer })
    pure tt

  -- The status of a deletion by a client that was found.
  unfoldable pub delete_channel_status : ℕ → ℕ → Action e ℕ
  delete_channel_status channel_id sender_id = do
    server_id ← db_get_channel_server_id e channel_id
    elim server_id [
      | none ↦ pure resp_err_not_found
      | some server ↦ do
        flag ← db_user_is_server_admin e server sender_id
        if is_admin_flag flag
            then (do
              done ← db_delete_channel e channel_id
              pure (if done then resp_ok else resp_err_db))
            else pure resp_err_unauthorized
    ]

  unfoldable pub delete_channel : ChannelPayload → ℕ → Action e (Unit {0})
  delete_channel p sender_fd = do
    sender ← gets (sender_node sender_fd)
    let reply = record no_channel { action = channel_delete; channel_id = p.channel_id }
    packet ← create_base_packet e packet_channel (channel reply)
    status ← elim sender [
      | none ↦ pure resp_err_internal
      | some s ↦ delete_channel_status p.channel_id s.id
    ]
    send e sender_fd (record packet { payload = channel (record reply { status_code = status }) })
    pure tt

  unfoldable pub handle_channel_message : Packet → ChannelPayload → ℕ → Action e (Unit {0})
  handle_channel_message packet p sender_fd =
      if p.action == channel_message
      then post_channel_message packet p sender_fd
      else if p.action == channel_create
      then create_channel p sender_fd
      else if p.action == channel_delete
      then delete_channel p sender_fd
      else if p.action == channel_history_request
      then send_channel_history sender_fd p
      else pure tt
