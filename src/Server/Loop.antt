-- ===== src/Server/Loop.antt =====
-- `run_server_loop` of server/server.c as a function of what each round of select(2) reports. The
-- loop itself never ends; a history of the server is a list of rounds.
use tizcord.Base.{
  ℕ, zero, suc, List, [], ◌∷◌, ◌++◌, Bool, true, false, Option, none, some, if◌then◌else◌, leb, ltb,
  ◌&&◌, not, length, remove_at, ◌>>◌,
}
use tizcord.Protocol.{Packet, Payload, system, auth, dm, server, channel, social}
use tizcord.Wire.Receive.{RecvAnswer, Received, incomplete, broken, got, packet_receive_partial}
use tizcord.Db.Env.{Env}
use tizcord.Db.World.{World, Action, client_at, write_client, max_clients, no_client}
use tizcord.Reply.{minus_one}
use tizcord.TizcordServer.Lists.{notify_server_member_lists_for_user}
use tizcord.TizcordServer.Requests.{handle_server_packet}
use tizcord.Chat.Channel.{handle_channel_message}
use tizcord.Chat.Direct.{handle_private_message}
use tizcord.Social.Notify.{notify_all_user_lists}
use tizcord.Social.Requests.{handle_social_packet}
use tizcord.Auth.{handle_auth_packet}
use tizcord.Words.{not_positive64}

module _ (e : Env) where
  -- The state that `main` starts the loop with.
  abbrev pub init_server_context : e.Conn → World e
  init_server_context conn = record { clients = []; next_list_id = 1; conn = conn; sent = [] }

  -- The member of the union tells the type; `system` stands for every type that is not known.
  unfoldable pub dispatch : ℕ → Packet → Payload → Action e (Unit {0})
  dispatch i packet (auth p) w = handle_auth_packet e (client_at e w i).socket_fd p w
  dispatch i packet (dm p) w = handle_private_message e packet p (client_at e w i).socket_fd w
  dispatch i packet (server p) w = handle_server_packet e i p w
  dispatch i packet (channel p) w = handle_channel_message e packet p (client_at e w i).socket_fd w
  dispatch i packet (social p) w = handle_social_packet e i p w
  dispatch i packet (system p) w = (tt, w)

  unfoldable pub process_client_packet : ℕ → Packet → Action e (Unit {0})
  process_client_packet i packet = dispatch i packet packet.payload

  -- A socket from accept(2) gets the entry after the last, if there is room.
  unfoldable pub handle_new_connection : Option ℕ → Action e (Option ℕ)
  handle_new_connection none w = (none, w)
  handle_new_connection (some client_fd) w =
      if leb max_clients (length w.clients) then (none, w) else (
        some client_fd,
        record w {
          clients =
              w.clients
              ++ record no_client { socket_fd = client_fd; current_server_index = minus_one } ∷ [];
        },
      )

  -- The entry of a client whose connection is over is removed, and the others are told.
  unfoldable pub drop_client : ℕ → Action e (Unit {0})
  drop_client i w =
      let client = client_at e w i in
      let removed = record w { clients = remove_at w.clients i } in
      if client.is_authenticated && not (not_positive64 client.id)
      then (notify_server_member_lists_for_user e client.id >> notify_all_user_lists e) removed
      else (tt, removed)

  -- The receive state of client `i` after reading what has arrived.
  abbrev pub write_receive :
      ℕ → Received × tizcord.Wire.Receive.Progress e.abi.Byte → World e → World e
  write_receive i r w = write_client e i (record (client_at e w i) { receive = r.1 }) w

  -- What select(2) and recv(2) report for each socket: `none` if it is not ready.
  abbrev pub Arrivals : Type 0
  Arrivals = ℕ → Option (List (RecvAnswer e.abi.Byte))

  -- What follows the call of `packet_receive_partial`; `true` if the client was removed.
  unfoldable pub serve_received : ℕ → Received → Action e Bool
  serve_received i incomplete w = (false, w)
  serve_received i broken w = (true, (drop_client i w).1)
  serve_received i (got packet) w = (false, (process_client_packet i packet w).1)

  -- One client that is ready.
  unfoldable pub serve_ready : ℕ → List (RecvAnswer e.abi.Byte) → Action e Bool
  serve_ready i answers w =
      let r = packet_receive_partial e.abi (client_at e w i).receive answers in
      serve_received i r.0 (write_receive i r w)

  unfoldable pub serve_client : Arrivals → ℕ → Action e Bool
  serve_client arrivals i w =
      let fd = (client_at e w i).socket_fd in
      if ltb 0 fd
      then elim (arrivals fd) [ none ↦ (false, w) | some answers ↦ serve_ready i answers w ]
      else (false, w)

  -- The loop over the clients, from client `i` on, for `fuel` rounds at most. After a removal the
  -- same index is looked at again.
  unfoldable pub serve_clients : Arrivals → ℕ → ℕ → Action e ℕ
  serve_clients arrivals zero i w = (i, w)
  serve_clients arrivals (suc fuel) i w = elim (ltb i (length w.clients)) [
    | false ↦ (i, w)
    | true ↦
        serve_clients arrivals fuel (if (serve_client arrivals i w).0 then i else suc i)
          (serve_client arrivals i w).1
  ]

  -- What one round of the loop is told: a new socket, if the listening one was ready and
  -- accept(2) gave it, and the clients' sockets that are ready.
  pub record Round : Type 0 where
    pub accepted : Option ℕ
    pub arrivals : Arrivals

  unfoldable pub run_round : Round → Action e (Unit {0})
  run_round r w =
      let w' = (handle_new_connection r.accepted w).1 in
      (tt, (serve_clients r.arrivals (length w'.clients) 0 w').1)

  unfoldable pub run_server_loop : List Round → World e → World e
  run_server_loop [] w = w
  run_server_loop (r ∷ rounds) w = run_server_loop rounds (run_round r w).1
