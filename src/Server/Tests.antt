-- ===== src/Server/Tests.antt =====
-- The server's theorems at a concrete database, with concrete clients and packets.
use tizcord.Base.{
  ℕ, ◌+◌, ◌-◌, ◌^◌, ◌<◌, ◌≤◌, ◌≡◌, refl, List, [], ◌∷◌, ◌++◌, Bool, true, false, none, some,
  if◌then◌else◌, ◌==◌, codes, map, arith, ◌>>=◌, take, get_or, length,
}
use tizcord.Protocol.{
  Packet, Payload, blank_packet, auth, no_auth, packet_auth, auth_login, auth_logout, server,
  no_server, server_delete, server_list, packet_server, resp_ok, max_name_len,
}
use tizcord.Wire.Receive.{read}
use tizcord.Db.World.{World, ClientNode, no_client, client_at, run, max_servers}
use tizcord.Reply.{ListItems, item_payload, allocate_list_id, send_list_response}
use tizcord.Reply.Frames.{frames, allocate_list_id-bounds, send_list_response-frames}
use tizcord.TizcordServer.Requests.{handle_server_packet}
use tizcord.TizcordServer.Guards.{Refused, handle_server_packet-Refused}
use tizcord.TizcordServer.Requests.{delete_tizcord_server, kick_server_member}
use tizcord.Db.Accounts.{db_get_password_hash}
use tizcord.Db.Sql.{select_is_admin}
use tizcord.Db.World.{step_row}
use tizcord.TizcordServer.Admins.{SameData, kick_server_member-SameData}
use tizcord.Chat.Channel.{channel_broadcast}
use tizcord.Chat.Broadcast.{copies, channel_broadcast-copies}
use tizcord.Db.Sql.{select_servers}
use tizcord.Db.Servers.{db_list_servers}
use tizcord.TizcordServer.Collect.{no_servers, collect_server_list_item}
use tizcord.TizcordServer.Limits.{ServerRow, read_server, db_list_servers-first}
use tizcord.Auth.{revoke_existing_login, login_account}
use tizcord.Auth.Revoke.{without_older_login, revoke_existing_login-map}
use tizcord.Auth.Takeover.{LoggedInAs, login_account-OnlyOn}
use tizcord.Server.Invariant.{IsValid}
use tizcord.Server.Loop.{Arrivals, Round, run_server_loop, init_server_context, serve_clients}
use tizcord.Server.Rounds.{run_server_loop-IsValid}
use tizcord.Server.Sweep.{serve_clients-ends}
use tizcord.Server.Memory.{memory, memory-Users, memory-ReadsOnly}

-- A database with one user.
abbrev users : memory.Conn
users = (codes "ada", codes "secret") ∷ []

abbrev request : ℕ → Packet
request action =
    blank_packet packet_auth
      (auth (record no_auth { action = action; username = codes "ada"; password = codes "secret" }))

-- The bytes of a packet from one socket, and nothing from the others.
abbrev from : ℕ → Packet → Arrivals memory
from socket packet fd =
    if fd == socket then some (read (packet ∷ packet ∷ packet ∷ []) ∷ []) else none

abbrev quiet : Arrivals memory
quiet fd = none

-- A client connects and logs in.
abbrev one_login : List (Round memory)
one_login =
    record { accepted = some 4; arrivals = quiet }
    ∷ record { accepted = none; arrivals = from 4 (request auth_login) }
    ∷ []

run_server_loop-IsValid_example :
    IsValid memory memory-Users
      (run_server_loop memory one_login (init_server_context memory users))
run_server_loop-IsValid_example =
    run_server_loop-IsValid memory memory-Users users one_login ((omega arith, tt), (tt, tt))

-- Two clients, of whom the first is logged in.
abbrev entry : ℕ → ℕ → Bool → ClientNode memory.abi.Byte
entry socket user inside = record no_client {
  socket_fd = socket;
  id = user;
  is_authenticated = inside;
}

abbrev two_clients : World memory
two_clients = record {
  clients = entry 4 1 true ∷ entry 5 0 false ∷ [];
  next_list_id = 1;
  conn = users;
  sent = [];
}

-- The user is logged in on an older socket and on the current one, and an entry has no socket.
abbrev same_user : World memory
same_user = record two_clients { clients = entry 4 1 true ∷ entry 5 1 true ∷ entry 0 1 true ∷ [] }

revoke_existing_login-map_example :
    (revoke_existing_login memory 5 1 (codes "ada") same_user).1.clients
    ≡ map (without_older_login 5 1) same_user.clients
revoke_existing_login-map_example = revoke_existing_login-map memory 5 1 (codes "ada") same_user

-- The hash of the first user is the text of the password, since `memory` hashes by the identity.
ada_found : (db_get_password_hash memory (codes "ada") two_clients).0 ≡ some (1, codes "secret")
unfolding db_get_password_hash run ◌>>=◌
ada_found = refl

login_account-OnlyOn_example :
    LoggedInAs memory 5 1 1
      (codes "ada")
      (login_account memory 5
        (record no_auth { username = codes "ada"; password = codes "secret" })
        two_clients).1.clients
login_account-OnlyOn_example =
    login_account-OnlyOn memory 5 1 1
      (record no_auth { username = codes "ada"; password = codes "secret" }) (codes "secret")
      two_clients (omega arith, (ground arith, tt), (omega arith, tt, tt)) refl ada_found refl

serve_clients-ends_example :
    let (last, w') = serve_clients memory (from 4 (request auth_logout)) 2 0 two_clients in
    length w'.clients ≤ last
serve_clients-ends_example =
    serve_clients-ends memory (from 4 (request auth_logout)) 2 0 two_clients (omega arith)

handle_server_packet-Refused_example :
    Refused memory 1 two_clients server_delete
      (handle_server_packet memory 1
        (record no_server { action = server_delete; server_id = 3 })
        two_clients).1
handle_server_packet-Refused_example =
    handle_server_packet-Refused memory 1 two_clients refl
      (record no_server { action = server_delete; server_id = 3 })

allocate_list_id-bounds_example :
    (0 < (allocate_list_id memory two_clients).0)
    × ((allocate_list_id memory two_clients).0 < 2 ^ 31)
    × ((allocate_list_id memory two_clients).1.next_list_id
        ≡ (allocate_list_id memory two_clients).0 + 1)
allocate_list_id-bounds_example = allocate_list_id-bounds memory two_clients (omega arith)

-- Three servers.
abbrev three_servers : ListItems
three_servers = record {
  items = codes "a" ∷ codes "b" ∷ codes "c" ∷ [];
  item_ids = 1 ∷ 2 ∷ 3 ∷ [];
  item_counts = some (4 ∷ 5 ∷ 6 ∷ []);
}

abbrev server_entry : ℕ → Payload
server_entry i = server (record no_server {
  action = server_list;
  status_code = resp_ok;
  server_id = get_or three_servers.item_ids i 0;
  member_count = get_or (4 ∷ 5 ∷ 6 ∷ []) i 0;
  server_name = take (max_name_len - 1) (get_or three_servers.items i []);
})

server_entry-fills :
    (i : ℕ) → item_payload packet_server server_list three_servers i ≡ some (server_entry i)
unfolding item_payload
server_entry-fills i = refl

send_list_response-frames_example :
    let (list_id, w') = allocate_list_id memory two_clients in
    send_list_response memory 4 packet_server server_list three_servers 3 two_clients ≡ (
      true,
      record w' {
        sent =
            w'.sent
            ++ frames memory 4 packet_server server_list list_id 3 three_servers server_entry 3 0;
      },
    )
send_list_response-frames_example =
    send_list_response-frames memory 4 packet_server server_list 3 three_servers server_entry
      two_clients (omega arith) (omega arith) server_entry-fills (λ k. refl)

-- In `memory` each user is a member of each server, and no admin.
no_admin :
    (row : memory.Row)
    → step_row memory (
        some
          (memory.execute two_clients.conn
            (select_is_admin 3 (client_at memory two_clients 0).id)).1)
      ≡ some row
    → memory.column_int row 0 ≡ 0
no_admin row h = flag row h
  where
    flag : (row : memory.Row) → some (record { number = 0; text = [] }) ≡ some row → row.number ≡ 0
    flag row h = cc

kick_server_member-SameData_example :
    SameData memory two_clients (delete_tizcord_server memory 0 3 two_clients).1
    × ((target_user_id : ℕ)
        → SameData memory two_clients (kick_server_member memory 0 3 target_user_id two_clients).1)
kick_server_member-SameData_example =
    kick_server_member-SameData memory memory-ReadsOnly 0 3 two_clients no_admin

-- The first of the three clients is excluded, and the last has no socket.
channel_broadcast-copies_example :
    (channel_broadcast memory 7 (request auth_login) (some 4) same_user).1 ≡ record same_user {
      sent = same_user.sent ++ copies (request auth_login) (some 4) same_user.clients;
    }
channel_broadcast-copies_example =
    channel_broadcast-copies memory (request auth_login) (some 4) 7 same_user

db_list_servers-first_example :
    let (conn, result) = memory.execute users select_servers in
    let ((done, acc), w') =
      db_list_servers memory (collect_server_list_item memory) no_servers two_clients in
    let rows : List ServerRow = take max_servers (map (read_server memory) result.rows) in
    (acc.ids ≡ map (λ r. r.0) rows)
    × (acc.names ≡ map (λ r. take (max_name_len - 1) r.1) rows)
    × (acc.count ≡ length rows)
    × (w' ≡ record two_clients { conn = conn })
db_list_servers-first_example = db_list_servers-first memory two_clients refl
