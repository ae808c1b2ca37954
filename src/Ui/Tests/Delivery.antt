-- ===== src/Ui/Tests/Delivery.antt =====
-- What the server sends, on the client's screen, at concrete lists and messages.
use tizcord.Base.{ℕ, none, ◌≡◌, refl, List, [], ◌∷◌, ◌++◌, true, some, codes, map, min, arith}
use tizcord.Protocol.{Packet, server_list, packet_server}
use tizcord.Db.World.{World}
use tizcord.Server.Loop.{init_server_context}
use tizcord.Server.Memory.{memory}
use tizcord.Reply.{ListItems, send_list_response}
use tizcord.Client.{send_channel_message}
use tizcord.Db.World.{no_client}
use tizcord.Ui.State.{Ui}
use tizcord.Ui.State.{no_server_entry}
use tizcord.Protocol.{ChannelPayload, channel}
use tizcord.Db.World.{ClientNode}
use tizcord.Chat.Channel.{handle_channel_message}
use tizcord.Chat.Broadcast.{copies}
use tizcord.Ui.State.{no_channel_entry}
use tizcord.Ui.Network.{process_network_packet}
use tizcord.Ui.Delivery.Chat.{with_message, shown_message, post-shown}
use tizcord.Ui.State.{initial_ui, ui_max_servers}
use tizcord.Ui.Delivery.Overwrite.{overwrite}
use tizcord.Ui.Delivery.{deliver, deliver-send_list_response}
use tizcord.Protocol.{DmPayload, dm}
use tizcord.Client.{send_dm_message}
use tizcord.Db.World.{client_at}
use tizcord.Chat.Direct.{handle_private_message}
use tizcord.Ui.State.{no_friend}
use tizcord.Ui.Delivery.Direct.{with_direct, direct-shown}
use tizcord.Ui.Tests.{clock, open_connection, chatting}

abbrev three_servers : ListItems
three_servers = record {
  items = codes "a" ∷ codes "b" ∷ codes "c" ∷ [];
  item_ids = 1 ∷ 2 ∷ 3 ∷ [];
  item_counts = some (4 ∷ 5 ∷ 6 ∷ []);
}

abbrev started : World memory
started = init_server_context memory []

deliver-send_list_response_example :
    let (done, w') =
      send_list_response memory 4 packet_server server_list three_servers 3 started in
    let u = initial_ui open_connection in
    (added : List (ℕ × Packet)) × (done ≡ true)
    × (w'.sent ≡ started.sent ++ added)
    × (deliver clock (map (λ f. f.1) added) u ≡ record u {
      servers = overwrite three_servers 0 3 u.servers;
      server_count = min ui_max_servers 3;
    })
deliver-send_list_response_example =
    deliver-send_list_response memory clock 4 3 three_servers started (initial_ui open_connection)
      (omega arith) (omega arith) (λ k. refl) refl

-- Two users, one of them logged in.
abbrev two_users : World memory
two_users =
    record (init_server_context memory ((codes "bob", codes "b") ∷ (codes "ada", codes "a") ∷ [])) {
      clients =
          record (no_client {Byte = memory.abi.Byte}) {
            socket_fd = 4;
            id = 1;
            is_authenticated = true;
          }
          ∷ [];
    }

-- Ada's entry on the server, and a screen with a channel.
abbrev ada : ClientNode memory.abi.Byte
ada = record no_client { socket_fd = 4; id = 2; username = codes "ada"; is_authenticated = true }

abbrev ada_there : World memory
ada_there = record started { clients = ada ∷ [] }

abbrev watching : Ui
watching = record chatting {
  servers = record no_server_entry { channels = no_channel_entry ∷ []; channel_count = 1 } ∷ [];
  server_count = 1;
}

post-shown_example :
    (p : ChannelPayload) × (request : Packet) × (answer : Packet) × ((send_channel_message clock 7
        (codes "hi")
        open_connection).sent
      ≡ [] ++ request ∷ [])
    × (request.payload ≡ channel p)
    × ((handle_channel_message memory request p 4 ada_there).1.sent
        ≡ ada_there.sent ++ copies answer none ada_there.clients)
    × (process_network_packet clock answer watching
        ≡ with_message 0 (shown_message (codes "ada") (codes "hi") 0) watching)
post-shown_example =
    post-shown memory clock 7 (codes "hi") open_connection 3 4 ada ada_there 0 watching refl
      (omega arith) refl (omega arith) refl (omega arith) (omega arith) (omega arith)

-- Ada and Bob on the server, and Bob's screen with Ada as a friend.
abbrev both_there : World memory
both_there = record started {
  clients =
      ada
      ∷ record no_client { socket_fd = 5; id = 3; username = codes "bob"; is_authenticated = true }
      ∷ [];
}

abbrev bobs : Ui
bobs = record (initial_ui open_connection) {
  friends = record no_friend { id = 2; username = codes "ada"; type = 2 } ∷ [];
  friend_count = 1;
}

direct-shown_example :
    (p : DmPayload) × (request : Packet) × (answer : Packet) × ((send_dm_message clock 3
        (codes "hi")
        open_connection).sent
      ≡ [] ++ request ∷ [])
    × (request.payload ≡ dm p)
    × ((handle_private_message memory request p 4 both_there).1.sent
        ≡ both_there.sent ++ ((client_at memory both_there 1).socket_fd, answer) ∷ [])
    × (process_network_packet clock answer bobs ≡ with_direct 0 (codes "hi") 0 bobs)
direct-shown_example =
    direct-shown memory clock 3 (codes "hi") open_connection 3 4 ada 1 both_there 0 bobs refl
      (omega arith) (omega arith) refl refl refl refl (omega arith)
