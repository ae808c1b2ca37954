-- ===== src/Ui/Tests.antt =====
-- The client's theorems at concrete packets, keys and lists.
pub mod Delivery
use tizcord.Base.{
  ℕ, zero, suc, ◌==◌, ◌<◌, false, none, ◌-◌, ◌≡◌, refl, List, [], ◌∷◌, ◌++◌, true, some, codes,
  take, drop, get_or, map, min, arith,
}
use mathlib.Core.List.{Perm}
use tizcord.Protocol.{
  Packet, ServerPayload, blank_packet, auth, no_auth, auth_login, packet_auth, resp_ok, server,
  no_server, server_list, packet_server, max_name_len,
}
use tizcord.Db.World.{World}
use tizcord.Server.Loop.{init_server_context}
use tizcord.Server.Memory.{memory}
use tizcord.Reply.{ListItems, item_payload, send_list_response}
use tizcord.Client.{Connection, send_channel_message}
use tizcord.Client.Requests.{send, Carried, send-Carried}
use tizcord.Wire.Host.{octet_host, octet_host-AbiLaws}
use tizcord.Client.Asked.{asked_packet, register}
use tizcord.Db.Sql.{select_users}
use tizcord.Db.World.{no_client}
use tizcord.Social.Notify.{send_user_list}
use tizcord.Ui.State.{
  Ui, Input, friend_at, no_friend, screen_chat, max_all_users, replicate, sending, server_at,
  channel_at, text_of,
}
use tizcord.Ui.Keys.{cycle_friends, open_command}
use tizcord.Ui.Commands.{finish_command}
use tizcord.Base.{Text, ◌≤◌, ◌⊎◌, length}
use tizcord.Protocol.{server_delete, profile_status_len}
use tizcord.Reply.{send_action_response}
use tizcord.Client.{list_all_servers_request, send_status_update}
use tizcord.Ui.State.{no_server_entry}
use tizcord.Ui.Servers.{close_command}
use tizcord.Ui.Commands.{run_set_status}
use tizcord.Ui.Commands.Status.{Trimmed, run_set_status-bounds}
use tizcord.Ui.State.{screen_dms}
use tizcord.Ui.Login.{key_tab}
use tizcord.Ui.Loop.{handle_event}
use tizcord.Ui.Invariant.{FriendOk, All-replicate}
use tizcord.Ui.Invariant.Loop.{initial_ui-IsValid}
use tizcord.Ui.Invariant.Progress.{handle_event-GoesOn}
use tizcord.Protocol.{ChannelPayload, channel}
use tizcord.Db.World.{ClientNode}
use tizcord.Chat.Channel.{handle_channel_message}
use tizcord.Chat.Broadcast.{copies}
use tizcord.Ui.State.{no_channel_entry}
use tizcord.Ui.Network.{process_network_packet}
use tizcord.Ui.Delivery.Chat.{with_message, shown_message, post-shown}
use tizcord.Ui.Keys.Cycle.{cycle_friends-finds, cycle_friends-never}
use tizcord.Ui.Keys.Typing.{Typed, keys, chat_line-sends, open_command-stale}
use tizcord.Ui.Delivery.Fill.{Shows}
use tizcord.Ui.Delivery.Users.{user_entry}
use tizcord.Ui.State.{UiUser, initial_ui, ui_max_servers}
use tizcord.Ui.Login.{key_enter, key_f, key_char}
use tizcord.Ui.People.{sort_users, comes_before}
use tizcord.Ui.People.Order.{IsSorted}
use tizcord.Ui.People.Alphabet.{InOrder}
use tizcord.Ui.People.Sort.{sort_users-IsSorted}
use tizcord.Ui.Loop.{packet_event, disconnect_event, key_event, redraw_event, start_ui}
use tizcord.Ui.Invariant.{OptAll, IsValid}
use tizcord.Ui.Invariant.Loop.{start_ui-IsValid}

abbrev pub clock : ℕ → ℕ
clock n = n

abbrev pub open_connection : Connection
open_connection = record { client_socket = some 3; sent = [] }

abbrev accepted : Packet
accepted =
    blank_packet packet_auth (auth (record no_auth { action = auth_login; status_code = resp_ok }))

abbrev one_server : Packet
one_server =
    record (blank_packet packet_server (
      server (record no_server { action = server_list; server_id = 7; server_name = codes "a" }))) {
        list_total = 1;
      }

-- A login, a list of servers, and the keys that enter the server and open the command window.
start_ui-IsValid_example : OptAll IsValid (
    start_ui clock
      (packet_event accepted
        ∷ packet_event one_server
        ∷ redraw_event
        ∷ key_event key_enter
        ∷ key_event (key_f 1)
        ∷ key_event (key_char 107)
        ∷ disconnect_event
        ∷ [])
      (initial_ui open_connection))
start_ui-IsValid_example =
    start_ui-IsValid clock
      (packet_event accepted
        ∷ packet_event one_server
        ∷ redraw_event
        ∷ key_event key_enter
        ∷ key_event (key_f 1)
        ∷ key_event (key_char 107)
        ∷ disconnect_event
        ∷ [])
      open_connection

abbrev three_users : List UiUser
three_users =
    record { id = 1; username = codes "Bob"; status = []; is_online = 0 }
    ∷ record { id = 2; username = codes "ada"; status = []; is_online = 0 }
    ∷ record { id = 3; username = codes "cy"; status = []; is_online = 1 }
    ∷ []

sort_users-IsSorted_example :
    (sorted : List UiUser) × (sort_users 3 three_users ≡ sorted ++ drop 3 three_users)
    × InOrder sorted
    × Perm sorted (take 3 three_users)
sort_users-IsSorted_example = sort_users-IsSorted 3 three_users (omega arith)

-- Three friends, of whom the second is accepted.
abbrev three_friends : Ui
three_friends = record (initial_ui open_connection) {
  friends =
      record no_friend { id = 5; type = 1 }
      ∷ record no_friend { id = 6; type = 2 }
      ∷ no_friend
      ∷ [];
  friend_count = 3;
}

cycle_friends-finds_example :
    (j : ℕ) × (cycle_friends clock 3 three_friends 2 ≡ some j)
    × (j < 3)
    × (((friend_at three_friends j).type == 2) ≡ true)
cycle_friends-finds_example = cycle_friends-finds clock three_friends 2 1 (omega arith) refl

-- The one friend that is left is not accepted.
abbrev no_accepted : Ui
no_accepted = record three_friends { friend_count = 1 }

nobody_accepted : (k : ℕ) → k < 1 → ((friend_at no_accepted k).type == 2) ≡ false
nobody_accepted zero h = refl
nobody_accepted (suc k) h = absurd (omega (arith, h))

cycle_friends-never_example : cycle_friends clock 9 no_accepted 0 ≡ none
cycle_friends-never_example = cycle_friends-never clock no_accepted nobody_accepted 9 0

-- A chat with a server.
abbrev pub chatting : Ui
chatting = record (initial_ui open_connection) {
  current_screen = screen_chat;
  active_server = some 0;
}

chat_line-sends_example :
    (i : Input) × (start_ui clock (keys (codes "hi!") ++ key_event key_enter ∷ []) chatting
      ≡ some
          (record (sending
            (send_channel_message clock (channel_at (server_at chatting 0) 0).id (codes "hi!"))
            chatting) { chat_input = i }))
    × Typed i []
chat_line-sends_example =
    chat_line-sends clock 0 (codes "hi!") chatting refl refl (replicate 239 0, refl, refl, refl)
      (refl, (refl, (refl, tt))) (omega arith) (omega arith)

-- The buffer after "/help" was typed.
abbrev asked_help : Ui
asked_help = record (initial_ui open_connection) {
  cmd_input = record { bytes = codes "/help" ++ replicate 235 0; len = 5 };
}

open_command-stale_example :
    let v = open_command (finish_command clock (asked_help, true)) in
    (text_of v.cmd_input.bytes ≡ codes "/help") × (v.cmd_input.len ≡ 1)
open_command-stale_example =
    open_command-stale clock asked_help (codes "help") (replicate 234 0, refl, refl, refl)
      (refl, (refl, (refl, (refl, tt))))

send-Carried_example :
    Carried octet_host
      (asked_packet 9 (register (codes "ada") (codes "secret")))
      open_connection
      (send (λ n. 9) (register (codes "ada") (codes "secret")) open_connection)
send-Carried_example =
    send-Carried octet_host (λ n. 9) (register (codes "ada") (codes "secret")) open_connection 3
      octet_host-AbiLaws (omega arith) (ground arith) refl

run_set_status-bounds_example :
    (status : Text) × Trimmed (drop 10 (codes "/setstatus  at work ")) status
    × (((0 < length status)
          × (length status ≤ profile_status_len)
          × ((run_set_status clock (codes "/setstatus  at work ") chatting).connection
              ≡ send_status_update clock status open_connection))
        ⊎ (((length status ≡ 0) ⊎ (profile_status_len < length status))
            × ((run_set_status clock (codes "/setstatus  at work ") chatting).connection
                ≡ open_connection)))
run_set_status-bounds_example = run_set_status-bounds clock (codes "/setstatus  at work ") chatting

-- A user who writes to an accepted friend.
abbrev writing : Ui
writing = record (initial_ui open_connection) {
  users = record { username = codes "ada"; password = codes "a"; server_id = none } ∷ [];
  current_user = some 0;
  current_screen = screen_dms;
  friends = record no_friend { id = 6; type = 2 } ∷ replicate 63 no_friend;
  friend_count = 1;
  active_dm_friend = some 0;
}

writing-IsValid : IsValid writing
writing-IsValid =
    let h = initial_ui-IsValid open_connection in
    (
      h.0,
      (
        refl,
        (omega arith, All-replicate FriendOk 63 no_friend (omega arith)),
        omega arith,
        omega arith,
        omega arith,
      ),
      h.2,
      h.3,
      (omega arith, (λ a. refl), (λ a. absurd cc), (λ a b. absurd cc)),
    )

handle_event-GoesOn_example : (v : Ui) × (handle_event clock (key_event key_tab) writing ≡ some v)
handle_event-GoesOn_example =
    handle_event-GoesOn clock writing key_tab writing-IsValid (λ a. refl) (λ a. absurd cc)
      (λ a. (0, refl, omega arith, refl)) (λ a. absurd cc)
