-- ===== src/Ui/Commands.antt =====
-- The command window of client/ui.c.
pub mod Status
use tizcord.Base.{
  ℕ, ◌-◌, ◌^◌, [], ◌∷◌, ◌++◌, Text, Bool, true, false, not, ◌&&◌, ◌||◌, Option, none, some,
  if◌then◌else◌, leb, ltb, ◌==◌, length, take, drop, get_or, find_index, text_eq, codes,
}
use tizcord.Protocol.{max_name_len, profile_status_len}
use tizcord.Words.{to_int64}
use tizcord.Client.{
  Connection, send_friend_request, accept_friend_request, unfriend, reject_friend_request,
  request_friend_list, create_server, leave_server, kick_server_member, create_channel,
  delete_server, delete_channel, send_status_update,
}
use tizcord.Ui.State.{
  Ui, UiServer, Screen, screen_chat, server_at, channel_at, sending, clear_input, erase_char,
  type_char, text_of, max_msg_len, no_member_entry,
}
use tizcord.Ui.Login.{
  Key, key_tab, key_enter, key_backspace, key_escape, key_up, key_down, key_f, key_char,
  is_printable,
}
use tizcord.Ui.Messages.{digits}

-- strncmp(text, prefix, strlen(prefix)) == 0
unfoldable pub starts_with : Text → Text → Bool
starts_with [] text = true
starts_with (p ∷ prefix) [] = false
starts_with (p ∷ prefix) (c ∷ text) = (p == c) && starts_with prefix text

-- The loop that takes the last byte off while it is a space.
unfoldable pub strip_spaces : Text → Text
strip_spaces [] = []
strip_spaces (c ∷ text) =
    let rest = strip_spaces text in if c == 32 && length rest == 0 then [] else c ∷ rest

-- The loop that moves past spaces.
unfoldable pub skip_spaces : Text → Text
skip_spaces [] = []
skip_spaces (c ∷ text) = let rest = skip_spaces text in if c == 32 then rest else c ∷ text

-- The argument after `n` bytes, cut to a name's field and stripped.
abbrev pub name_argument : ℕ → Text → Text
name_argument n command = strip_spaces (take (max_name_len - 1) (drop n command))

abbrev pub is_chat : Screen → Bool
is_chat screen_chat = true
is_chat _ = false

-- Whether an int64_t is not the -1 that stands for "not found".
abbrev pub found_id : Option ℕ → Option ℕ
found_id none = none
found_id (some id) = if id == 2 ^ 64 - 1 then none else some id

-- The first server of the list with the name.
abbrev pub find_server : Text → Ui → Option ℕ
find_server name u = elim (find_index (λ s. text_eq s.name name) (take u.server_count u.servers)) [
  | none ↦ none
  | some i ↦ found_id (some (to_int64 (server_at u i).id))
]

abbrev pub find_channel : Text → UiServer → Option ℕ
find_channel name s =
    elim (find_index (λ c. text_eq c.name name) (take s.channel_count s.channels)) [
      | none ↦ none
      | some i ↦ found_id (some (channel_at s i).id)
    ]

-- The first member with the name; a count that is negative as an int is no members. Where the
-- search goes past the array's end the loop of `start_ui` has no result, see `past_members`.
abbrev pub find_member : Text → UiServer → Option ℕ
find_member name s =
    let count = if leb (2 ^ 31) s.member_count then 0 else s.member_count in
    elim (find_index (λ m. text_eq m.name name) (take count s.members)) [
      | none ↦ none
      | some i ↦ found_id (some (get_or s.members i no_member_entry).id)
    ]

abbrev pub say : Text → Ui → Ui
say text u = record u { command_status_msg = text }

-- The server on the screen, where it is one of the list.
abbrev pub listed_server : Ui → Option ℕ
listed_server u = elim u.active_server [
  | none ↦ none
  | some i ↦ if ltb i u.server_count then some i else none
]

module _ (clock : ℕ → ℕ) where
  -- A command on a user's name, and the list of friends again.
  unfoldable pub on_friend : (Text → Connection → Connection) → Text → Ui → Ui
  on_friend f name u =
      if length name == 0 then u else sending (request_friend_list clock) (sending (f name) u)

  unfoldable pub run_kick : Text → Ui → Ui
  run_kick command u =
      if not (is_chat u.previous_screen)
      then say (codes "Error: You must enter the server to kick members.") u
      else elim (listed_server u) [
        | none ↦ u
        | some i ↦
            let name = name_argument 6 command in
            let s = server_at u i in
            if length name == 0 then u else elim (find_member name s) [
              | none ↦ say (codes "Error: User not found in server.") u
              | some target_id ↦
                  say (codes "Sending kick request...")
                    (sending (kick_server_member clock (to_int64 s.id) target_id) u)
            ]
      ]

  unfoldable pub run_create_channel : Text → Ui → Ui
  run_create_channel command u =
      if not (is_chat u.previous_screen)
      then say (codes "Error: You must enter the server to create channels.") u
      else elim (listed_server u) [
        | none ↦ u
        | some i ↦
            let name = name_argument 15 command in
            if length name == 0
            then say (codes "Error: Channel name cannot be empty.") u
            else say (codes "Sending create request...")
                (sending (create_channel clock (server_at u i).id name) u)
      ]

  unfoldable pub run_delete_server : Text → Ui → Ui
  run_delete_server command u = elim (find_server (drop 14 command) u) [
    | none ↦ say (codes "Error: Server not found in your list.") u
    | some target_id ↦
        say (codes "Sending delete request...") (sending (delete_server clock target_id) u)
  ]

  unfoldable pub run_delete_channel : Text → Ui → Ui
  run_delete_channel command u =
      if not (is_chat u.previous_screen)
      then say (codes "Error: You must enter the server to delete channels.") u
      else elim (listed_server u) [
        | none ↦ say (codes "Error: You must join a server to delete its channels.") u
        | some i ↦ elim (find_channel (drop 15 command) (server_at u i)) [
          | none ↦ say (codes "Error: Channel not found in this server.") u
          | some target_id ↦
              say (codes "Sending delete request...") (sending (delete_channel clock target_id) u)
        ]
      ]

  unfoldable pub run_set_status : Text → Ui → Ui
  run_set_status command u =
      let status = strip_spaces (skip_spaces (drop 10 command)) in
      if length status == 0
      then say (codes "Error: Status cannot be empty. Use /setstatus <1-64 characters>.") u
      else if ltb profile_status_len (length status)
      then say
          (codes "Error: Status is "
            ++ digits 20 (length status) []
            ++ codes " characters. Maximum is 64.")
          u
      else say (codes "Updating status...") (sending (send_status_update clock status) u)

  unfoldable pub run_leave_server : Ui → Ui × Bool
  run_leave_server u = elim u.active_server [
    | none ↦ (say (codes "Error: You're not in a server.") u, false)
    | some i ↦ elim u.current_user [
      | none ↦ (say (codes "Error: You're not in a server.") u, false)
      | some _ ↦ (sending (leave_server clock (server_at u i).id) u, true)
    ]
  ]

  -- The command's effect, and whether the window closes.
  unfoldable pub run_command : Text → Ui → Ui × Bool
  run_command command u =
      if text_eq command (codes "/help")
      then (record u { show_help = true; command_status_msg = [] }, false)
      else if starts_with (codes "/friend ") command
      then (on_friend (send_friend_request clock) (name_argument 8 command) u, true)
      else if starts_with (codes "/accept ") command
      then (on_friend (accept_friend_request clock) (name_argument 8 command) u, true)
      else if starts_with (codes "/unfriend ") command
      then (on_friend (unfriend clock) (name_argument 10 command) u, true)
      else if starts_with (codes "/reject ") command
      then (on_friend (reject_friend_request clock) (name_argument 8 command) u, true)
      else if starts_with (codes "/createserver ") command
      then (let name = name_argument 14 command in
          (if length name == 0 then u else sending (create_server clock name) u, true))
      else if text_eq command (codes "/leaveserver")
      then run_leave_server u
      else if starts_with (codes "/kick ") command
      then (run_kick command u, false)
      else if starts_with (codes "/createchannel ") command
      then (run_create_channel command u, false)
      else if starts_with (codes "/deleteserver ") command
      then (run_delete_server command u, false)
      else if starts_with (codes "/deletechannel ") command
      then (run_delete_channel command u, false)
      else if text_eq command (codes "/setstatus") || starts_with (codes "/setstatus ") command
      then (run_set_status command u, false)
      else (say (codes "Error: Unknown command.") u, false)

  -- The window closes after a command that waits for no answer.
  unfoldable pub finish_command : Ui × Bool → Ui
  finish_command (u, false) = u
  finish_command (u, true) = record u {
    cmd_input = clear_input u.cmd_input;
    current_screen = u.previous_screen;
    command_status_msg = [];
    show_help = false;
  }

  unfoldable pub handle_command_input : Key → Ui → Ui
  handle_command_input key_escape u = record u {
    current_screen = u.previous_screen;
    show_help = false;
  }
  handle_command_input key_enter u = finish_command (run_command (text_of u.cmd_input.bytes) u)
  handle_command_input key_backspace u = record u {
    cmd_input = erase_char u.cmd_input;
    show_help = false;
  }
  handle_command_input (key_char ch) u =
      if is_printable ch && ltb u.cmd_input.len (max_msg_len - 1)
      then record u {
        cmd_input = type_char ch u.cmd_input;
        command_status_msg = [];
        show_help = false;
      }
      else u
  handle_command_input (key_f n) u = u
  handle_command_input key_tab u = u
  handle_command_input key_up u = u
  handle_command_input key_down u = u
