-- ===== src/Ui/Keys.antt =====
-- The keys of the screens of servers, friends, users, channels and direct messages in client/ui.c. A
-- handler gives `none` where the program does not go on: it divides by zero, indexes an array with
-- -1, or a loop never ends.
pub mod Cycle
pub mod Typing
use tizcord.Base.{
  ℕ, zero, suc, ◌+◌, ◌-◌, ◌%◌, [], ◌∷◌, ◌++◌, Bool, false, ◌&&◌, Option, none, some, if◌then◌else◌,
  ltb, ◌==◌, length, take,
}
use tizcord.Words.{to_int64}
use tizcord.Client.{
  request_friend_list, request_user_list, list_all_servers_request, send_logout, join_server,
  request_server_channels, request_server_members, request_channel_history, send_channel_message,
  send_dm_message, request_dm_history,
}
use tizcord.Ui.State.{
  Ui, Message, screen_servers, screen_friends, screen_chat, screen_command, screen_dms,
  screen_users, server_at, channel_at, friend_at, sending, clear_input, open_input, erase_char,
  type_char, text_of, max_msg_len, max_messages,
}
use tizcord.Ui.Login.{
  Key, key_tab, key_enter, key_backspace, key_escape, key_up, key_down, key_f, key_char,
  is_printable,
}
use tizcord.Ui.Messages.{write_friend, own_name}
use tizcord.Ui.Servers.{write_user_server}

-- The command window opens over the screen.
abbrev pub open_command : Ui → Ui
open_command u = record u {
  previous_screen = u.current_screen;
  current_screen = screen_command;
  cmd_input = open_input u.cmd_input;
}

abbrev pub cursor_down : ℕ → ℕ → ℕ
cursor_down cursor count = if ltb (cursor + 1) count then cursor + 1 else cursor

module _ (clock : ℕ → ℕ) where
  -- The server under the cursor is put on the screen, joined, and its lists are requested.
  unfoldable pub enter_server : Ui → Option Ui
  enter_server u = if u.server_count == 0 then some u else elim u.current_user [
    | none ↦ none
    | some _ ↦
        let chosen = record (write_user_server (some u.server_cursor) u) {
          active_server = some u.server_cursor;
          active_channel = 0;
          current_screen = screen_chat;
        } in
        let id = to_int64 (server_at u u.server_cursor).id in
        some (
          sending (request_server_members clock id)
            (sending (request_server_channels clock id) (sending (join_server clock id) chosen)))
  ]

  unfoldable pub handle_server_input : Key → Ui → Option Ui
  handle_server_input (key_f n) u =
      if n == 2
      then some (sending (request_friend_list clock) (record u { current_screen = screen_friends }))
      else if n == 1
      then some (open_command u)
      else if n == 4
      then some (sending (request_friend_list clock) (record u { current_screen = screen_dms }))
      else if n == 3
      then some (sending (request_user_list clock) (record u { current_screen = screen_users }))
      else some u
  handle_server_input key_up u = some (record u { server_cursor = u.server_cursor - 1 })
  handle_server_input key_down u =
      some (record u { server_cursor = cursor_down u.server_cursor u.server_count })
  handle_server_input key_enter u = enter_server u
  handle_server_input key_escape u = some (sending (send_logout clock) u)
  handle_server_input key_tab u = some u
  handle_server_input key_backspace u = some u
  handle_server_input (key_char ch) u = some u

  unfoldable pub handle_friends_input : Key → Ui → Ui
  handle_friends_input (key_f n) u =
      if n == 2
      then sending (list_all_servers_request clock) (record u { current_screen = screen_servers })
      else if n == 1
      then open_command u
      else if n == 3
      then sending (request_user_list clock) (record u { current_screen = screen_users })
      else u
  handle_friends_input key_up u = record u { friend_cursor = u.friend_cursor - 1 }
  handle_friends_input key_down u = record u {
    friend_cursor = cursor_down u.friend_cursor u.friend_count;
  }
  handle_friends_input key_escape u = sending (send_logout clock) u
  handle_friends_input key_enter u = u
  handle_friends_input key_tab u = u
  handle_friends_input key_backspace u = u
  handle_friends_input (key_char ch) u = u

  unfoldable pub handle_users_input : Key → Ui → Ui
  handle_users_input (key_f n) u =
      if n == 2
      then sending (list_all_servers_request clock) (record u { current_screen = screen_servers })
      else if n == 1
      then open_command u
      else u
  handle_users_input key_up u = record u { user_list_cursor = u.user_list_cursor - 1 }
  handle_users_input key_down u = record u {
    user_list_cursor = cursor_down u.user_list_cursor u.all_user_count;
  }
  handle_users_input key_escape u = sending (send_logout clock) u
  handle_users_input key_enter u = u
  handle_users_input key_tab u = u
  handle_users_input key_backspace u = u
  handle_users_input (key_char ch) u = u

  -- The next channel of the server on the screen; its history is requested.
  unfoldable pub next_channel : Ui → Option Ui
  next_channel u = elim u.active_server [
    | none ↦ none
    | some i ↦
        let s = server_at u i in
        if s.channel_count == 0
        then none
        else (let k = (u.active_channel + 1) % s.channel_count in
            some (
              sending (request_channel_history clock (channel_at s k).id)
                (record u { active_channel = k; chat_input = clear_input u.chat_input })))
  ]

  unfoldable pub submit_message : Ui → Option Ui
  submit_message u = if u.chat_input.len == 0 then some u else elim u.active_server [
    | none ↦ none
    | some i ↦
        some
          (record (sending
            (send_channel_message clock (channel_at (server_at u i) u.active_channel).id
              (text_of u.chat_input.bytes))
            u) { chat_input = clear_input u.chat_input })
  ]

  unfoldable pub leave_chat : Ui → Option Ui
  leave_chat u =
      let cleared = record u { chat_input = clear_input u.chat_input } in
      let away = record cleared { active_server = none; current_screen = screen_servers } in
      elim u.active_server [
        | some i ↦
            if ltb i u.server_count
            then some (record cleared { current_screen = screen_servers })
            else elim u.current_user [ none ↦ none | some _ ↦ some (write_user_server none away) ]
        | none ↦ elim u.current_user [ none ↦ none | some _ ↦ some (write_user_server none away) ]
      ]

  unfoldable pub handle_chat_input : Key → Ui → Option Ui
  handle_chat_input key_tab u = next_channel u
  handle_chat_input key_enter u = submit_message u
  handle_chat_input key_backspace u = some (record u { chat_input = erase_char u.chat_input })
  handle_chat_input (key_f n) u =
      if n == 2
      then leave_chat u
      else if n == 1 && u.chat_input.len == 0
      then some (open_command u)
      else some u
  handle_chat_input (key_char ch) u =
      if is_printable ch && ltb u.chat_input.len (max_msg_len - 1)
      then some (record u { chat_input = type_char ch u.chat_input })
      else some u
  handle_chat_input key_escape u = some u
  handle_chat_input key_up u = some u
  handle_chat_input key_down u = some u

  -- The loop over the friends from the one after `i`, for `fuel` rounds at most. The function stops
  -- at an accepted friend.
  unfoldable pub cycle_friends : ℕ → Ui → ℕ → Option ℕ
  cycle_friends zero u i = none
  cycle_friends (suc fuel) u i =
      let next = (i + 1) % u.friend_count in
      let rest = cycle_friends fuel u next in
      if u.friend_count == 0 then none else if (friend_at u next).type == 2 then some next else rest

  unfoldable pub next_friend : ℕ → Ui → Option Ui
  next_friend i u = elim (cycle_friends u.friend_count u i) [
    | none ↦ none
    | some k ↦ some (
        sending (request_dm_history clock (friend_at u k).id)
          (record u { active_dm_friend = some k; dm_input = clear_input u.dm_input }))
  ]

  -- The message is sent, and shown where there is room; users[-1] is read where nobody is logged in.
  unfoldable pub submit_direct : ℕ → Ui → Option Ui
  submit_direct i u =
      if u.dm_input.len == 0
      then some u
      else (let f = friend_at u i in
          let text = text_of u.dm_input.bytes in
          let sent = sending (send_dm_message clock f.id text) u in
          let shown : Message = record {
            sender = own_name u;
            body = take (max_msg_len - 1) text;
            ts = clock (length sent.connection.sent);
          } in
          let cleared = record sent { dm_input = clear_input u.dm_input } in
          if ltb (length f.messages) max_messages
          then elim u.current_user [
            | none ↦ none
            | some _ ↦
                some (write_friend i (record f { messages = f.messages ++ shown ∷ [] }) cleared)
          ]
          else some cleared)

  -- The keys where a friend is chosen.
  unfoldable pub dms_key : ℕ → Key → Ui → Option Ui
  dms_key i key_tab u = next_friend i u
  dms_key i (key_f n) u =
      if n == 2 then some (record u { current_screen = screen_servers }) else some u
  dms_key i key_enter u = submit_direct i u
  dms_key i key_backspace u = some (record u { dm_input = erase_char u.dm_input })
  dms_key i (key_char ch) u =
      if is_printable ch && ltb u.dm_input.len (max_msg_len - 1)
      then some (record u { dm_input = type_char ch u.dm_input })
      else some u
  dms_key i key_escape u = some u
  dms_key i key_up u = some u
  dms_key i key_down u = some u

  abbrev pub is_f2 : Key → Bool
  is_f2 (key_f n) = n == 2
  is_f2 _ = false

  unfoldable pub handle_dms_input : Key → Ui → Option Ui
  handle_dms_input key u = elim u.active_dm_friend [
    | none ↦ if is_f2 key then some (record u { current_screen = screen_servers }) else some u
    | some i ↦ dms_key i key u
  ]
