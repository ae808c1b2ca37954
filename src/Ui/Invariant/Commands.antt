-- ===== src/Ui/Invariant/Commands.antt =====
-- The invariant of the client's screens under the keys of the command window.
use tizcord.Base.{
  ℕ, ◌-◌, ◌≡◌, [], Text, Bool, true, false, not, ◌&&◌, ◌||◌, ltb, ◌==◌, length, drop, arith,
  text_eq, codes,
}
use tizcord.Words.{to_int64}
use tizcord.Protocol.{profile_status_len}
use tizcord.Client.{
  Connection, send_friend_request, accept_friend_request, unfriend, reject_friend_request,
  request_friend_list, create_server, leave_server, kick_server_member, create_channel,
  delete_server, delete_channel, send_status_update,
}
use tizcord.Ui.State.{Ui, Input, server_at, sending, erase_char, type_char, text_of, max_msg_len}
use tizcord.Ui.Login.{
  Key, key_tab, key_enter, key_backspace, key_escape, key_up, key_down, key_f, key_char,
  is_printable,
}
use tizcord.Ui.Servers.{is_command}
use tizcord.Ui.Commands.{
  starts_with, strip_spaces, skip_spaces, name_argument, is_chat, find_server, find_channel,
  find_member, say, listed_server, on_friend, run_kick, run_create_channel, run_delete_server,
  run_delete_channel, run_set_status, run_leave_server, run_command, finish_command,
  handle_command_input,
}
use tizcord.Ui.Invariant.{
  InputOk, IsValid, pick, pick_option, choose_on, clear_input-InputOk, erase_char-InputOk,
  type_char-InputOk,
}

-- A command changes nothing but what the window says and what was sent: a predicate that neither
-- touches holds after it.
module _ (clock : ℕ → ℕ) (P : Ui → Type 0) (say_keeps : (t : Text) (u : Ui) → P u → P (say t u))
    (sending_keeps : (f : Connection → Connection) (u : Ui) → P u → P (sending f u))
    (help_keeps : (u : Ui) → P u → P (record u { show_help = true; command_status_msg = [] })) where
  on_friend-keeps :
      (f : Text → Connection → Connection) (name : Text) (u : Ui)
      → P u
      → P (on_friend clock f name u)
  unfolding on_friend
  on_friend-keeps f name u h =
      pick P (length name == 0) h (
        sending_keeps (request_friend_list clock) (sending (f name) u) (sending_keeps (f name) u h))

  -- A request is sent, and the window says so.
  told : (t : Text) (f : Connection → Connection) (u : Ui) → P u → P (say t (sending f u))
  told t f u h = say_keeps t (sending f u) (sending_keeps f u h)

  run_kick-keeps : (command : Text) (u : Ui) → P u → P (run_kick clock command u)
  unfolding run_kick
  run_kick-keeps command u h = pick P (not (is_chat u.previous_screen)) (say_keeps _ u h) (
      pick_option P (listed_server u) u _ h (λ i at.
        pick P (length (name_argument 6 command) == 0) h (
          pick_option P (find_member (name_argument 6 command) (server_at u i)) _ _
            (say_keeps _ u h)
            (λ id found. told _ (kick_server_member clock (to_int64 (server_at u i).id) id) u h))))

  run_create_channel-keeps :
      (command : Text) (u : Ui) → P u → P (run_create_channel clock command u)
  unfolding run_create_channel
  run_create_channel-keeps command u h =
      pick P (not (is_chat u.previous_screen)) (say_keeps _ u h) (
        pick_option P (listed_server u) u _ h (λ i at.
          pick P (length (name_argument 15 command) == 0) (say_keeps _ u h)
            (told _ (create_channel clock (server_at u i).id (name_argument 15 command)) u h)))

  run_delete_server-keeps : (command : Text) (u : Ui) → P u → P (run_delete_server clock command u)
  unfolding run_delete_server
  run_delete_server-keeps command u h =
      pick_option P (find_server (drop 14 command) u) _ _ (say_keeps _ u h)
        (λ id found. told _ (delete_server clock id) u h)

  run_delete_channel-keeps :
      (command : Text) (u : Ui) → P u → P (run_delete_channel clock command u)
  unfolding run_delete_channel
  run_delete_channel-keeps command u h =
      pick P (not (is_chat u.previous_screen)) (say_keeps _ u h) (
        pick_option P (listed_server u) _ _ (say_keeps _ u h) (λ i at.
          pick_option P (find_channel (drop 15 command) (server_at u i)) _ _ (say_keeps _ u h)
            (λ id found. told _ (delete_channel clock id) u h)))

  run_set_status-keeps : (command : Text) (u : Ui) → P u → P (run_set_status clock command u)
  unfolding run_set_status
  run_set_status-keeps command u h =
      let status = strip_spaces (skip_spaces (drop 10 command)) in
      pick P (length status == 0) (say_keeps _ u h) (
        pick P (ltb profile_status_len (length status)) (say_keeps _ u h)
          (told _ (send_status_update clock status) u h))

  run_leave_server-keeps : (u : Ui) → P u → P (run_leave_server clock u).0
  unfolding run_leave_server
  run_leave_server-keeps u h = pick_option After u.active_server _ _ (say_keeps _ u h) (λ i at.
      pick_option After u.current_user _ _ (say_keeps _ u h)
        (λ k session. sending_keeps (leave_server clock (server_at u i).id) u h))
    where
      After : Ui × Bool → Type 0
      After r = P r.0

  run_command-keeps : (command : Text) (u : Ui) → P u → P (run_command clock command u).0
  unfolding run_command
  run_command-keeps command u h = pick After (text_eq command (codes "/help")) (help_keeps u h) (
      pick After (starts_with (codes "/friend ") command)
        (on_friend-keeps (send_friend_request clock) (name_argument 8 command) u h)
        (pick After (starts_with (codes "/accept ") command)
          (on_friend-keeps (accept_friend_request clock) (name_argument 8 command) u h)
          (pick After (starts_with (codes "/unfriend ") command)
            (on_friend-keeps (unfriend clock) (name_argument 10 command) u h)
            (pick After (starts_with (codes "/reject ") command)
              (on_friend-keeps (reject_friend_request clock) (name_argument 8 command) u h)
              (pick After (starts_with (codes "/createserver ") command)
                (pick P (length (name_argument 14 command) == 0) h
                  (sending_keeps (create_server clock (name_argument 14 command)) u h))
                (pick After (text_eq command (codes "/leaveserver")) (run_leave_server-keeps u h) (
                  pick After (starts_with (codes "/kick ") command) (run_kick-keeps command u h) (
                    pick After (starts_with (codes "/createchannel ") command)
                      (run_create_channel-keeps command u h)
                      (pick After (starts_with (codes "/deleteserver ") command)
                        (run_delete_server-keeps command u h)
                        (pick After (starts_with (codes "/deletechannel ") command)
                          (run_delete_channel-keeps command u h)
                          (pick After
                            (text_eq command (codes "/setstatus")
                              || starts_with (codes "/setstatus ") command)
                            (run_set_status-keeps command u h) (say_keeps _ u h))))))))))))
    where
      After : Ui × Bool → Type 0
      After r = P r.0

abbrev AtCommand : Ui → Type 0
AtCommand u = IsValid u × (is_command u.current_screen ≡ true)

module _ (clock : ℕ → ℕ) where
  finish_command-IsValid : (r : Ui × Bool) → AtCommand r.0 → IsValid (finish_command clock r)
  unfolding finish_command
  finish_command-IsValid (u, false) h = h.0
  finish_command-IsValid (u, true) h = (
    h.0.0,
    h.0.1,
    h.0.2,
    (h.0.3.0, h.0.3.1, clear_input-InputOk u.cmd_input h.0.3.2),
    (h.0.4.0, h.0.4.1, h.0.4.3 h.1, λ again chat. h.0.4.3 h.1 chat),
  )

  cmd_input-IsValid :
      (i : Input) (u : Ui) → InputOk i → IsValid u → IsValid (record u { cmd_input = i })
  cmd_input-IsValid i u ok h = (h.0, h.1, h.2, (h.3.0, h.3.1, ok), h.4)

  pub command_input-IsValid :
      (key : Key) (u : Ui)
      → is_command u.current_screen ≡ true
      → IsValid u
      → IsValid (handle_command_input clock key u)
  unfolding handle_command_input
  command_input-IsValid key_escape u at h =
      (h.0, h.1, h.2, h.3, (h.4.0, h.4.1, h.4.3 at, λ again chat. h.4.3 at chat))
  command_input-IsValid key_enter u at h =
      finish_command-IsValid (run_command clock (text_of u.cmd_input.bytes) u) (
        run_command-keeps clock AtCommand (λ t v k. k) (λ f v k. k) (λ v k. k)
          (text_of u.cmd_input.bytes) u (h, at))
  command_input-IsValid key_backspace u at h =
      cmd_input-IsValid (erase_char u.cmd_input) u (erase_char-InputOk u.cmd_input h.3.2) h
  command_input-IsValid (key_char ch) u at h =
      choose_on (is_printable ch && ltb u.cmd_input.len (max_msg_len - 1)) _ _
        (λ room.
          cmd_input-IsValid (type_char ch u.cmd_input) u
            (type_char-InputOk ch u.cmd_input (ground arith) h.3.2) h)
        (λ full. h)
  command_input-IsValid (key_f n) u at h = h
  command_input-IsValid key_tab u at h = h
  command_input-IsValid key_up u at h = h
  command_input-IsValid key_down u at h = h
