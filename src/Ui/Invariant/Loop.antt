-- ===== src/Ui/Invariant/Loop.antt =====
-- The invariant of the client's screens under the events of `start_ui` of client/ui.c.
use tizcord.Base.{
  ℕ, ◌<◌, find_index, take, length-take, some, ◌≡◌, refl, List, [], ◌∷◌, Bool, true, false, none,
  if◌then◌else◌, ◌==◌, ◌&&◌, ltb, length, arith,
}
use tizcord.Client.{Connection}
use tizcord.Ui.State.{
  Ui, AuthState, Screen, screen_login, screen_signup, screen_servers, screen_friends, screen_chat,
  screen_command, screen_dms, screen_users, initial_ui, no_server_entry, no_friend, ui_max_servers,
  max_friends,
}
use tizcord.Ui.Login.{
  Key, key_tab, key_enter, key_backspace, key_escape, key_up, key_down, key_f, key_char,
  is_printable, submit_auth, auth_key, handle_auth_input, target, maxlen,
}
use tizcord.Ui.Loop.{
  Event, packet_event, disconnect_event, key_event, redraw_event, draw_dms, redraw, handle_key,
  handle_event, start_ui,
}
use tizcord.Ui.Servers.{is_command}
use tizcord.Ui.Invariant.{
  OptAll, OptAll-some, ServerOk, FriendOk, IsValid, on_option, pick, pick_option, All-replicate,
  no_server_entry-ServerOk,
}
use tizcord.Ui.Invariant.Keys.{
  show-IsValid, server_input-IsValid, friends_input-IsValid, users_input-IsValid,
}
use tizcord.Ui.Invariant.Chat.{chat_keys-IsValid, dms_keys-IsValid}
use tizcord.Ui.Invariant.Commands.{command_input-IsValid}
use tizcord.Ui.Invariant.People.{find_index-bounds}
use tizcord.Ui.Bounds.{leaves_arrays, key_leaves_array}
use tizcord.Ui.Network.{process_network_packet}
use tizcord.Ui.People.{is_dms}
use tizcord.Ui.Invariant.Packets.{process_network_packet-IsValid}

pub initial_ui-IsValid : (c : Connection) → IsValid (initial_ui c)
initial_ui-IsValid c = (
  (
    refl,
    All-replicate ServerOk ui_max_servers no_server_entry no_server_entry-ServerOk,
    omega arith,
    omega arith,
    tt,
    omega arith,
  ),
  (refl, All-replicate FriendOk max_friends no_friend (omega arith), omega arith, omega arith, tt),
  (refl, omega arith, omega arith),
  ((refl, omega arith), (refl, omega arith), (refl, omega arith)),
  ((omega arith, tt), (λ a. absurd cc), (λ a. absurd cc), (λ a b. absurd cc)),
)

module _ (clock : ℕ → ℕ) where
  submit_auth-IsValid :
      (is_signup : Bool) (u : Ui) → IsValid u → IsValid (submit_auth clock is_signup u)
  unfolding submit_auth
  submit_auth-IsValid is_signup u h =
      pick IsValid (length u.auth.username == 0) h
        (pick IsValid (length u.auth.password == 0) h (pick IsValid is_signup h h))

  other_screen-IsValid :
      (is_signup : Bool) (a : AuthState) (u : Ui)
      → IsValid u
      → IsValid (record u {
        auth = a;
        current_screen = if is_signup then screen_login else screen_signup;
      })
  other_screen-IsValid true a u h = show-IsValid screen_login (record u { auth = a }) (refl, refl) h
  other_screen-IsValid false a u h =
      show-IsValid screen_signup (record u { auth = a }) (refl, refl) h

  auth_key-IsValid :
      (key : Key) (is_signup : Bool) (u : Ui) → IsValid u → IsValid (auth_key clock key is_signup u)
  unfolding auth_key
  auth_key-IsValid key_tab is_signup u h = h
  auth_key-IsValid key_down is_signup u h = h
  auth_key-IsValid key_up is_signup u h = h
  auth_key-IsValid key_backspace is_signup u h = h
  auth_key-IsValid key_enter is_signup u h = submit_auth-IsValid is_signup u h
  auth_key-IsValid key_escape is_signup u h = h
  auth_key-IsValid (key_f n) is_signup u h =
      pick IsValid (n == 2)
        (other_screen-IsValid is_signup
          (record u.auth { username = []; password = []; on_password = false; error = [] }) u h)
        h
  auth_key-IsValid (key_char ch) is_signup u h =
      pick IsValid (is_printable ch && ltb (length (target u.auth)) (maxlen u.auth)) h h

  auth_input-IsValid :
      (key : Key) (is_signup : Bool) (u : Ui)
      → IsValid u
      → IsValid (handle_auth_input clock key is_signup u)
  unfolding handle_auth_input
  auth_input-IsValid key is_signup u h =
      auth_key-IsValid key is_signup
        (record u { auth = record u.auth { error = []; success = [] } }) h

  handle_key-IsValid :
      (s : Screen) (key : Key) (u : Ui)
      → (is_command s ≡ true → is_command u.current_screen ≡ true)
      → IsValid u
      → OptAll IsValid (handle_key clock s key u)
  unfolding handle_key
  handle_key-IsValid screen_login key u at h = auth_input-IsValid key false u h
  handle_key-IsValid screen_signup key u at h = auth_input-IsValid key true u h
  handle_key-IsValid screen_servers key u at h = server_input-IsValid clock key u h
  handle_key-IsValid screen_friends key u at h = friends_input-IsValid clock key u h
  handle_key-IsValid screen_chat key u at h = chat_keys-IsValid clock key u h
  handle_key-IsValid screen_command key u at h =
      pick (OptAll IsValid) (key_leaves_array key u) tt
        (command_input-IsValid clock key u (at refl) h)
  handle_key-IsValid screen_dms key u at h = dms_keys-IsValid clock key u h
  handle_key-IsValid screen_users key u at h = users_input-IsValid clock key u h

  draw_dms-IsValid : (u : Ui) → IsValid u → IsValid (draw_dms u)
  unfolding draw_dms
  draw_dms-IsValid u h =
      let accepted = find_index (λ f. f.type == 2) (take u.friend_count u.friends) in
      let inside = find_index-bounds (λ f. f.type == 2) (take u.friend_count u.friends) in
      pick_option IsValid u.active_dm_friend _ _
        (on_option accepted u _ h (λ i at.
          let small =
            OptAll-some (λ i. i < length (take u.friend_count u.friends)) accepted i inside at in
          (
            h.0,
            (
              h.1.0,
              h.1.1,
              h.1.2,
              h.1.3,
              omega (arith, small, h.1.0, length-take u.friend_count u.friends),
            ),
            h.2,
            h.3,
            h.4,
          )))
        (λ i chosen. h)

  redraw-IsValid : (u : Ui) → IsValid u → IsValid (redraw u)
  unfolding redraw
  redraw-IsValid u h = pick IsValid (is_dms u.current_screen) (draw_dms-IsValid u h) h

  handle_event-IsValid :
      (event : Event) (u : Ui) → IsValid u → OptAll IsValid (handle_event clock event u)
  unfolding handle_event
  handle_event-IsValid (packet_event packet) u h =
      pick_option (OptAll IsValid) u.connection.client_socket _ _ h
        (λ fd open_socket. received (leaves_arrays packet packet.payload u) refl)
    where
      received :
          (b : Bool)
          → leaves_arrays packet packet.payload u ≡ b
          → OptAll IsValid (if b then none else some (process_network_packet clock packet u))
      received true out = tt
      received false free = process_network_packet-IsValid clock packet u free h
  handle_event-IsValid disconnect_event u h = h
  handle_event-IsValid redraw_event u h = redraw-IsValid u h
  handle_event-IsValid (key_event key) u h = handle_key-IsValid u.current_screen key u (λ at. at) h

  events-IsValid :
      (events : List Event) (u : Ui) → IsValid u → OptAll IsValid (start_ui clock events u)
  unfolding start_ui
  events-IsValid [] u h = h
  events-IsValid (event ∷ events) u h =
      pick_option (OptAll IsValid) (handle_event clock event u) none _ tt (λ v next.
        events-IsValid events v (
          OptAll-some IsValid (handle_event clock event u) v (handle_event-IsValid event u h) next))

-- Whatever packets, keys and redraws of the screen come, in any order, as long as the program goes on,
-- which leaves out the packets and keys by which it leaves an array, the counts, cursors and chosen indices of the lists
-- of servers, channels, friends and all users stay inside their arrays, at most MAX_USERS
-- sessions were started, a channel and a friend hold at most MAX_MESSAGES messages, the texts that are typed in chats and in the command window stay
-- with their final NUL inside the buffers, a channel is on the screen only with a server, and a
-- server is active only with a current user.
pub start_ui-IsValid :
    (clock : ℕ → ℕ) (events : List Event) (c : Connection)
    → OptAll IsValid (start_ui clock events (initial_ui c))
start_ui-IsValid clock events c = events-IsValid clock events (initial_ui c) (initial_ui-IsValid c)
