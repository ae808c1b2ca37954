-- ===== src/Ui/Invariant/Keys.antt =====
-- The invariant of the client's screens under the keys of the screens of servers, friends and
-- users.
use tizcord.Base.{
  ℕ, ◌<◌, ◌≤◌, ◌≡◌, refl, ap, ◌∙◌, Bool, true, false, Option, none, some, if◌then◌else◌, ◌==◌,
  arith,
}
use tizcord.Ui.State.{
  Ui, Input, Screen, screen_servers, screen_friends, screen_chat, screen_dms, screen_users,
  ui_max_servers, max_friends, max_all_users,
}
use tizcord.Ui.Login.{
  Key, key_tab, key_enter, key_backspace, key_escape, key_up, key_down, key_f, key_char,
}
use tizcord.Ui.Servers.{is_command, write_user_server}
use tizcord.Ui.Commands.{is_chat}
use tizcord.Ui.Keys.{
  open_command, cursor_down, enter_server, handle_server_input, handle_friends_input,
  handle_users_input,
}
use tizcord.Ui.Invariant.{OptAll, has, InputOk, IsValid, pick, pick_option, open_input-InputOk}
use tizcord.Ui.Invariant.Servers.{write_user_server-IsValid}

-- What holds of every result that there is, after a test whose outcome is known.
pub pick_on :
    (b : Bool) (x y : Option Ui)
    → (b ≡ true → OptAll IsValid x)
    → OptAll IsValid y
    → OptAll IsValid (if b then x else y)
pick_on true x y h k = h refl
pick_on false x y h k = k

pub open_command-IsValid : (u : Ui) → IsValid u → IsValid (open_command u)
open_command-IsValid u h = (
  h.0,
  h.1,
  h.2,
  (h.3.0, h.3.1, open_input-InputOk u.cmd_input h.3.2),
  (h.4.0, h.4.1, (λ a. absurd cc), λ a chat. h.4.2 chat),
)

-- A screen that shows no server asks nothing of the session.
abbrev pub AsksNothing : Screen → Type 0
AsksNothing s = (is_chat s ≡ false) × (is_command s ≡ false)

pub show-IsValid :
    (s : Screen) (u : Ui) → AsksNothing s → IsValid u → IsValid (record u { current_screen = s })
show-IsValid s u plain h =
    (h.0, h.1, h.2, h.3, (h.4.0, h.4.1, (λ a. absurd cc), (λ a b. absurd cc)))

cursor_down-bounds : (i n m : ℕ) → i < m → n ≤ m → cursor_down i n < m
cursor_down-bounds i n m h k = ground (arith, h, k)

pub chat_input-IsValid :
    (i : Input) (u : Ui) → InputOk i → IsValid u → IsValid (record u { chat_input = i })
chat_input-IsValid i u ok h = (h.0, h.1, h.2, (ok, h.3.1, h.3.2), h.4)

pub dm_input-IsValid :
    (i : Input) (u : Ui) → InputOk i → IsValid u → IsValid (record u { dm_input = i })
dm_input-IsValid i u ok h = (h.0, h.1, h.2, (h.3.0, ok, h.3.2), h.4)

module _ (clock : ℕ → ℕ) where
  write_user_server-current :
      (v : Option ℕ) (u : Ui) → (write_user_server v u).current_user ≡ u.current_user
  write_user_server-current v u =
      pick_option (λ (w : Ui). w.current_user ≡ u.current_user) u.current_user u _ refl
        (λ k _. refl)

  -- A server is put on the screen in a session.
  enter_chat-IsValid :
      (i : ℕ) (u : Ui)
      → i < ui_max_servers
      → has u.current_user ≡ true
      → IsValid u
      → IsValid
          (record u { active_server = some i; active_channel = 0; current_screen = screen_chat })
  enter_chat-IsValid i u small session h = (
    (h.0.0, h.0.1, h.0.2, h.0.3, small, omega arith),
    h.1,
    h.2,
    h.3,
    (h.4.0, (λ a. session), (λ a. refl), (λ a b. absurd cc)),
  )

  enter_server-IsValid : (u : Ui) → IsValid u → OptAll IsValid (enter_server clock u)
  unfolding enter_server
  enter_server-IsValid u h = pick (OptAll IsValid) (u.server_count == 0) h (
      pick_option (OptAll IsValid) u.current_user none _ tt (λ k at.
        enter_chat-IsValid u.server_cursor (write_user_server (some u.server_cursor) u) h.0.3
          (ap has (write_user_server-current (some u.server_cursor) u ∙ at))
          (write_user_server-IsValid (some u.server_cursor) u h)))

  pub server_input-IsValid :
      (key : Key) (u : Ui) → IsValid u → OptAll IsValid (handle_server_input clock key u)
  unfolding handle_server_input
  server_input-IsValid (key_f n) u h =
      pick (OptAll IsValid) (n == 2) (show-IsValid screen_friends u (refl, refl) h) (
        pick (OptAll IsValid) (n == 1) (open_command-IsValid u h) (
          pick (OptAll IsValid) (n == 4) (show-IsValid screen_dms u (refl, refl) h)
            (pick (OptAll IsValid) (n == 3) (show-IsValid screen_users u (refl, refl) h) h)))
  server_input-IsValid key_up u h =
      ((h.0.0, h.0.1, h.0.2, omega (arith, h.0.3), h.0.4, h.0.5), h.1, h.2, h.3, h.4)
  server_input-IsValid key_down u h = (
    (
      h.0.0,
      h.0.1,
      h.0.2,
      cursor_down-bounds u.server_cursor u.server_count ui_max_servers h.0.3 h.0.2,
      h.0.4,
      h.0.5,
    ),
    h.1,
    h.2,
    h.3,
    h.4,
  )
  server_input-IsValid key_enter u h = enter_server-IsValid u h
  server_input-IsValid key_escape u h = h
  server_input-IsValid key_tab u h = h
  server_input-IsValid key_backspace u h = h
  server_input-IsValid (key_char ch) u h = h

  pub friends_input-IsValid :
      (key : Key) (u : Ui) → IsValid u → IsValid (handle_friends_input clock key u)
  unfolding handle_friends_input
  friends_input-IsValid (key_f n) u h =
      pick IsValid (n == 2) (show-IsValid screen_servers u (refl, refl) h) (
        pick IsValid (n == 1) (open_command-IsValid u h)
          (pick IsValid (n == 3) (show-IsValid screen_users u (refl, refl) h) h))
  friends_input-IsValid key_up u h =
      (h.0, (h.1.0, h.1.1, h.1.2, omega (arith, h.1.3), h.1.4), h.2, h.3, h.4)
  friends_input-IsValid key_down u h = (
    h.0,
    (
      h.1.0,
      h.1.1,
      h.1.2,
      cursor_down-bounds u.friend_cursor u.friend_count max_friends h.1.3 h.1.2,
      h.1.4,
    ),
    h.2,
    h.3,
    h.4,
  )
  friends_input-IsValid key_escape u h = h
  friends_input-IsValid key_enter u h = h
  friends_input-IsValid key_tab u h = h
  friends_input-IsValid key_backspace u h = h
  friends_input-IsValid (key_char ch) u h = h

  pub users_input-IsValid :
      (key : Key) (u : Ui) → IsValid u → IsValid (handle_users_input clock key u)
  unfolding handle_users_input
  users_input-IsValid (key_f n) u h =
      pick IsValid (n == 2) (show-IsValid screen_servers u (refl, refl) h)
        (pick IsValid (n == 1) (open_command-IsValid u h) h)
  users_input-IsValid key_up u h = (h.0, h.1, (h.2.0, h.2.1, omega (arith, h.2.2)), h.3, h.4)
  users_input-IsValid key_down u h = (
    h.0,
    h.1,
    (
      h.2.0,
      h.2.1,
      cursor_down-bounds u.user_list_cursor u.all_user_count max_all_users h.2.2 h.2.1,
    ),
    h.3,
    h.4,
  )
  users_input-IsValid key_escape u h = h
  users_input-IsValid key_enter u h = h
  users_input-IsValid key_tab u h = h
  users_input-IsValid key_backspace u h = h
  users_input-IsValid (key_char ch) u h = h
