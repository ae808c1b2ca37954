-- ===== src/Ui/Invariant/Progress.antt =====
-- When the keys' handlers of client/ui.c go on.
use tizcord.Base.{
  ℕ, ◌-◌, ◌<◌, ◌≤◌, ◌≡◌, refl, true, false, ◌&&◌, Option, none, some, ltb, ◌==◌, length,
}
use tizcord.Ui.State.{
  Ui, Screen, screen_login, screen_signup, screen_servers, screen_friends, screen_chat,
  screen_command, screen_dms, screen_users, server_at, max_users, friend_at, max_messages,
  max_msg_len,
}
use tizcord.Ui.Login.{
  Key, key_tab, key_enter, key_backspace, key_escape, key_up, key_down, key_f, key_char,
  is_printable,
}
use tizcord.Ui.Commands.{is_chat}
use tizcord.Ui.Keys.{
  enter_server, handle_server_input, next_channel, submit_message, leave_chat, handle_chat_input,
  cycle_friends, next_friend, submit_direct, dms_key, is_f2, handle_dms_input,
}
use tizcord.Ui.Keys.Cycle.{cycle_friends-finds}
use tizcord.Ui.Invariant.Members.{key_leaves_array-few}
use tizcord.Ui.Loop.{key_event, handle_key, handle_event}
use tizcord.Ui.Invariant.{has, IsValid, pick}

-- There is a next state.
abbrev pub GoesOn : Option Ui → Type 0
GoesOn o = (v : Ui) × (o ≡ some v)

goes : (v : Ui) → GoesOn (some v)
goes v = (v, refl)

when_some :
    {A : Type 0} (o : Option A) (x : Option Ui) (f : A → Option Ui)
    → ((a : A) → o ≡ some a → GoesOn (f a))
    → (o ≡ none → GoesOn x)
    → GoesOn (elim o [ none ↦ x | some a ↦ f a ])
when_some none x f h k = k refl
when_some (some a) x f h k = h a refl

some_user : (o : Option ℕ) → has o ≡ true → o ≡ none → ⊥
some_user none h e = absurd cc
some_user (some k) h e = absurd cc

module _ (clock : ℕ → ℕ) (u : Ui) where
  server_keys-GoesOn :
      (key : Key) → has u.current_user ≡ true → GoesOn (handle_server_input clock key u)
  unfolding handle_server_input enter_server
  server_keys-GoesOn (key_f n) session = pick GoesOn (n == 2) (goes _) (
      pick GoesOn (n == 1) (goes _)
        (pick GoesOn (n == 4) (goes _) (pick GoesOn (n == 3) (goes _) (goes u))))
  server_keys-GoesOn key_enter session = pick GoesOn (u.server_count == 0) (goes u) (
      when_some u.current_user none _ (λ k at. goes _)
        (λ e. absurd (some_user u.current_user session e)))
  server_keys-GoesOn key_up session = goes _
  server_keys-GoesOn key_down session = goes _
  server_keys-GoesOn key_escape session = goes _
  server_keys-GoesOn key_tab session = goes u
  server_keys-GoesOn key_backspace session = goes u
  server_keys-GoesOn (key_char ch) session = goes u

  chat_keys-GoesOn :
      (key : Key)
      → has u.active_server ≡ true
      → has u.current_user ≡ true
      → ((i : ℕ) → u.active_server ≡ some i → ((server_at u i).channel_count == 0) ≡ false)
      → GoesOn (handle_chat_input clock key u)
  unfolding handle_chat_input next_channel submit_message leave_chat
  chat_keys-GoesOn key_tab shown session channels =
      when_some u.active_server none _
        (λ i at. let some_channel = channels i at in rw some_channel (goes _))
        (λ e. absurd (some_user u.active_server shown e))
  chat_keys-GoesOn key_enter shown session channels = pick GoesOn (u.chat_input.len == 0) (goes u) (
      when_some u.active_server none _ (λ i at. goes _)
        (λ e. absurd (some_user u.active_server shown e)))
  chat_keys-GoesOn (key_f n) shown session channels =
      pick GoesOn (n == 2)
        (when_some u.active_server _ _
          (λ i at. pick GoesOn (ltb i u.server_count) (goes _) (
            when_some u.current_user none _ (λ k at. goes _)
              (λ e. absurd (some_user u.current_user session e))))
          (λ e. absurd (some_user u.active_server shown e)))
        (pick GoesOn (n == 1 && u.chat_input.len == 0) (goes _) (goes u))
  chat_keys-GoesOn key_backspace shown session channels = goes _
  chat_keys-GoesOn (key_char ch) shown session channels =
      pick GoesOn (is_printable ch && ltb u.chat_input.len (max_msg_len - 1)) (goes _) (goes u)
  chat_keys-GoesOn key_escape shown session channels = goes u
  chat_keys-GoesOn key_up shown session channels = goes u
  chat_keys-GoesOn key_down shown session channels = goes u

  dms_keys-GoesOn :
      (key : Key) (k : ℕ)
      → has u.current_user ≡ true
      → k < u.friend_count
      → ((friend_at u k).type == 2) ≡ true
      → GoesOn (handle_dms_input clock key u)
  unfolding handle_dms_input dms_key next_friend submit_direct
  dms_keys-GoesOn key k session listed accepted =
      when_some u.active_dm_friend _ _ (λ i at. chosen i key)
        (λ e. pick GoesOn (is_f2 clock key) (goes _) (goes u))
    where
      stops : {o : Option ℕ} {j : ℕ} → o ≡ none → o ≡ some j → ⊥
      stops e f = cc

      chosen : (i : ℕ) (key : Key) → GoesOn (dms_key clock i key u)
      chosen i key_tab =
          let found = cycle_friends-finds clock u i k listed accepted in
          when_some (cycle_friends clock u.friend_count u i) none _ (λ j at. goes _)
            (λ e. absurd (stops e found.1))
      chosen i (key_f n) = pick GoesOn (n == 2) (goes _) (goes u)
      chosen i key_enter = pick GoesOn (u.dm_input.len == 0) (goes u) (
          pick GoesOn (ltb (length (friend_at u i).messages) max_messages)
            (when_some u.current_user none _ (λ j at. goes _)
              (λ e. absurd (some_user u.current_user session e)))
            (goes _))
      chosen i key_backspace = goes _
      chosen i (key_char ch) =
          pick GoesOn (is_printable ch && ltb u.dm_input.len (max_msg_len - 1)) (goes _) (goes u)
      chosen i key_escape = goes u
      chosen i key_up = goes u
      chosen i key_down = goes u

  handle_key-GoesOn :
      (s : Screen) (key : Key)
      → (is_chat s ≡ true → has u.active_server ≡ true)
      → (has u.active_server ≡ true → has u.current_user ≡ true)
      → (s ≡ screen_servers → has u.current_user ≡ true)
      → (s ≡ screen_chat
          → (i : ℕ) → u.active_server ≡ some i
          → ((server_at u i).channel_count == 0) ≡ false)
      → (s ≡ screen_dms
          → (k : ℕ) × (has u.current_user ≡ true)
            × (k < u.friend_count)
            × (((friend_at u k).type == 2) ≡ true))
      → (s ≡ screen_command
          → (i : ℕ) → u.active_server ≡ some i
          → (server_at u i).member_count ≤ max_users)
      → GoesOn (handle_key clock s key u)
  unfolding handle_key
  handle_key-GoesOn screen_login key shown session inside channels friends few = goes _
  handle_key-GoesOn screen_signup key shown session inside channels friends few = goes _
  handle_key-GoesOn screen_servers key shown session inside channels friends few =
      server_keys-GoesOn key (inside refl)
  handle_key-GoesOn screen_friends key shown session inside channels friends few = goes _
  handle_key-GoesOn screen_chat key shown session inside channels friends few =
      chat_keys-GoesOn key (shown refl) (session (shown refl)) (channels refl)
  handle_key-GoesOn screen_command key shown session inside channels friends few =
      rw (key_leaves_array-few u key (few refl)) (goes _)
  handle_key-GoesOn screen_dms key shown session inside channels friends few =
      let (k, user, listed, accepted) = friends refl in dms_keys-GoesOn key k user listed accepted
  handle_key-GoesOn screen_users key shown session inside channels friends few = goes _

  -- In a state that keeps the invariant every key on every screen has a next state, when on the screen of
  -- servers a user is logged in, on the chat screen the server has a channel, on the screen of direct
  -- messages a user is logged in and a friend is accepted, and in the command window the server, if
  -- there is one, counts at most MAX_USERS members.
  pub handle_event-GoesOn :
      (key : Key)
      → IsValid u
      → (u.current_screen ≡ screen_servers → has u.current_user ≡ true)
      → (u.current_screen ≡ screen_chat
          → (i : ℕ) → u.active_server ≡ some i
          → ((server_at u i).channel_count == 0) ≡ false)
      → (u.current_screen ≡ screen_dms
          → (k : ℕ) × (has u.current_user ≡ true)
            × (k < u.friend_count)
            × (((friend_at u k).type == 2) ≡ true))
      → (u.current_screen ≡ screen_command
          → (i : ℕ) → u.active_server ≡ some i
          → (server_at u i).member_count ≤ max_users)
      → (v : Ui) × (handle_event clock (key_event key) u ≡ some v)
  unfolding handle_event
  handle_event-GoesOn key valid inside channels friends few =
      handle_key-GoesOn u.current_screen key valid.4.2 valid.4.1 inside channels friends few
