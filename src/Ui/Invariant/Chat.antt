-- ===== src/Ui/Invariant/Chat.antt =====
-- The invariant of the client's screens under the keys of a channel and of direct messages.
use tizcord.Base.{
  ℕ, zero, suc, ◌+◌, ◌-◌, ◌%◌, ◌<◌, ◌≤◌, ◌≡◌, refl, sym, subst, List, [], ◌∷◌, ◌++◌, Bool, true,
  false, ◌&&◌, Option, none, some, if◌then◌else◌, ltb, ◌==◌, length, arith, Bool-cases, inl, inr,
  length-append,
}
use tizcord.Ui.State.{
  Ui, Message, screen_servers, server_at, friend_at, clear_input, erase_char, type_char,
  max_msg_len, max_messages, ui_max_channels, max_friends,
}
use tizcord.Ui.Login.{
  Key, key_tab, key_enter, key_backspace, key_escape, key_up, key_down, key_f, key_char,
  is_printable,
}
use tizcord.Ui.Servers.{write_user_server}
use tizcord.Ui.Keys.{
  next_channel, submit_message, leave_chat, handle_chat_input, cycle_friends, next_friend,
  submit_direct, dms_key, is_f2, handle_dms_input,
}
use tizcord.Ui.Invariant.{
  OptAll, OptAll-some, IsValid, pick, pick_option, write_friend-IsValid, server_at-ServerOk,
  clear_input-InputOk, erase_char-InputOk, type_char-InputOk,
}
use tizcord.Ui.Invariant.Servers.{write_user_server-IsValid, away-IsValid}
use tizcord.Ui.Invariant.Keys.{
  pick_on, open_command-IsValid, show-IsValid, chat_input-IsValid, dm_input-IsValid,
}

-- What holds after a test that fails, and after one that holds.
pick_off :
    (b : Bool) (x y : Option Ui)
    → OptAll IsValid x
    → (b ≡ false → OptAll IsValid y)
    → OptAll IsValid (if b then x else y)
pick_off true x y h k = h
pick_off false x y h k = k refl

append-bounds :
    (messages : List Message) (m : Message)
    → ltb (length messages) max_messages ≡ true
    → length (messages ++ m ∷ []) ≤ max_messages
append-bounds messages m room = ground (arith, length-append messages (m ∷ []))

mod-bounds : (a n m : ℕ) → (n == 0) ≡ false → n ≤ m → a % n < m
mod-bounds a zero m some_channel h = absurd cc
mod-bounds a (suc n) m some_channel h = omega (arith, h, mod_fact a n)
  where
    mod_fact : (a k : ℕ) → a % suc k < suc k
    mod_fact a k = grind arith

module _ (clock : ℕ → ℕ) where
  show_channel-IsValid :
      (k : ℕ) (u : Ui) → k < ui_max_channels → IsValid u → IsValid (record u { active_channel = k })
  show_channel-IsValid k u small h =
      ((h.0.0, h.0.1, h.0.2, h.0.3, h.0.4, small), h.1, h.2, h.3, h.4)

  next_channel-IsValid : (u : Ui) → IsValid u → OptAll IsValid (next_channel clock u)
  unfolding next_channel
  next_channel-IsValid u h = pick_option (OptAll IsValid) u.active_server none _ tt (λ i at.
      pick_off ((server_at u i).channel_count == 0) none _ tt (λ some_channel.
        show_channel-IsValid ((u.active_channel + 1) % (server_at u i).channel_count)
          (record u { chat_input = clear_input u.chat_input })
          (mod-bounds (u.active_channel + 1) (server_at u i).channel_count ui_max_channels
            some_channel (server_at-ServerOk u i h).2)
          (chat_input-IsValid (clear_input u.chat_input) u (clear_input-InputOk u.chat_input h.3.0)
            h)))

  submit_message-IsValid : (u : Ui) → IsValid u → OptAll IsValid (submit_message clock u)
  unfolding submit_message
  submit_message-IsValid u h = pick (OptAll IsValid) (u.chat_input.len == 0) h (
      pick_option (OptAll IsValid) u.active_server none _ tt (λ i at.
        chat_input-IsValid (clear_input u.chat_input) u (clear_input-InputOk u.chat_input h.3.0) h))

  leave_chat-IsValid : (u : Ui) → IsValid u → OptAll IsValid (leave_chat clock u)
  unfolding leave_chat
  leave_chat-IsValid u h = pick_option (OptAll IsValid) u.active_server _ _ (alone refl) (λ i at.
      pick (OptAll IsValid) (ltb i u.server_count)
        (show-IsValid screen_servers (record u { chat_input = clear_input u.chat_input })
          (refl, refl) cleared)
        (alone refl))
    where
      cleared : IsValid (record u { chat_input = clear_input u.chat_input })
      cleared =
          chat_input-IsValid (clear_input u.chat_input) u (clear_input-InputOk u.chat_input h.3.0) h

      away : Ui
      away = record u {
        chat_input = clear_input u.chat_input;
        active_server = none;
        current_screen = screen_servers;
      }

      alone :
          {o : Option Ui}
          → o ≡ elim u.current_user [ none ↦ none | some _ ↦ some (write_user_server none away) ]
          → OptAll IsValid o
      alone e = subst (OptAll IsValid) (sym e) (
          pick_option (OptAll IsValid) u.current_user none _ tt (λ k at.
            write_user_server-IsValid none away
              (away-IsValid (record u { chat_input = clear_input u.chat_input }) cleared)))

  pub chat_keys-IsValid :
      (key : Key) (u : Ui) → IsValid u → OptAll IsValid (handle_chat_input clock key u)
  unfolding handle_chat_input
  chat_keys-IsValid key_tab u h = next_channel-IsValid u h
  chat_keys-IsValid key_enter u h = submit_message-IsValid u h
  chat_keys-IsValid key_backspace u h =
      chat_input-IsValid (erase_char u.chat_input) u (erase_char-InputOk u.chat_input h.3.0) h
  chat_keys-IsValid (key_f n) u h =
      pick (OptAll IsValid) (n == 2) (leave_chat-IsValid u h)
        (pick (OptAll IsValid) (n == 1 && u.chat_input.len == 0) (open_command-IsValid u h) h)
  chat_keys-IsValid (key_char ch) u h =
      pick_on (is_printable ch && ltb u.chat_input.len (max_msg_len - 1)) _ _
        (λ room.
          chat_input-IsValid (type_char ch u.chat_input) u
            (type_char-InputOk ch u.chat_input (ground arith) h.3.0) h)
        h
  chat_keys-IsValid key_escape u h = h
  chat_keys-IsValid key_up u h = h
  chat_keys-IsValid key_down u h = h

  cycle_friends-bounds :
      (fuel : ℕ) (u : Ui) (i : ℕ)
      → u.friend_count ≤ max_friends
      → OptAll (λ k. k < max_friends) (cycle_friends clock fuel u i)
  unfolding cycle_friends
  cycle_friends-bounds zero u i h = tt
  cycle_friends-bounds (suc fuel) u i h = elim (Bool-cases (u.friend_count == 0)) [
    | inl empty ↦ rw (empty, OptAll) tt
    | inr some_friend ↦
        rw (some_friend, OptAll)
          (pick (OptAll (λ k. k < max_friends)) ((friend_at u ((i + 1) % u.friend_count)).type == 2)
            (mod-bounds (i + 1) u.friend_count max_friends some_friend h)
            (cycle_friends-bounds fuel u ((i + 1) % u.friend_count) h))
  ]

  next_friend-IsValid : (i : ℕ) (u : Ui) → IsValid u → OptAll IsValid (next_friend clock i u)
  unfolding next_friend
  next_friend-IsValid i u h =
      let k = cycle_friends clock u.friend_count u i in
      pick_option (OptAll IsValid) k none _ tt (λ j at.
        let small =
          OptAll-some (λ j. j < max_friends) k j (cycle_friends-bounds u.friend_count u i h.1.2)
            at in
        (
          h.0,
          (h.1.0, h.1.1, h.1.2, h.1.3, small),
          h.2,
          (h.3.0, clear_input-InputOk u.dm_input h.3.1, h.3.2),
          h.4,
        ))

  submit_direct-IsValid : (i : ℕ) (u : Ui) → IsValid u → OptAll IsValid (submit_direct clock i u)
  unfolding submit_direct
  submit_direct-IsValid i u h =
      let cleared =
        dm_input-IsValid (clear_input u.dm_input) u (clear_input-InputOk u.dm_input h.3.1) h in
      pick (OptAll IsValid) (u.dm_input.len == 0) h (
        pick_on (ltb (length (friend_at u i).messages) max_messages) _ _
          (λ room. pick_option (OptAll IsValid) u.current_user none _ tt (λ k at.
            write_friend-IsValid i _ (record u { dm_input = clear_input u.dm_input })
              (append-bounds (friend_at u i).messages _ room) cleared))
          cleared)

  dms_key-IsValid :
      (i : ℕ) (key : Key) (u : Ui) → IsValid u → OptAll IsValid (dms_key clock i key u)
  unfolding dms_key
  dms_key-IsValid i key_tab u h = next_friend-IsValid i u h
  dms_key-IsValid i (key_f n) u h =
      pick (OptAll IsValid) (n == 2) (show-IsValid screen_servers u (refl, refl) h) h
  dms_key-IsValid i key_enter u h = submit_direct-IsValid i u h
  dms_key-IsValid i key_backspace u h =
      dm_input-IsValid (erase_char u.dm_input) u (erase_char-InputOk u.dm_input h.3.1) h
  dms_key-IsValid i (key_char ch) u h =
      pick_on (is_printable ch && ltb u.dm_input.len (max_msg_len - 1)) _ _
        (λ room.
          dm_input-IsValid (type_char ch u.dm_input) u
            (type_char-InputOk ch u.dm_input (ground arith) h.3.1) h)
        h
  dms_key-IsValid i key_escape u h = h
  dms_key-IsValid i key_up u h = h
  dms_key-IsValid i key_down u h = h

  pub dms_keys-IsValid :
      (key : Key) (u : Ui) → IsValid u → OptAll IsValid (handle_dms_input clock key u)
  unfolding handle_dms_input
  dms_keys-IsValid key u h =
      pick_option (OptAll IsValid) u.active_dm_friend _ _
        (pick (OptAll IsValid) (is_f2 clock key) (show-IsValid screen_servers u (refl, refl) h) h)
        (λ i at. dms_key-IsValid i key u h)
