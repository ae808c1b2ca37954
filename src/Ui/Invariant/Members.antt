-- ===== src/Ui/Invariant/Members.antt =====
-- When the search of the command /kick in client/ui.c stays inside the array of members.
use tizcord.Base.{
  ℕ, ◌^◌, ◌≤◌, ◌≡◌, refl, Bool, true, false, not, ◌&&◌, Option, none, some, ltb, ◌==◌, length, Text,
  take, find_index, text_eq, codes, if◌then◌else◌, arith,
}
use tizcord.Ui.State.{Ui, server_at, text_of, max_users}
use tizcord.Ui.Login.{
  Key, key_tab, key_enter, key_backspace, key_escape, key_up, key_down, key_f, key_char,
}
use tizcord.Ui.Commands.{is_chat, starts_with, name_argument}
use tizcord.Ui.Bounds.{key_leaves_array, kick_leaves_array, on_screen, past_members}

module _ (u : Ui) where
  -- With a count of at most MAX_USERS the search for a member stays inside the array.
  on_screen_few :
      (name : Text)
      → ((i : ℕ) → u.active_server ≡ some i → (server_at u i).member_count ≤ max_users)
      → on_screen (past_members name) u ≡ false
  on_screen_few name few = active u.active_server few
    where
      inside :
          (i : ℕ)
          → (server_at u i).member_count ≤ max_users
          → past_members name (server_at u i) ≡ false
      inside i small =
          found (find_index (λ m. text_eq m.name name) (take max_users (server_at u i).members))
        where
          found :
              (o : Option ℕ)
              → (elim o as (λ _. Bool) [
                | none ↦
                    ltb max_users (server_at u i).member_count
                    && ltb (server_at u i).member_count (2 ^ 31)
                | some j ↦ false
              ])
                ≡ false
          found none = ground arith
          found (some j) = refl

      listed :
          (b : Bool) (i : ℕ)
          → past_members name (server_at u i) ≡ false
          → (elim (if b then some i else none) as (λ _. Bool) [
            | none ↦ false
            | some i ↦ past_members name (server_at u i)
          ])
            ≡ false
      listed true i h = h
      listed false i h = refl

      active :
          (o : Option ℕ)
          → ((i : ℕ) → o ≡ some i → (server_at u i).member_count ≤ max_users)
          → (elim (elim o as (λ _. Option ℕ) [
            | none ↦ none
            | some i ↦ if ltb i u.server_count then some i else none
          ])
              as (λ _. Bool) [ none ↦ false | some i ↦ past_members name (server_at u i) ])
            ≡ false
      active none few = refl
      active (some i) few = listed (ltb i u.server_count) i (inside i (few i refl))

  and_false : (a : Bool) (b : Bool) → b ≡ false → (a && b) ≡ false
  and_false true b h = h
  and_false false b h = refl

  pub key_leaves_array-few :
      (key : Key)
      → ((i : ℕ) → u.active_server ≡ some i → (server_at u i).member_count ≤ max_users)
      → key_leaves_array key u ≡ false
  unfolding key_leaves_array kick_leaves_array
  key_leaves_array-few key_enter few =
      let command = text_of u.cmd_input.bytes in
      let name = name_argument 6 command in
      and_false
        (starts_with (codes "/kick ") command
          && is_chat u.previous_screen
          && not (length name == 0))
        _ (on_screen_few name few)
  key_leaves_array-few key_tab few = refl
  key_leaves_array-few key_backspace few = refl
  key_leaves_array-few key_escape few = refl
  key_leaves_array-few key_up few = refl
  key_leaves_array-few key_down few = refl
  key_leaves_array-few (key_f n) few = refl
  key_leaves_array-few (key_char ch) few = refl
