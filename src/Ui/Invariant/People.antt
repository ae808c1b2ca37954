-- ===== src/Ui/Invariant/People.antt =====
-- The invariant of the client's screens under the lists of friends and users.
use tizcord.Base.{
  ℕ, zero, suc, ◌+◌, ◌-◌, ◌≤◌, ◌<◌, ◌≡◌, refl, ◌∙◌, List, [], ◌∷◌, Bool, true, false, ◌&&◌, ◌||◌,
  Option, none, some, if◌then◌else◌, length, arith, set, get_or, length-set, ltb, ◌==◌, take,
  find_index, length-take,
}
use tizcord.Protocol.{
  profile_status_len, status_online, Packet, SocialPayload, resp_ok, social_list_friends,
  social_list_users, social_update_status, list_frame_start, list_frame_middle, list_frame_end,
  list_frame_single,
}
use tizcord.Client.{request_user_list}
use tizcord.Ui.State.{Ui, UiUser, friend_at, user_at, sending, max_friends, max_all_users}
use tizcord.Ui.People.{
  friend_entry_of, user_entry_of, first_accepted, is_dms, sort_users, receive_user, write_status,
  is_own, choose_friend, receive_friend, receive_status, receive_social,
}
use tizcord.Ui.Invariant.{
  OptAll, OptAll-some, IsValid, choose, choose_on, on_option, write_friend-IsValid,
  friend_at-FriendOk,
}
use tizcord.Ui.People.{exchange, exchange_from, sort_from, comes_before}
use tizcord.Ui.State.{no_user_entry}
use tizcord.Ui.Invariant.{pick}
use tizcord.Ui.Invariant.Servers.{close_command-IsValid}

length-exchange : (i j : ℕ) (users : List UiUser) → length (exchange i j users) ≡ length users
unfolding exchange
length-exchange i j users =
    let x = get_or users i no_user_entry in
    let y = get_or users j no_user_entry in
    pick {A = List UiUser} (λ us. length us ≡ length users) (comes_before y x)
      (length-set (set users i y) j x ∙ length-set users i y) refl

length-exchange_from :
    (n i j : ℕ) (users : List UiUser) → length (exchange_from n i j users) ≡ length users
unfolding exchange_from
length-exchange_from zero i j users = refl
length-exchange_from (suc n) i j users =
    length-exchange_from n i (suc j) (exchange i j users) ∙ length-exchange i j users

length-sort_from :
    (n count i : ℕ) (users : List UiUser) → length (sort_from n count i users) ≡ length users
unfolding sort_from
length-sort_from zero count i users = refl
length-sort_from (suc n) count i users =
    length-sort_from n count (suc i) (exchange_from (count - (i + 1)) i (i + 1) users)
    ∙ length-exchange_from (count - (i + 1)) i (i + 1) users

pub length-sort_users :
    (count : ℕ) (users : List UiUser) → length (sort_users count users) ≡ length users
unfolding sort_users
length-sort_users count users = length-sort_from (count - 1) count 0 users

pub find_index-bounds :
    {A : Type 0} (p : A → Bool) (xs : List A) → OptAll (λ i. i < length xs) (find_index p xs)
find_index-bounds p [] = tt
find_index-bounds p (x ∷ xs) = step (p x) (find_index p xs) (find_index-bounds p xs)
  where
    step :
        (here : Bool) (o : Option ℕ)
        → OptAll (λ i. i < length xs) o
        → OptAll
            (λ i. i < length (x ∷ xs))
            (elim here [ true ↦ some 0 | false ↦ elim o [ none ↦ none | some i ↦ some (suc i) ] ])
    step true o h = omega arith
    step false none h = tt
    step false (some i) h = omega (arith, h)

write_all_users-IsValid :
    (users : List UiUser) (count cursor : ℕ) (u : Ui)
    → length users ≡ length u.all_users
    → count ≤ max_all_users
    → cursor < max_all_users
    → IsValid u
    → IsValid (record u { all_users = users; all_user_count = count; user_list_cursor = cursor })
write_all_users-IsValid users count cursor u same c k h = (h.0, h.1, (same ∙ h.2.0, c, k), h.3, h.4)

receive_user-IsValid :
    (packet : Packet) (p : SocialPayload) (u : Ui) → IsValid u → IsValid (receive_user packet p u)
unfolding receive_user
receive_user-IsValid packet p u h =
    choose (packet.list_frame == list_frame_start) _ _
      (write_all_users-IsValid u.all_users 0 0 u refl (omega arith) (omega arith) h)
      (choose_on (packet.list_frame == list_frame_middle && ltb u.all_user_count max_all_users) _ _
        (λ room.
          write_all_users-IsValid (set u.all_users u.all_user_count (user_entry_of p))
            (u.all_user_count + 1) u.user_list_cursor u
            (length-set u.all_users u.all_user_count (user_entry_of p)) (ground arith) h.2.2 h)
        (λ _.
          choose (packet.list_frame == list_frame_end) _ _
            (write_all_users-IsValid (sort_users u.all_user_count u.all_users) u.all_user_count
              u.user_list_cursor u (length-sort_users u.all_user_count u.all_users) h.2.1 h.2.2 h)
            h))

write_status-IsValid : (p : SocialPayload) (u : Ui) → IsValid u → IsValid (write_status p u)
unfolding write_status
write_status-IsValid p u h =
    on_option (find_index (λ a. a.id == p.target_user_id) (take u.all_user_count u.all_users)) u _ h
      (λ i _.
        let a : UiUser = record (user_at u i) {
          status = take profile_status_len p.target_status;
          is_online = if p.status == status_online then 1 else 0;
        } in
        write_all_users-IsValid (set u.all_users i a) u.all_user_count u.user_list_cursor u
          (length-set u.all_users i a) h.2.1 h.2.2 h)

module _ (clock : ℕ → ℕ) where
  choose_friend-IsValid : (u : Ui) → IsValid u → IsValid (choose_friend clock u)
  unfolding choose_friend
  choose_friend-IsValid u h =
      let accepted = first_accepted (take u.friend_count u.friends) in
      let inside = find_index-bounds (λ f. f.type == 2) (take u.friend_count u.friends) in
      choose (is_dms u.current_screen && ltb 0 u.friend_count) _ _
        (on_option accepted u _ h (λ i at.
          let small =
            OptAll-some (λ i. i < length (take u.friend_count u.friends)) accepted i inside at in
          (
            h.0,
            (
              h.1.0,
              h.1.1,
              h.1.2,
              h.1.3,
              omega (arith, small, h.1.0, length-take u.friend_count u.friends),
            ),
            h.2,
            h.3,
            h.4,
          )))
        h

  receive_friend-IsValid :
      (packet : Packet) (p : SocialPayload) (u : Ui)
      → IsValid u
      → IsValid (receive_friend clock packet p u)
  unfolding receive_friend
  receive_friend-IsValid packet p u h =
      choose (packet.list_frame == list_frame_start) _ _
        (h.0, (h.1.0, h.1.1, omega arith, omega arith, h.1.4), h.2, h.3, h.4)
        (choose_on
          ((packet.list_frame == list_frame_middle || packet.list_frame == list_frame_single)
            && ltb u.friend_count max_friends)
          _ _
          (λ room.
            let f = friend_entry_of p (friend_at u u.friend_count) in
            let w =
              write_friend-IsValid u.friend_count f u (friend_at-FriendOk u u.friend_count h) h in
            (w.0, (w.1.0, w.1.1, ground arith, w.1.3, w.1.4), w.2, w.3, w.4))
          (λ _.
            choose (packet.list_frame == list_frame_end || packet.list_frame == list_frame_single) _
              _ (choose_friend-IsValid u h) h))

  receive_status-IsValid :
      (p : SocialPayload) (u : Ui) → IsValid u → IsValid (receive_status clock p u)
  unfolding receive_status
  receive_status-IsValid p u h =
      let written = write_status-IsValid p u h in
      choose (p.status_code == resp_ok) _ _
        (choose (is_own p u) _ _
          (close_command-IsValid (sending (request_user_list clock) (write_status p u)) written)
          written)
        h

  pub social-IsValid :
      (packet : Packet) (p : SocialPayload) (u : Ui)
      → IsValid u
      → IsValid (receive_social clock packet p u)
  unfolding receive_social
  social-IsValid packet p u h =
      choose (p.action == social_list_friends) _ _ (receive_friend-IsValid packet p u h) (
        choose (p.action == social_list_users) _ _ (receive_user-IsValid packet p u h)
          (choose (p.action == social_update_status) _ _ (receive_status-IsValid p u h) h))
