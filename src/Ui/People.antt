-- ===== src/Ui/People.antt =====
-- The lists of friends and of users, and the answers to changes of the status: the case PACKET_SOCIAL
-- of `process_network_packet` in client/ui.c.
pub mod Order
pub mod Alphabet
pub mod Sort
use tizcord.Base.{
  ℕ, zero, suc, ◌+◌, ◌-◌, ◌%◌, ◌^◌, ◌<◌, List, [], ◌∷◌, ◌++◌, Text, Bool, true, false, not, ◌&&◌,
  ◌||◌, Option, none, some, if◌then◌else◌, leb, ltb, ◌==◌, length, take, set, get_or, find_index,
  text_eq, codes,
}
use tizcord.Protocol.{
  Packet, SocialPayload, social_list_friends, social_list_users, social_update_status,
  list_frame_single, list_frame_start, list_frame_middle, list_frame_end, status_online, resp_ok,
  max_name_len, profile_status_len,
}
use tizcord.Client.{request_dm_history, request_user_list}
use tizcord.Ui.State.{
  Ui, UiFriend, UiUser, User, Screen, screen_dms, friend_at, user_at, no_user_entry, sending,
  max_friends, max_all_users,
}
use tizcord.Ui.Messages.{write_friend}
use tizcord.Ui.Servers.{close_command, is_command}

-- tolower of a byte in the C locale.
abbrev pub fold_case : ℕ → ℕ
fold_case c = if leb 65 c && leb c 90 then c + 32 else c

-- strcasecmp(a, b) < 0
unfoldable pub case_less : Text → Text → Bool
case_less [] [] = false
case_less [] (b ∷ t) = true
case_less (a ∷ s) [] = false
case_less (a ∷ s) (b ∷ t) =
    let rest = case_less s t in
    if ltb (fold_case a) (fold_case b)
    then true
    else if fold_case a == fold_case b
    then rest
    else false

-- a < b, of ints as bit patterns
abbrev pub int_key : ℕ → ℕ
int_key a = (a + 2 ^ 31) % 2 ^ 32

-- The condition under which the entry `y`, which stands behind `x`, changes places with it.
unfoldable pub comes_before : UiUser → UiUser → Bool
comes_before y x =
    if ltb (int_key x.is_online) (int_key y.is_online)
    then true
    else if int_key y.is_online == int_key x.is_online
    then case_less y.username x.username
    else false

-- The body of the two loops.
unfoldable pub exchange : ℕ → ℕ → List UiUser → List UiUser
exchange i j users =
    let x = get_or users i no_user_entry in
    let y = get_or users j no_user_entry in
    if comes_before y x then set (set users i y) j x else users

-- The inner loop, with `n` rounds left from `j` on.
unfoldable pub exchange_from : ℕ → ℕ → ℕ → List UiUser → List UiUser
exchange_from zero i j users = users
exchange_from (suc n) i j users = exchange_from n i (suc j) (exchange i j users)

-- The outer loop over the first `count` entries, with `n` rounds left from `i` on.
unfoldable pub sort_from : ℕ → ℕ → ℕ → List UiUser → List UiUser
sort_from zero count i users = users
sort_from (suc n) count i users =
    sort_from n count (suc i) (exchange_from (count - (i + 1)) i (i + 1) users)

unfoldable pub sort_users : ℕ → List UiUser → List UiUser
sort_users count users = sort_from (count - 1) count 0 users

abbrev pub is_dms : Screen → Bool
is_dms screen_dms = true
is_dms _ = false

-- The messages of the entry stay.
abbrev pub friend_entry_of : SocialPayload → UiFriend → UiFriend
friend_entry_of p f = record f {
  id = p.target_user_id;
  username = take (max_name_len - 1) p.target_username;
  type = p.status_code;
}

abbrev pub user_entry_of : SocialPayload → UiUser
user_entry_of p = record {
  id = p.target_user_id;
  username = take (max_name_len - 1) p.target_username;
  status = take profile_status_len p.target_status;
  is_online = p.status_code;
}

-- A friend is accepted where its type is 2.
abbrev pub first_accepted : List UiFriend → Option ℕ
first_accepted friends = find_index (λ f. f.type == 2) friends

unfoldable pub receive_user : Packet → SocialPayload → Ui → Ui
receive_user packet p u =
    if packet.list_frame == list_frame_start
    then record u { all_user_count = 0; user_list_cursor = 0 }
    else if packet.list_frame == list_frame_middle && ltb u.all_user_count max_all_users
    then record u {
      all_users = set u.all_users u.all_user_count (user_entry_of p);
      all_user_count = u.all_user_count + 1;
    }
    else if packet.list_frame == list_frame_end
    then record u { all_users = sort_users u.all_user_count u.all_users }
    else u

-- The first entry of the user gets the status.
unfoldable pub write_status : SocialPayload → Ui → Ui
write_status p u =
    elim (find_index (λ a. a.id == p.target_user_id) (take u.all_user_count u.all_users)) [
      | none ↦ u
      | some i ↦ record u {
        all_users = set u.all_users i (record (user_at u i) {
          status = take profile_status_len p.target_status;
          is_online = if p.status == status_online then 1 else 0;
        });
      }
    ]

abbrev pub is_own : SocialPayload → Ui → Bool
is_own p u = elim u.current_user [
  | none ↦ false
  | some k ↦
      text_eq p.target_username
        (get_or u.users k (record { username = []; password = []; server_id = none })).username
]

module _ (clock : ℕ → ℕ) where
  -- On the screen of direct messages the first accepted friend is chosen when the list is complete.
  unfoldable pub choose_friend : Ui → Ui
  choose_friend u =
      if is_dms u.current_screen && ltb 0 u.friend_count
      then elim (first_accepted (take u.friend_count u.friends)) [
        | none ↦ u
        | some i ↦
            sending (request_dm_history clock (friend_at u i).id)
              (record u { active_dm_friend = some i })
      ]
      else u

  unfoldable pub receive_friend : Packet → SocialPayload → Ui → Ui
  receive_friend packet p u =
      if packet.list_frame == list_frame_start
      then record u { friend_count = 0; friend_cursor = 0 }
      else if (packet.list_frame == list_frame_middle || packet.list_frame == list_frame_single)
          && ltb u.friend_count max_friends
      then record (write_friend u.friend_count (friend_entry_of p (friend_at u u.friend_count)) u) {
        friend_count = u.friend_count + 1;
      }
      else if packet.list_frame == list_frame_end || packet.list_frame == list_frame_single
      then choose_friend u
      else u

  unfoldable pub receive_status : SocialPayload → Ui → Ui
  receive_status p u =
      if p.status_code == resp_ok
      then (let v = write_status p u in
          if is_own p u then close_command (sending (request_user_list clock) v) else v)
      else record u { command_status_msg = codes "Error updating status." }

  unfoldable pub receive_social : Packet → SocialPayload → Ui → Ui
  receive_social packet p u =
      if p.action == social_list_friends
      then receive_friend packet p u
      else if p.action == social_list_users
      then receive_user packet p u
      else if p.action == social_update_status
      then receive_status p u
      else u
