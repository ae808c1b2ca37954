-- ===== src/Db/Friends.antt =====
-- The operations of server/db.c on friendships.
use tizcord.Base.{
  ℕ, ◌-◌, ◌^◌, [], Text, Bool, true, false, Option, none, some, if◌then◌else◌, ◌==◌, ◌>>=◌, ◌>>◌,
  pure, for_each, ◌&&◌, ◌||◌,
}
use tizcord.Db.Sql.{
  select_friendship, insert_friend, select_is_accepted, update_accepted, delete_pending,
  select_accepted, delete_friendship, select_pending, select_friend_requests,
}
use tizcord.Db.Env.{Env}
use tizcord.Db.World.{Action, run, step_done, step_row, text_or}

-- The results of `db_accept_friend_request`: 0, -1 and -2.
pub data AcceptCode : Type 0 where
  accepted not_found already_friends : AcceptCode

-- The results of `db_send_friend_request`: 0, 1, -1 and -2.
pub data RequestCode : Type 0 where
  requested became_friends request_failed were_friends : RequestCode

-- `same_direction_status` and `reciprocal_status`; `none` is -1.
pub record Existing : Type 0 where
  pub same_direction_status : Option ℕ
  pub reciprocal_status : Option ℕ

abbrev pub is_status : Option ℕ → ℕ → Bool
is_status none k = false
is_status (some v) k = v == k

module _ (e : Env) where
  -- One row of the select on both directions.
  unfoldable pub read_existing : ℕ → ℕ → e.Row → Existing → Action e Existing
  read_existing user_id friend_id row found = pure (
      if e.column_int64 row 0 == user_id && e.column_int64 row 1 == friend_id
      then record found { same_direction_status = some (e.column_int row 2) }
      else if e.column_int64 row 0 == friend_id && e.column_int64 row 1 == user_id
      then record found { reciprocal_status = some (e.column_int row 2) }
      else found)

  -- A flag of 2 ^ 32 - 1 is the code's -1.
  unfoldable pub db_accept_friend_request : ℕ → ℕ → Action e AcceptCode
  db_accept_friend_request my_user_id friend_id = do
    check ← run e (select_is_accepted friend_id my_user_id)
    elim (step_row e check) [
      | none ↦ pure not_found
      | some row ↦
          if e.column_int row 0 == 2 ^ 32 - 1
          then pure not_found
          else if e.column_int row 0 == 1
          then pure already_friends
          else do
            run e (update_accepted friend_id my_user_id)
            run e (delete_pending my_user_id friend_id)
            pure accepted
    ]

  abbrev accept_reciprocal : AcceptCode → RequestCode
  accept_reciprocal accepted = became_friends
  accept_reciprocal not_found = request_failed
  accept_reciprocal already_friends = request_failed

  unfoldable pub db_send_friend_request : ℕ → ℕ → Action e RequestCode
  db_send_friend_request user_id friend_id = do
    existing ← run e (select_friendship user_id friend_id friend_id user_id)
    found ←
        for_each (read_existing user_id friend_id) (elim existing [ none ↦ [] | some o ↦ o.rows ])
          (record { same_direction_status = none; reciprocal_status = none })
    if is_status found.same_direction_status 1 || is_status found.reciprocal_status 1
        then pure were_friends
        else if is_status found.reciprocal_status 0
        then (do code ← db_accept_friend_request user_id friend_id; pure (accept_reciprocal code))
        else do
          result ← run e (insert_friend user_id friend_id)
          pure (if step_done e result then requested else request_failed)

  -- 0 is `true`; the deletion's own result is not checked.
  unfoldable pub db_remove_friendship : ℕ → ℕ → Action e Bool
  db_remove_friendship user_id friend_id = do
    check ← run e (select_accepted user_id friend_id friend_id user_id)
    elim (step_row e check) [
      | none ↦ pure false
      | some _ ↦ do run e (delete_friendship user_id friend_id friend_id user_id); pure true
    ]

  -- 0 is `true`; the deletion's own result is not checked.
  unfoldable pub db_reject_friend_request : ℕ → ℕ → Action e Bool
  db_reject_friend_request my_user_id sender_id = do
    check ← run e (select_pending sender_id my_user_id)
    elim (step_row e check) [
      | none ↦ pure false
      | some _ ↦ do run e (delete_pending sender_id my_user_id); pure true
    ]

  unfoldable pub db_list_friend_requests :
      {A : Type 0} → ℕ → (ℕ → Text → ℕ → A → Action e A) → A → Action e (Bool × A)
  db_list_friend_requests user_id req_cb a = do
    result ← run e (select_friend_requests user_id user_id)
    elim result [
      | none ↦ pure (false, a)
      | some o ↦ do
        a' ←
            for_each
              (λ row. req_cb (e.column_int64 row 0) (text_or e row 1 []) (e.column_int row 2))
              o.rows a
        pure (o.done, a')
    ]
