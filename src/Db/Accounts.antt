-- ===== src/Db/Accounts.antt =====
-- The operations of server/db.c on users. A function that returns 0 or -1 is a `Bool`; one that
-- also writes an output parameter is an `Option`.
use tizcord.Base.{
  ℕ, [], ◌++◌, Text, Bool, false, Option, none, some, if◌then◌else◌, ltb, codes, take, ◌>>=◌, pure,
  gets, for_each,
}
use tizcord.Db.Sql.{insert_user, select_password_hash, select_user_id, select_users, update_status}
use tizcord.Db.Env.{Env}
use tizcord.Db.World.{Action, run, step_done, step_row, text_or}

module _ (e : Env) where
  unfoldable pub db_create_user : Text → Text → Action e (Option ℕ)
  db_create_user username password_hash = do
    let email = take 255 (username ++ codes "@dummy.com")
    result ← run e (insert_user username email password_hash)
    id ← gets (λ w. e.last_insert_rowid w.conn)
    pure (if step_done e result then some id else none)

  -- The id and the hash of the row found, if any.
  abbrev pub password_row : Option e.Row → Option (ℕ × Text)
  password_row none = none
  password_row (some row) = elim (e.column_text row 1) [
    | none ↦ none
    | some stored_hash ↦ some (e.column_int64 row 0, stored_hash)
  ]

  -- The id and the stored hash; `strcpy` into the caller's 256 bytes.
  unfoldable pub db_get_password_hash : Text → Action e (Option (ℕ × Text))
  db_get_password_hash username = do
    result ← run e (select_password_hash username)
    pure (password_row (step_row e result))

  unfoldable pub db_get_user_id_by_name : Text → Action e (Option ℕ)
  db_get_user_id_by_name username = do
    result ← run e (select_user_id username)
    pure (elim (step_row e result) [ none ↦ none | some row ↦ some (e.column_int64 row 0) ])

  unfoldable pub db_list_all_users :
      {A : Type 0} → (ℕ → Text → Text → A → Action e A) → A → Action e (Bool × A)
  db_list_all_users user_cb a = do
    result ← run e select_users
    elim result [
      | none ↦ pure (false, a)
      | some o ↦ do
        a' ←
            for_each
              (λ row. user_cb (e.column_int64 row 0) (text_or e row 1 []) (text_or e row 2 []))
              o.rows a
        pure (o.done, a')
    ]

  unfoldable pub db_update_user_status : ℕ → Text → Action e Bool
  db_update_user_status user_id status = do
    result ← run e (update_status status user_id)
    changed ← gets (λ w. ltb 0 (e.changes w.conn))
    pure (if step_done e result then changed else false)
