-- ===== src/Db/Servers.antt =====
-- The operations of server/db.c on servers and their members.
use tizcord.Base.{
  ℕ, [], Text, Bool, true, false, Option, none, some, if◌then◌else◌, ltb, ◌>>=◌, pure, gets,
  for_each,
}
use tizcord.Db.Sql.{
  select_is_admin, select_server_id, insert_server, insert_member, delete_member, delete_server,
  select_servers, select_channels, select_members, select_joined_servers,
}
use tizcord.Db.Env.{Env}
use tizcord.Db.World.{Action, run, step_done, step_row, text_or}

module _ (e : Env) where
  -- The flag in the member's row; `none` where there is no row.
  unfoldable pub db_user_is_server_admin : ℕ → ℕ → Action e (Option ℕ)
  db_user_is_server_admin server_id user_id = do
    result ← run e (select_is_admin server_id user_id)
    pure (elim (step_row e result) [ none ↦ none | some row ↦ some (e.column_int row 0) ])

  unfoldable pub db_get_server : Text → Action e (Option ℕ)
  db_get_server name = do
    result ← run e (select_server_id name)
    pure (elim (step_row e result) [ none ↦ none | some row ↦ some (e.column_int64 row 0) ])

  unfoldable pub db_join_server : ℕ → ℕ → Bool → Action e Bool
  db_join_server server_id user_id is_admin = do
    result ← run e (insert_member server_id user_id is_admin)
    pure (step_done e result)

  -- The creator becomes an admin member.
  unfoldable pub db_create_server : Text → ℕ → Action e Bool
  db_create_server name user_id = do
    result ← run e (insert_server name)
    server_id ← gets (λ w. e.last_insert_rowid w.conn)
    if step_done e result then db_join_server server_id user_id true else pure false

  unfoldable pub db_leave_server : ℕ → ℕ → Action e Bool
  db_leave_server server_id user_id = do
    result ← run e (delete_member server_id user_id)
    pure (step_done e result)

  unfoldable pub db_delete_server : ℕ → ℕ → Action e Bool
  db_delete_server server_id user_id = do
    member ← db_user_is_server_admin server_id user_id
    elim member [
      | none ↦ pure false
      | some _ ↦ do result ← run e (delete_server server_id); pure (step_done e result)
    ]

  unfoldable pub db_kick_server_member : ℕ → ℕ → Action e Bool
  db_kick_server_member server_id user_id = do
    member ← db_user_is_server_admin server_id user_id
    elim member [
      | none ↦ pure false
      | some _ ↦ do
        result ← run e (delete_member server_id user_id)
        changed ← gets (λ w. ltb 0 (e.changes w.conn))
        pure (if step_done e result then changed else false)
    ]

  module _ {A : Type 0} where
    -- The end of the iteration is not checked.
    unfoldable pub db_list_servers : (ℕ → Text → ℕ → A → Action e A) → A → Action e (Bool × A)
    db_list_servers server_cb a = do
      result ← run e select_servers
      elim result [
        | none ↦ pure (false, a)
        | some o ↦ do
          a' ←
              for_each
                (λ row. server_cb (e.column_int64 row 0) (text_or e row 1 []) (e.column_int row 2))
                o.rows a
          pure (true, a')
      ]

    unfoldable pub db_list_server_channels :
        ℕ → (ℕ → Text → A → Action e A) → A → Action e (Bool × A)
    db_list_server_channels server_id channel_cb a = do
      result ← run e (select_channels server_id)
      elim result [
        | none ↦ pure (false, a)
        | some o ↦ do
          a' ← for_each (λ row. channel_cb (e.column_int64 row 0) (text_or e row 1 [])) o.rows a
          pure (o.done, a')
      ]

    unfoldable pub db_list_server_members :
        ℕ → (ℕ → Text → ℕ → A → Action e A) → A → Action e (Bool × A)
    db_list_server_members server_id member_cb a = do
      result ← run e (select_members server_id)
      elim result [
        | none ↦ pure (false, a)
        | some o ↦ do
          a' ←
              for_each
                (λ row. member_cb (e.column_int64 row 0) (text_or e row 1 []) (e.column_int row 2))
                o.rows a
          pure (o.done, a')
      ]

    unfoldable pub db_list_joined_servers :
        ℕ → (ℕ → Text → ℕ → A → Action e A) → A → Action e (Bool × A)
    db_list_joined_servers user_id server_cb a = do
      result ← run e (select_joined_servers user_id)
      elim result [
        | none ↦ pure (false, a)
        | some o ↦ do
          a' ←
              for_each
                (λ row. server_cb (e.column_int64 row 0) (text_or e row 1 []) (e.column_int row 2))
                o.rows a
          pure (o.done, a')
      ]
