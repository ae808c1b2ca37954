-- ===== src/Db/Channels.antt =====
-- The operations of server/db.c on channels.
use tizcord.Base.{ℕ, Text, Bool, Option, none, some, if◌then◌else◌, ◌>>=◌, pure, gets}
use tizcord.Db.Sql.{insert_channel, select_channel_id, delete_channel, select_channel_server}
use tizcord.Db.Env.{Env}
use tizcord.Db.World.{Action, run, step_done, step_row}

module _ (e : Env) where
  unfoldable pub db_create_channel : ℕ → Text → Action e (Option ℕ)
  db_create_channel server_id name = do
    result ← run e (insert_channel server_id name)
    id ← gets (λ w. e.last_insert_rowid w.conn)
    pure (if step_done e result then some id else none)

  unfoldable pub db_get_channel_id : ℕ → Text → Action e (Option ℕ)
  db_get_channel_id server_id name = do
    result ← run e (select_channel_id server_id name)
    pure (elim (step_row e result) [ none ↦ none | some row ↦ some (e.column_int64 row 0) ])

  unfoldable pub db_delete_channel : ℕ → Action e Bool
  db_delete_channel channel_id = do
    result ← run e (delete_channel channel_id)
    pure (step_done e result)

  unfoldable pub db_get_channel_server_id : ℕ → Action e (Option ℕ)
  db_get_channel_server_id channel_id = do
    result ← run e (select_channel_server channel_id)
    pure (elim (step_row e result) [ none ↦ none | some row ↦ some (e.column_int64 row 0) ])
