-- ===== src/Db/Messages.antt =====
-- The operations of server/db.c on the messages of channels and on direct messages.
use tizcord.Base.{
  ℕ, [], Text, Bool, true, false, none, some, if◌then◌else◌, ltb, length, codes, ◌>>=◌, pure,
  for_each, ◌&&◌,
}
use tizcord.Db.Sql.{insert_message, insert_direct_message, select_direct_messages, select_messages}
use tizcord.Db.Env.{Env}
use tizcord.Db.World.{World, Action, run, step_done, text_or}

module _ (e : Env) where
  unfoldable pub db_save_message : ℕ → ℕ → Text → Action e Bool
  db_save_message channel_id user_id content = do
    result ← run e (insert_message channel_id user_id content)
    pure (step_done e result)

  unfoldable pub db_save_direct_message : ℕ → ℕ → Text → Action e Bool
  db_save_direct_message sender_id receiver_id content = do
    result ← run e (insert_direct_message sender_id receiver_id content)
    pure (step_done e result)

  -- The time of creation, or the present where the column holds no integer.
  abbrev direct_message_time : e.Row → World e → ℕ
  direct_message_time row w =
      if ltb 4 (e.column_count row) && e.column_is_integer row 4
      then e.column_int64 row 4
      else e.time (length w.sent)

  module _ {A : Type 0} where
    -- The end of the iteration is not checked.
    unfoldable pub db_list_direct_messages :
        ℕ → ℕ → (ℕ → Text → Text → Text → ℕ → A → Action e A) → A → Action e (Bool × A)
    db_list_direct_messages sender_id receiver_id dm_cb a = do
      result ← run e (select_direct_messages sender_id receiver_id receiver_id sender_id)
      elim result [
        | none ↦ pure (false, a)
        | some o ↦ do
          a' ←
              for_each
                (λ row a w.
                  dm_cb (e.column_int64 row 0) (text_or e row 1 (codes "Unknown"))
                    (text_or e row 2 (codes "Unknown")) (text_or e row 3 [])
                    (direct_message_time row w) a w)
                o.rows a
          pure (true, a')
      ]

    -- The end of the iteration is not checked.
    unfoldable pub db_list_channel_messages :
        ℕ → (ℕ → Text → Text → ℕ → A → Action e A) → A → Action e (Bool × A)
    db_list_channel_messages channel_id msg_cb a = do
      result ← run e (select_messages channel_id)
      elim result [
        | none ↦ pure (false, a)
        | some o ↦ do
          a' ←
              for_each
                (λ row.
                  msg_cb (e.column_int64 row 0) (text_or e row 1 (codes "Unknown"))
                    (text_or e row 2 []) (e.column_int64 row 3))
                o.rows a
          pure (true, a')
      ]
