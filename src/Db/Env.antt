-- ===== src/Db/Env.antt =====
-- What the server's code calls and does not contain: SQLite, crypt(3), the clock, and whether the
-- network took a packet. Each is a field, so that the code's behaviour is known for all of them.
use tizcord.Base.{ℕ, Bool, Option, List, Text, ◌≡◌, true}
use tizcord.Wire.Abi.{Abi}
use tizcord.Db.Sql.{Sql, is_select}

-- What stepping a statement to its end gives: its rows, and whether it ends with SQLITE_DONE.
pub record Outcome (Row : Type 0) : Type 0 where
  pub rows : List Row
  pub done : Bool

pub record Env : Type 1 where
  pub abi : Abi
  pub Conn : Type 0
  pub Row : Type 0
  -- sqlite3_prepare_v2(...) == SQLITE_OK
  pub prepare : Conn → Sql → Bool
  -- sqlite3_step until the statement ends
  pub execute : Conn → Sql → Conn × Outcome Row
  pub last_insert_rowid : Conn → ℕ
  pub changes : Conn → ℕ
  pub column_int : Row → ℕ → ℕ
  pub column_int64 : Row → ℕ → ℕ
  -- `none` is a NULL pointer
  pub column_text : Row → ℕ → Option Text
  pub column_count : Row → ℕ
  -- sqlite3_column_type(...) == SQLITE_INTEGER
  pub column_is_integer : Row → ℕ → Bool
  -- crypt_gensalt("$y$", 0, NULL, 0), after so many packets were sent
  pub crypt_gensalt : ℕ → Option Text
  pub crypt : Text → Text → Option Text
  -- time(NULL), after so many packets were sent
  pub time : ℕ → ℕ
  -- whether `packet_send` returns 0, for the packet after so many
  pub deliver : ℕ → Bool

-- SQLite's documentation: a SELECT does not change the database.
pub record ReadsOnly (e : Env) : Type 0 where
  pub select_keeps : (c : e.Conn) (sql : Sql) → is_select sql ≡ true → (e.execute c sql).0 ≡ c
