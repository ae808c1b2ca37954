-- ===== src/Server/Memory.antt =====
-- A database of users in memory, for running the server on concrete packets.
use mathlib.Core.Bool.{false≢true}
use tizcord.Base.{
  codes, refl, ℕ, suc, ◌≤◌, ◌<◌, ◌≡◌, List, [], ◌∷◌, Text, Bool, true, false, some, if◌then◌else◌,
  leb, ltb, ◌&&◌, length, text_eq, arith, Bool-cases, inl, inr,
}
use tizcord.Wire.Abi.{three_cells}
use tizcord.Db.Sql.{
  is_select, Sql, select_servers, select_users, insert_user, select_password_hash, select_is_admin,
}
use tizcord.Db.Env.{ReadsOnly, Env, Outcome}
use tizcord.Db.World.{step_done, step_row}
use tizcord.Server.Invariant.{Users}

-- The names and hashes, the newest first; the id of a user is the number of users up to it.
abbrev Table : Type 0
Table = List (Text × Text)

pub record Cells : Type 0 where
  pub number : ℕ
  pub text : Text

abbrev find_row : Text → Table → List Cells
find_row name [] = []
find_row name ((n, h) ∷ t) =
    let rest = find_row name t in
    if text_eq n name then record { number = suc (length t); text = h } ∷ [] else rest

-- What the list of servers reports.
abbrev two_servers : List Cells
two_servers =
    record { number = 1; text = codes "lobby" } ∷ record { number = 2; text = codes "maths" } ∷ []

abbrev all_rows : Table → List Cells
all_rows [] = []
all_rows ((n, h) ∷ t) = record { number = suc (length t); text = n } ∷ all_rows t

abbrev execute_on : Table → Sql → Table × Outcome Cells
execute_on t (insert_user name mail hash) = elim (find_row name t) [
  | [] ↦ ((name, hash) ∷ t, record { rows = []; done = true })
  | _ ∷ _ ↦ (t, record { rows = []; done = false })
]
execute_on t (select_password_hash name) = (t, record { rows = find_row name t; done = true })
execute_on t select_servers = (t, record { rows = two_servers; done = true })
execute_on t select_users = (t, record { rows = all_rows t; done = true })
execute_on t (select_is_admin _ _) =
    (t, record { rows = record { number = 0; text = [] } ∷ []; done = true })
execute_on t _ = (t, record { rows = []; done = true })

abbrev pub memory : Env
memory = record {
  abi = three_cells;
  Conn = Table;
  Row = Cells;
  prepare = λ t sql. true;
  execute = execute_on;
  last_insert_rowid = length;
  changes = λ t. 1;
  column_int = λ r i. r.number;
  column_int64 = λ r i. r.number;
  column_text = λ r i. some r.text;
  column_count = λ r. 2;
  column_is_integer = λ r i. true;
  crypt_gensalt = λ k. some [];
  crypt = λ password setting. some password;
  time = λ k. k;
  deliver = λ k. true;
}

abbrev has_row : Table → ℕ → Bool
has_row t id = ltb 0 id && leb id (length t)

has_row_there : (t : Table) (id : ℕ) → 0 < id → id ≤ length t → has_row t id ≡ true
has_row_there t id pos there = ground arith

has_row_next :
    (t : Table) (p : Text × Text) (id : ℕ) → has_row t id ≡ true → has_row (p ∷ t) id ≡ true
has_row_next t p id h = ground arith

keeps_row :
    (t : Table) (sql : Sql) (id : ℕ) → has_row t id ≡ true → has_row (execute_on t sql).0 id ≡ true
keeps_row t (insert_user name mail hash) id h = go (find_row name t)
  where
    go :
        (rows : List Cells)
        → has_row
            ((elim rows as (λ _. Table × Outcome Cells) [
              | [] ↦ ((name, hash) ∷ t, record { rows = []; done = true })
              | _ ∷ _ ↦ (t, record { rows = []; done = false })
            ]).0)
            id
          ≡ true
    go [] = has_row_next t (name, hash) id h
    go (_ ∷ _) = h
keeps_row t _ id h = h

new_row :
    (t : Table) (name mail hash : Text)
    → step_done memory (some (execute_on t (insert_user name mail hash)).1) ≡ true
    → let t' = (execute_on t (insert_user name mail hash)).0 in
      (has_row t (length t') ≡ false) × (has_row t' (length t') ≡ true)
new_row t name mail hash = go (find_row name t)
  where
    insert_with : List Cells → Table × Outcome Cells
    insert_with [] = ((name, hash) ∷ t, record { rows = []; done = true })
    insert_with (_ ∷ _) = (t, record { rows = []; done = false })

    go :
        (rows : List Cells)
        → step_done memory (some (insert_with rows).1) ≡ true
        → (has_row t (length (insert_with rows).0) ≡ false)
          × (has_row (insert_with rows).0 (length (insert_with rows).0) ≡ true)
    go [] h = (ground arith, ground arith)
    go (_ ∷ _) h = absurd (ground arith)

find_row-has_row :
    (name : Text) (t : Table) (row : Cells)
    → step_row memory (some (record { rows = find_row name t; done = true })) ≡ some row
    → has_row t row.number ≡ true
find_row-has_row name [] row h = absurd (ground arith)
find_row-has_row name ((n, k) ∷ t) row h = elim (Bool-cases (text_eq n name)) [
  | inl here ↦ ground arith
  | inr there ↦ has_row_next t (n, k) row.number (find_row-has_row name t row (ground arith))
]

pub memory-Users : Users memory
memory-Users = record {
  has_user = has_row;
  keeps_users = keeps_row;
  new_user = new_row;
  found_user = λ t name row h. find_row-has_row name t row h;
}

select_keeps_table : (t : Table) (sql : Sql) → is_select sql ≡ true → (execute_on t sql).0 ≡ t
select_keeps_table t (insert_user _ _ _) h = absurd (false≢true h)
select_keeps_table t _ h = refl

pub memory-ReadsOnly : ReadsOnly memory
memory-ReadsOnly = record { select_keeps = λ t sql h. select_keeps_table t sql h }
