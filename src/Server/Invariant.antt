-- ===== src/Server/Invariant.antt =====
-- The invariant of the server's state: room for every client, one socket for each entry, and one
-- login for each user, who is in the database. What of it sending, statements and list ids keep.
use tizcord.Base.{
  ℕ, ◌≤◌, ◌≡◌, refl, sym, subst, List, [], ◌∷◌, map, Bool, true, false, some, Text, length, arith,
  length-set,
}
use tizcord.Db.Sql.{Sql, insert_user, select_password_hash}
use tizcord.Db.Env.{Env}
use tizcord.Db.World.{World, step_done, step_row, max_clients, client_at, no_client}
use tizcord.Db.Stable.{Stable}
use tizcord.Auth.Sessions.{Session, session, Unique, Sockets, LoggedIn, OnlyOn, map-session-set}

-- The schema's documented behaviour on the table `users`: ids are INTEGER PRIMARY KEY, which a
-- successful INSERT makes new; a SELECT reports rows of the table; and no statement of the program
-- deletes a user.
pub record Users (e : Env) : Type 0 where
  pub has_user : e.Conn → ℕ → Bool
  pub keeps_users :
      (c : e.Conn) (sql : Sql) (id : ℕ)
      → has_user c id ≡ true
      → has_user (e.execute c sql).0 id ≡ true
  pub new_user :
      (c : e.Conn) (name mail hash : Text)
      → step_done e (some (e.execute c (insert_user name mail hash)).1) ≡ true
      → let c' = (e.execute c (insert_user name mail hash)).0 in
        (has_user c (e.last_insert_rowid c') ≡ false)
        × (has_user c' (e.last_insert_rowid c') ≡ true)
  pub found_user :
      (c : e.Conn) (name : Text) (row : e.Row)
      → step_row e (some (e.execute c (select_password_hash name)).1) ≡ some row
      → has_user c (e.column_int64 row 0) ≡ true

module _ (e : Env) (u : Users e) where
  pub record IsValid (w : World e) : Type 0 where
    pub room : length w.clients ≤ max_clients
    pub sockets : Sockets (map session w.clients)
    pub unique : Unique (map session w.clients)
    pub known : LoggedIn (λ id. u.has_user w.conn id ≡ true) (map session w.clients)

  LoggedIn-execute :
      (c : e.Conn) (sql : Sql) (ss : List Session)
      → LoggedIn (λ id. u.has_user c id ≡ true) ss
      → LoggedIn (λ id. u.has_user (e.execute c sql).0 id ≡ true) ss
  LoggedIn-execute c sql [] h = tt
  LoggedIn-execute c sql (s ∷ ss) h =
      (λ a. u.keeps_users c sql s.id (h.0 a), LoggedIn-execute c sql ss h.1)

  -- Changes of the entries that no session shows.
  pub IsValid-same_sessions :
      (w w' : World e)
      → IsValid w
      → w'.conn ≡ w.conn
      → length w'.clients ≡ length w.clients
      → map session w'.clients ≡ map session w.clients
      → IsValid w'
  IsValid-same_sessions w w' v conn len same = record {
    room = omega (arith, len, v.room);
    sockets = subst Sockets (sym same) v.sockets;
    unique = subst Unique (sym same) v.unique;
    known = subst (LoggedIn (λ id. u.has_user w'.conn id ≡ true)) (sym same) (
        subst (λ c. LoggedIn (λ id. u.has_user c id ≡ true) (map session w.clients)) (sym conn)
          v.known);
  }

  pub Stable-IsValid : Stable e IsValid
  Stable-IsValid = record {
    sends =
        λ w s v. record { room = v.room; sockets = v.sockets; unique = v.unique; known = v.known };
    runs = λ w sql v. record {
      room = v.room;
      sockets = v.sockets;
      unique = v.unique;
      known = LoggedIn-execute w.conn sql (map session w.clients) v.known;
    };
    lists =
        λ w k v. record { room = v.room; sockets = v.sockets; unique = v.unique; known = v.known };
    views = λ w i v h.
        IsValid-same_sessions w _ h refl
          (length-set w.clients i (record (client_at e w i) { current_server_index = v }))
          (map-session-set w.clients i (record (client_at e w i) { current_server_index = v })
            no_client refl);
  }

  -- Nobody is logged in as somebody who is not in the database.
  pub OnlyOn-unknown :
      (c : e.Conn) (fd user_id : ℕ) (ss : List Session)
      → LoggedIn (λ id. u.has_user c id ≡ true) ss
      → u.has_user c user_id ≡ false
      → OnlyOn fd user_id ss
  OnlyOn-unknown c fd user_id [] h stranger = tt
  OnlyOn-unknown c fd user_id (s ∷ ss) h unknown =
      (λ a same. absurd (clash same (h.0 a)), OnlyOn-unknown c fd user_id ss h.1 unknown)
    where
      clash : s.id ≡ user_id → ¬ (u.has_user c s.id ≡ true)
      clash same has = cc
