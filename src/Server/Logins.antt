-- ===== src/Server/Logins.antt =====
-- The handlers of server/auth.c and the invariant of the server's state.
use mathlib.Core.Bool.{false≢true}
use tizcord.Base.{
  ℕ, ◌≤◌, ◌≡◌, refl, sym, subst, List, [], ◌∷◌, map, true, Option, none, some, Text, Bool-cases,
  inl, inr, length, arith, Option-cases, codes, take, ◌++◌, ◌>>=◌, ◌>>◌,
}
use tizcord.Db.Sql.{insert_user, select_password_hash}
use tizcord.Db.Env.{Env}
use tizcord.Db.World.{World, ClientNode, run, step_done, step_row, max_clients}
use tizcord.Db.Accounts.{db_create_user, db_get_password_hash, password_row}
use tizcord.Auth.{log_in, revoke_existing_login, link_identity, take_over}
use tizcord.Auth.Sessions.{
  session, Unique, Sockets, LoggedIn, OnlyOn, update_first, revoked, All-update_first,
  Sockets-update_first, Unique-update_first_in, All-map-revoked, Sockets-map-revoked,
  Unique-map-revoked, OnlyOn-map-revoked,
}
use tizcord.Auth.Revoke.{
  revoke_existing_login-revoked, revoke_existing_login-conn, link_identity-update_first,
  link_identity-conn,
}
use tizcord.Server.Invariant.{Users, IsValid, Stable-IsValid, OnlyOn-unknown}

pub length-update_first :
    {Byte : Type 0} (fd : ℕ) (f : ClientNode Byte → ClientNode Byte) (cs : List (ClientNode Byte))
    → length (update_first fd f cs) ≡ length cs
length-update_first fd f [] = refl
length-update_first fd f (c ∷ cs) = ground (arith, length-update_first fd f cs)

length-map : {A B : Type 0} (f : A → B) (xs : List A) → length (map f xs) ≡ length xs
length-map f [] = refl
length-map f (x ∷ xs) = omega (arith, length-map f xs)

module _ (e : Env) (u : Users e) where
  -- A login of a user who is in the database, on the only socket that may have it.
  pub IsValid-link_identity :
      (fd user_id : ℕ) (name : Text) (w : World e)
      → IsValid e u w
      → OnlyOn fd user_id (map session w.clients)
      → u.has_user w.conn user_id ≡ true
      → IsValid e u (link_identity e fd user_id name w).1
  IsValid-link_identity fd user_id name w v only has =
      let on = link_identity-update_first e fd user_id name w in
      let at = link_identity-conn e fd user_id name w in
      record {
        room =
            subst (λ cs. length cs ≤ max_clients) (sym on)
              (omega (arith, v.room, length-update_first fd (log_in user_id name) w.clients));
        sockets =
            subst (λ cs. Sockets (map session cs)) (sym on)
              (Sockets-update_first fd (log_in user_id name) w.clients (λ c. refl) v.sockets);
        unique =
            subst (λ cs. Unique (map session cs)) (sym on)
              (Unique-update_first_in fd user_id name w.clients v.sockets only v.unique);
        known =
            subst
              (λ cs.
                LoggedIn (λ id. u.has_user (link_identity e fd user_id name w).1.conn id ≡ true)
                  (map session cs))
              (sym on)
              (subst
                (λ c.
                  LoggedIn (λ id. u.has_user c id ≡ true)
                    (map session (update_first fd (log_in user_id name) w.clients)))
                (sym at)
                (All-update_first (λ s. s.authenticated ≡ true → u.has_user w.conn s.id ≡ true) fd
                  (log_in user_id name) w.clients (λ c on' k a. has) v.known));
      }

  IsValid-revoke_existing_login :
      (fd user_id : ℕ) (name : Text) (w : World e)
      → IsValid e u w
      → IsValid e u (revoke_existing_login e fd user_id name w).1
  IsValid-revoke_existing_login fd user_id name w v =
      let on = revoke_existing_login-revoked e fd user_id name w in
      let at = revoke_existing_login-conn e fd user_id name w in
      record {
        room =
            subst (λ cs. length cs ≤ max_clients) (sym on)
              (omega (arith, v.room, length-map (revoked fd user_id) w.clients));
        sockets =
            subst (λ cs. Sockets (map session cs)) (sym on)
              (Sockets-map-revoked fd user_id w.clients v.sockets);
        unique =
            subst (λ cs. Unique (map session cs)) (sym on)
              (Unique-map-revoked fd user_id w.clients v.unique);
        known =
            subst
              (λ cs.
                LoggedIn
                  (λ id. u.has_user (revoke_existing_login e fd user_id name w).1.conn id ≡ true)
                  (map session cs))
              (sym on)
              (subst
                (λ c.
                  LoggedIn (λ id. u.has_user c id ≡ true)
                    (map session (map (revoked fd user_id) w.clients)))
                (sym at)
                (All-map-revoked (λ s. s.authenticated ≡ true → u.has_user w.conn s.id ≡ true) fd
                  user_id w.clients (λ c k a. absurd (false≢true a)) v.known));
      }

  pub IsValid-take_over :
      (fd user_id : ℕ) (name : Text) (w : World e)
      → IsValid e u w
      → u.has_user w.conn user_id ≡ true
      → IsValid e u (take_over e fd user_id name w).1
  unfolding take_over ◌>>◌
  IsValid-take_over fd user_id name w v has =
      let w' = (revoke_existing_login e fd user_id name w).1 in
      IsValid-link_identity fd user_id name w' (IsValid-revoke_existing_login fd user_id name w v)
        (subst (λ cs. OnlyOn fd user_id (map session cs))
          (sym (revoke_existing_login-revoked e fd user_id name w))
          (OnlyOn-map-revoked fd user_id w.clients v.sockets))
        (subst (λ c. u.has_user c user_id ≡ true)
          (sym (revoke_existing_login-conn e fd user_id name w)) has)

  -- What a handler does after a new user was stored.
  unfoldable pub Stored : Option ℕ → World e → Type 0
  Stored none w = IsValid e u w
  Stored (some id) w =
      IsValid e u w
      × (u.has_user w.conn id ≡ true)
      × ((fd : ℕ) → OnlyOn fd id (map session w.clients))

  insert-Stored :
      (name mail hash : Text) (w : World e)
      → IsValid e u w
      → step_done e (some (e.execute w.conn (insert_user name mail hash)).1) ≡ true
      → let c' = (e.execute w.conn (insert_user name mail hash)).0 in
        Stored (some (e.last_insert_rowid c')) (record w { conn = c' })
  unfolding Stored
  insert-Stored name mail hash w v done =
      let c' = (e.execute w.conn (insert_user name mail hash)).0 in
      let new = u.new_user w.conn name mail hash done in
      (
        (Stable-IsValid e u).runs w (insert_user name mail hash) v,
        new.1,
        λ fd.
            OnlyOn-unknown e u w.conn fd (e.last_insert_rowid c') (map session w.clients) v.known
              new.0,
      )

  pub db_create_user-Stored :
      (name hash : Text) (w : World e)
      → IsValid e u w
      → Stored (db_create_user e name hash w).0 (db_create_user e name hash w).1
  unfolding db_create_user run ◌>>=◌ Stored
  db_create_user-Stored name hash w v =
      let mail = take 255 (name ++ codes "@dummy.com") in
      let sql = insert_user name mail hash in
      elim (Bool-cases (e.prepare w.conn sql)) [
        | inr bad ↦ rw bad v
        | inl ok ↦ elim (Bool-cases (step_done e (some (e.execute w.conn sql).1))) [
          | inl done ↦ rw (ok, done) (insert-Stored name mail hash w v done)
          | inr not_done ↦ rw (ok, not_done) ((Stable-IsValid e u).runs w sql v)
        ]
      ]

  -- What a handler does after a stored hash was looked up.
  unfoldable pub Found : Option (ℕ × Text) → World e → Type 0
  Found none w = IsValid e u w
  Found (some p) w = IsValid e u w × (u.has_user w.conn p.0 ≡ true)

  row_Found :
      (name : Text) (w : World e)
      → IsValid e u w
      → (o : Option e.Row) → step_row e (some (e.execute w.conn (select_password_hash name)).1) ≡ o
      → Found
          (password_row e o)
          (record w { conn = (e.execute w.conn (select_password_hash name)).0 })
  unfolding Found
  row_Found name w v none at = (Stable-IsValid e u).runs w _ v
  row_Found name w v (some row) at = elim (Option-cases (e.column_text row 1)) [
    | inl null ↦ rw (null, Found) ((Stable-IsValid e u).runs w _ v)
    | inr (hash, here) ↦
        rw (here, Found)
          (
            (Stable-IsValid e u).runs w _ v,
            u.keeps_users w.conn _ _ (u.found_user w.conn name row at),
          )
  ]

  pub db_get_password_hash-Found :
      (name : Text) (w : World e)
      → IsValid e u w
      → Found (db_get_password_hash e name w).0 (db_get_password_hash e name w).1
  unfolding db_get_password_hash run ◌>>=◌ Found
  db_get_password_hash-Found name w v =
      let sql = select_password_hash name in
      elim (Bool-cases (e.prepare w.conn sql)) [
        | inr bad ↦ rw bad v
        | inl ok ↦ rw ok (row_Found name w v (step_row e (some (e.execute w.conn sql).1)) refl)
      ]
