-- ===== src/Auth/Takeover.antt =====
-- What a successful login does to the list of clients: `take_over` of server/auth.c.
use tizcord.Base.{
  ℕ, zero, suc, ◌≡◌, refl, sym, ap, ◌∙◌, subst, [], ◌∷◌, map, true, some, Text, arith, get_or, ◌>>◌,
  ◌>>=◌, take, ◌-◌, set, text_eq, Option, none, false, Bool, Bool-cases, inl, inr, List,
}
use tizcord.Protocol.{AuthPayload, max_name_len}
use tizcord.Db.Env.{Env}
use tizcord.Db.Sql.{select_password_hash}
use tizcord.Db.World.{World, ClientNode, no_client, client_at, run, send}
use tizcord.Db.Accounts.{db_get_password_hash}
use tizcord.Db.Stable.{Stable}
use tizcord.Social.Stable.{Keeps-notify_all_user_lists}
use tizcord.TizcordServer.Stable.{Keeps-notify_server_member_lists_for_user}
use tizcord.Chat.Channel.{find_fd}
use tizcord.Auth.{
  password_matches, log_in, login_account, finish_login, send_auth_reply, take_over,
  revoke_existing_login, link_identity,
}
use tizcord.Auth.Sessions.{
  map-session-set, session, Sockets, OnlyOn, update_first, revoked, All-update_first,
  OnlyOn-map-revoked,
}
use tizcord.Auth.Revoke.{revoke_existing_login-revoked, link_identity-update_first}

-- The entry on the socket, after the first entry on it was changed.
found-update_first :
    {Byte : Type 0} (fd i : ℕ) (f : ClientNode Byte → ClientNode Byte) (cs : List (ClientNode Byte))
    (d : ClientNode Byte)
    → find_fd fd cs ≡ some i
    → get_or (update_first fd f cs) i d ≡ f (get_or cs i d)
found-update_first fd i f [] d h = absurd cc
found-update_first fd zero f (c ∷ cs) d h = ground arith
found-update_first fd (suc i) f (c ∷ cs) d h = ground (arith, found-update_first fd i f cs d)

find_fd-revoked :
    {Byte : Type 0} (fd user_id : ℕ) (cs : List (ClientNode Byte))
    → find_fd fd (map (revoked fd user_id) cs) ≡ find_fd fd cs
find_fd-revoked fd user_id [] = refl
find_fd-revoked fd user_id (c ∷ cs) = ground (arith, find_fd-revoked fd user_id cs)

-- The first entry on the socket, which is entry `i`, is logged in as the user under the name, cut at
-- MAX_NAME_LEN - 1 bytes, and no other socket is logged in as the user.
abbrev pub LoggedInAs : (e : Env) → ℕ → ℕ → ℕ → Text → List (ClientNode e.abi.Byte) → Type 0
LoggedInAs e fd i user_id name cs =
    let c = get_or cs i no_client in
    (c.is_authenticated ≡ true)
    × (c.id ≡ user_id)
    × (c.username ≡ take (max_name_len - 1) name)
    × OnlyOn fd user_id (map session cs)

module _ (e : Env) (fd user_id : ℕ) (name : Text) (w : World e) (i : ℕ) where
  OnlyOn-take_over :
      Sockets (map session w.clients)
      → find_fd fd w.clients ≡ some i
      → LoggedInAs e fd i user_id name (take_over e fd user_id name w).1.clients
  unfolding take_over ◌>>◌
  OnlyOn-take_over h at =
      let v = (revoke_existing_login e fd user_id name w).1 in
      let cs = map (revoked fd user_id) w.clients in
      let on : (link_identity e fd user_id name v).1.clients
          ≡ update_first fd (log_in user_id name) cs =
        link_identity-update_first e fd user_id name v
        ∙ ap (update_first fd (log_in user_id name))
            (revoke_existing_login-revoked e fd user_id name w) in
      let entry : get_or (link_identity e fd user_id name v).1.clients i no_client
          ≡ log_in user_id name (get_or cs i no_client) =
        ap (λ ds. get_or ds i no_client) on
        ∙ found-update_first fd i (log_in user_id name) cs no_client
            (find_fd-revoked fd user_id w.clients ∙ at) in
      (
        ap (λ c. c.is_authenticated) entry,
        ap (λ c. c.id) entry,
        ap (λ c. c.username) entry,
        subst (λ ds. OnlyOn fd user_id (map session ds)) (sym on)
            (All-update_first (λ s. s.authenticated ≡ true → s.id ≡ user_id → s.fd ≡ fd) fd
              (log_in user_id name) cs (λ c here k a same. here)
              (OnlyOn-map-revoked fd user_id w.clients h)),
      )

db_get_password_hash-clients :
    (e : Env) (name : Text) (w : World e) → (db_get_password_hash e name w).1.clients ≡ w.clients
unfolding db_get_password_hash run ◌>>=◌
db_get_password_hash-clients e name w =
    elim (Bool-cases (e.prepare w.conn (select_password_hash name))) [
      | inl good ↦ rw good refl
      | inr bad ↦ rw bad refl
    ]

same_text : (t : Text) → text_eq t t ≡ true
same_text [] = refl
same_text (c ∷ t) = ground (arith, same_text t)

get_or-set_same :
    {A B : Type 0} (f : A → B) (xs : List A) (i j : ℕ) (x d : A)
    → f x ≡ f (get_or xs j d)
    → f (get_or (set xs j x) i d) ≡ f (get_or xs i d)
get_or-set_same f [] i j x d same = refl
get_or-set_same f (y ∷ xs) zero zero x d same = same
get_or-set_same f (y ∷ xs) (suc i) zero x d same = refl
get_or-set_same f (y ∷ xs) zero (suc j) x d same = refl
get_or-set_same f (y ∷ xs) (suc i) (suc j) x d same = get_or-set_same f xs i j x d same

-- The messages that follow the login do not change who is logged in.
Stable-LoggedInAs :
    (e : Env) (fd i user_id : ℕ) (name : Text)
    → Stable e (λ w. LoggedInAs e fd i user_id name w.clients)
Stable-LoggedInAs e fd i user_id name = record {
  sends = λ w s h. h;
  runs = λ w sql h. h;
  lists = λ w k h. h;
  views = λ w j v h.
      let c = record (client_at e w j) { current_server_index = v } in
      (
        get_or-set_same (λ c. c.is_authenticated) w.clients i j c no_client refl ∙ h.0,
        get_or-set_same (λ c. c.id) w.clients i j c no_client refl ∙ h.1,
        get_or-set_same (λ c. c.username) w.clients i j c no_client refl ∙ h.2,
        subst (OnlyOn fd user_id) (sym (map-session-set w.clients j c no_client refl)) h.3,
      );
}

finish_login_right :
    (e : Env) (fd user_id i : ℕ) (p : AuthPayload) (db_hash : Text) (v : World e)
    → password_matches e p.password db_hash ≡ true
    → Sockets (map session v.clients)
    → find_fd fd v.clients ≡ some i
    → LoggedInAs e fd i user_id p.username
        (finish_login e fd p (some (user_id, db_hash)) v).1.clients
unfolding finish_login send_auth_reply send ◌>>◌
finish_login_right e fd user_id i p db_hash v right sockets at =
    let stable = Stable-LoggedInAs e fd i user_id p.username in
    rw right (
      (Keeps-notify_all_user_lists e _ stable).at _ (
        (Keeps-notify_server_member_lists_for_user e _ stable user_id).at _
          (OnlyOn-take_over e fd user_id p.username v i sockets at)))

matches_of_hash :
    (e : Env) (password db_hash : Text)
    → e.crypt password db_hash ≡ some db_hash
    → password_matches e password db_hash ≡ true
matches_of_hash e password db_hash right =
    subst
      (λ (o : Option Text).
        (elim o as (λ _. Bool) [ none ↦ false | some hash ↦ text_eq hash db_hash ]) ≡ true)
      (sym right) (same_text db_hash)

-- A login on a socket that has an entry, when every socket is positive and has one entry, the database
-- has an id and a hash for the name, and crypt(3) gives this hash for the password and the hash: the
-- first entry on the socket is logged in as the user under the name, cut at MAX_NAME_LEN - 1 bytes, and
-- no other socket is logged in as the user.
pub login_account-OnlyOn :
    (e : Env) (fd user_id i : ℕ) (p : AuthPayload) (db_hash : Text) (w : World e)
    → Sockets (map session w.clients)
    → find_fd fd w.clients ≡ some i
    → (db_get_password_hash e p.username w).0 ≡ some (user_id, db_hash)
    → e.crypt p.password db_hash ≡ some db_hash
    → LoggedInAs e fd i user_id p.username (login_account e fd p w).1.clients
unfolding login_account ◌>>=◌
login_account-OnlyOn e fd user_id i p db_hash w sockets at found right =
    let v = (db_get_password_hash e p.username w).1 in
    let same = db_get_password_hash-clients e p.username w in
    subst (λ o. LoggedInAs e fd i user_id p.username (finish_login e fd p o v).1.clients)
      (sym found)
      (finish_login_right e fd user_id i p db_hash v (matches_of_hash e p.password db_hash right)
        (subst (λ cs. Sockets (map session cs)) (sym same) sockets) (ap (find_fd fd) same ∙ at))
