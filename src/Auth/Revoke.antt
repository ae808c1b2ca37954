-- ===== src/Auth/Revoke.antt =====
-- `revoke_existing_login` and `link_identity` of server/auth.c as changes of the list of clients.
use tizcord.Base.{
  ℕ, zero, suc, ◌-◌, ◌^◌, Bool, true, false, not, ◌&&◌, ◌||◌, ◌==◌, if◌then◌else◌, ◌≡◌, refl, ap,
  ◌∙◌, sym, List, [], ◌∷◌, ◌++◌, map, none, Text, arith, length, get_or, set, for_range, Bool-cases,
  inl, inr, Option-cases, ◌>>=◌,
}
use tizcord.Db.Env.{Env}
use tizcord.Db.World.{World, ClientNode, send, client_at, no_client}
use tizcord.Chat.Channel.{find_fd}
use tizcord.Auth.{
  clear_client_session, log_in, is_revoked, clear_session_at, revoke_at, revoke_existing_login,
  link_at, link_identity,
}
use tizcord.Auth.Sessions.{revoked, update_first, set-find_fd}

module _ {ℓ} {A : Type ℓ} where
  pub get_or-append : (xs ys : List A) (y d : A) → get_or (xs ++ y ∷ ys) (length xs) d ≡ y
  get_or-append [] ys y d = refl
  get_or-append (x ∷ xs) ys y d = get_or-append xs ys y d

  pub set-append : (xs ys : List A) (y v : A) → set (xs ++ y ∷ ys) (length xs) v ≡ xs ++ v ∷ ys
  set-append [] ys y v = refl
  set-append (x ∷ xs) ys y v = ap (λ t. x ∷ t) (set-append xs ys y v)

  append_step : (xs ys : List A) (y : A) → (xs ++ y ∷ []) ++ ys ≡ xs ++ y ∷ ys
  append_step [] ys y = refl
  append_step (x ∷ xs) ys y = ap (λ t. x ∷ t) (append_step xs ys y)

  length_step : (xs : List A) (y : A) → length (xs ++ y ∷ []) ≡ suc (length xs)
  length_step [] y = refl
  length_step (x ∷ xs) y = ap suc (length_step xs y)

-- An entry of another open socket that is logged in as the user loses its login.
abbrev pub without_older_login : {Byte : Type 0} → ℕ → ℕ → ClientNode Byte → ClientNode Byte
without_older_login fd user_id c =
    if c.is_authenticated && c.id == user_id && not (c.socket_fd == fd) && not (c.socket_fd == 0)
    then record c {
      is_authenticated = false;
      id = 0;
      username = [];
      membership = [];
      joined_server_count = 0;
      current_server_index = 2 ^ 32 - 1;
    }
    else c

-- With `k` for the closed socket and `m` for the current one.
same_test : (a b k m : Bool) → (not (k || m) && not (not a || not b)) ≡ (a && b && not m && not k)
same_test false b false false = refl
same_test false b false true = refl
same_test false b true false = refl
same_test false b true true = refl
same_test true true false false = refl
same_test true true false true = refl
same_test true true true false = refl
same_test true true true true = refl
same_test true false false false = refl
same_test true false false true = refl
same_test true false true false = refl
same_test true false true true = refl

map-revoked :
    {Byte : Type 0} (fd user_id : ℕ) (cs : List (ClientNode Byte))
    → map (revoked fd user_id) cs ≡ map (without_older_login fd user_id) cs
map-revoked fd user_id [] = refl
map-revoked fd user_id (c ∷ cs) =
    ap (λ ds. revoked fd user_id c ∷ ds) (map-revoked fd user_id cs)
    ∙ ap
        (λ (b : Bool).
          (if b then clear_client_session c else c) ∷ map (without_older_login fd user_id) cs)
        (same_test c.is_authenticated (c.id == user_id) (c.socket_fd == 0) (c.socket_fd == fd))

module _ (e : Env) (fd user_id : ℕ) (name : Text) where
  -- One round of the loop, where the entries before it are done.
  revoke_at_clients :
      (ys zs : List (ClientNode e.abi.Byte)) (z : ClientNode e.abi.Byte) (w : World e)
      → w.clients ≡ ys ++ z ∷ zs
      → (revoke_at e fd user_id name (length ys) w).1.clients ≡ ys ++ revoked fd user_id z ∷ zs
  unfolding revoke_at clear_session_at send ◌>>=◌
  revoke_at_clients ys zs z w on =
      let at : client_at e w (length ys) ≡ z =
        ap (λ cs. get_or cs (length ys) no_client) on ∙ get_or-append ys zs z no_client in
      elim (Bool-cases (is_revoked fd user_id z)) [
        | inl hit ↦ rw (at, on, hit) (set-append ys zs z (clear_client_session z))
        | inr miss ↦ rw (at, on, miss) refl
      ]

  revoke_at_conn : (i : ℕ) (w : World e) → (revoke_at e fd user_id name i w).1.conn ≡ w.conn
  unfolding revoke_at clear_session_at send ◌>>=◌
  revoke_at_conn i w = elim (Bool-cases (is_revoked fd user_id (client_at e w i))) [
    | inl hit ↦ rw hit refl
    | inr miss ↦ rw miss refl
  ]

  revoke_clients :
      (zs ys : List (ClientNode e.abi.Byte)) (w : World e)
      → w.clients ≡ ys ++ zs
      → (for_range (length zs) (length ys) (revoke_at e fd user_id name) w).1.clients
        ≡ ys ++ map (revoked fd user_id) zs
  unfolding for_range
  revoke_clients [] ys w on = on
  revoke_clients (z ∷ zs) ys w on =
      let w' = (revoke_at e fd user_id name (length ys) w).1 in
      let z' = revoked fd user_id z in
      let on' : w'.clients ≡ (ys ++ z' ∷ []) ++ zs =
        revoke_at_clients ys zs z w on ∙ sym (append_step ys zs z') in
      ap (λ (k : ℕ). (for_range (length zs) k (revoke_at e fd user_id name) w').1.clients)
        (sym (length_step ys z'))
      ∙ revoke_clients zs (ys ++ z' ∷ []) w' on'
      ∙ append_step ys (map (revoked fd user_id) zs) z'

  revoke_conn :
      (n i : ℕ) (w : World e) → (for_range n i (revoke_at e fd user_id name) w).1.conn ≡ w.conn
  unfolding for_range
  revoke_conn zero i w = refl
  revoke_conn (suc n) i w = revoke_conn n (suc i) _ ∙ revoke_at_conn i w

  pub revoke_existing_login-revoked :
      (w : World e)
      → (revoke_existing_login e fd user_id name w).1.clients ≡ map (revoked fd user_id) w.clients
  unfolding revoke_existing_login
  revoke_existing_login-revoked w = revoke_clients w.clients [] w refl

  -- The loop that revokes a user's older logins clears the login of each entry that is logged in as the
  -- user on an open socket other than the current one, that is the flag, the id, the name, the list of
  -- joined servers and its count and the index of the current server (-1), in its place, and leaves
  -- every other entry as it was.
  pub revoke_existing_login-map :
      (w : World e)
      → (revoke_existing_login e fd user_id name w).1.clients
        ≡ map (without_older_login fd user_id) w.clients
  revoke_existing_login-map w = revoke_existing_login-revoked w ∙ map-revoked fd user_id w.clients

  pub revoke_existing_login-conn :
      (w : World e) → (revoke_existing_login e fd user_id name w).1.conn ≡ w.conn
  unfolding revoke_existing_login
  revoke_existing_login-conn w = revoke_conn (length w.clients) 0 w

  update_first-none :
      (f : ClientNode e.abi.Byte → ClientNode e.abi.Byte) (cs : List (ClientNode e.abi.Byte))
      → find_fd fd cs ≡ none
      → update_first fd f cs ≡ cs
  update_first-none f [] h = refl
  update_first-none f (c ∷ cs) h = ground (arith, update_first-none f cs)

  pub link_identity-update_first :
      (w : World e)
      → (link_identity e fd user_id name w).1.clients
        ≡ update_first fd (log_in user_id name) w.clients
  unfolding link_identity link_at
  link_identity-update_first w = elim (Option-cases (find_fd fd w.clients)) [
    | inl gone ↦ rw gone (sym (update_first-none (log_in user_id name) w.clients gone))
    | inr (i, at) ↦ rw at (set-find_fd fd i (log_in user_id name) w.clients no_client at)
  ]

  pub link_identity-conn : (w : World e) → (link_identity e fd user_id name w).1.conn ≡ w.conn
  unfolding link_identity link_at
  link_identity-conn w = elim (Option-cases (find_fd fd w.clients)) [
    | inl gone ↦ rw gone refl
    | inr (i, at) ↦ rw at refl
  ]
