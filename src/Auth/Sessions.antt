-- ===== src/Auth/Sessions.antt =====
-- The logins that the entries of the clients hold, and what the changes of server/auth.c to an
-- entry do to them.
use mathlib.Core.Bool.{false≢true}
use tizcord.Base.{
  ◌∙◌, ℕ, zero, suc, ◌<◌, ◌≡◌, ◌≢◌, refl, ap, List, [], ◌∷◌, map, Bool, true, false, some,
  if◌then◌else◌, Text, arith, All, ◌==◌, get_or, set, Bool-cases, inl, inr, sym, ==_iff,
}
use tizcord.Db.World.{ClientNode}
use tizcord.Auth.{clear_client_session, log_in, is_revoked}
use tizcord.Chat.Channel.{find_fd}

pub record Session : Type 0 where
  pub fd : ℕ
  pub id : ℕ
  pub authenticated : Bool

abbrev pub session : {Byte : Type 0} → ClientNode Byte → Session
session c = record { fd = c.socket_fd; id = c.id; authenticated = c.is_authenticated }

-- Two entries are not logged in as the same user.
abbrev pub Apart : Session → Session → Type 0
Apart s t = s.authenticated ≡ true → t.authenticated ≡ true → s.id ≢ t.id

-- No user is logged in twice.
abbrev pub Unique : List Session → Type 0
Unique [] = Unit
Unique (s ∷ ss) = All (Apart s) ss × Unique ss

-- The sockets are positive and no two entries have the same.
abbrev pub Sockets : List Session → Type 0
Sockets [] = Unit
Sockets (s ∷ ss) = (0 < s.fd) × All (λ t. s.fd ≢ t.fd) ss × Sockets ss

-- What holds of each entry that is logged in.
abbrev pub LoggedIn : (ℕ → Type 0) → List Session → Type 0
LoggedIn K ss = All (λ s. s.authenticated ≡ true → K s.id) ss

-- Nobody but the socket is logged in as the user.
abbrev pub OnlyOn : ℕ → ℕ → List Session → Type 0
OnlyOn fd user_id ss = All (λ s. s.authenticated ≡ true → s.id ≡ user_id → s.fd ≡ fd) ss

-- A change of the first entry on a socket.
abbrev pub update_first :
    {Byte : Type 0}
    → ℕ
    → (ClientNode Byte → ClientNode Byte)
    → List (ClientNode Byte)
    → List (ClientNode Byte)
update_first fd f [] = []
update_first fd f (c ∷ cs) =
    let rest = update_first fd f cs in if c.socket_fd == fd then f c ∷ cs else c ∷ rest

module _ {Byte : Type 0} where
  pub map-session-set :
      (cs : List (ClientNode Byte)) (i : ℕ) (c d : ClientNode Byte)
      → session c ≡ session (get_or cs i d)
      → map session (set cs i c) ≡ map session cs
  map-session-set [] i c d h = refl
  map-session-set (x ∷ cs) zero c d h = ap (λ s. s ∷ map session cs) h
  map-session-set (x ∷ cs) (suc i) c d h = ap (λ ss. session x ∷ ss) (map-session-set cs i c d h)

  -- Writing at the index that `find_fd` gives changes the first entry on the socket.
  pub set-find_fd :
      (fd i : ℕ) (f : ClientNode Byte → ClientNode Byte) (cs : List (ClientNode Byte))
      (d : ClientNode Byte)
      → find_fd fd cs ≡ some i
      → set cs i (f (get_or cs i d)) ≡ update_first fd f cs
  set-find_fd fd i f [] d h = cc
  set-find_fd fd zero f (c ∷ cs) d h = ground arith
  set-find_fd fd (suc i) f (c ∷ cs) d h = ground (arith, set-find_fd fd i f cs d)

  pub All-update_first :
      (P : Session → Type 0) (fd : ℕ) (f : ClientNode Byte → ClientNode Byte)
      (cs : List (ClientNode Byte))
      → ((c : ClientNode Byte) → c.socket_fd ≡ fd → P (session c) → P (session (f c)))
      → All P (map session cs)
      → All P (map session (update_first fd f cs))
  All-update_first P fd f [] keep h = tt
  All-update_first P fd f (c ∷ cs) keep h = elim (Bool-cases (c.socket_fd == fd)) [
    | inl hit ↦ rw hit (keep c ((==_iff _ _).0 hit) h.0, h.1)
    | inr miss ↦ rw miss (h.0, All-update_first P fd f cs keep h.1)
  ]

  out_not_in : (c : ClientNode Byte) → c.is_authenticated ≡ false → ¬ (c.is_authenticated ≡ true)
  out_not_in c out a = cc

  All-of_out :
      (c : ClientNode Byte)
      → c.is_authenticated ≡ false
      → (ss : List Session) → All (Apart (session c)) ss
  All-of_out c out [] = tt
  All-of_out c out (s ∷ ss) = (λ a b. absurd (out_not_in c out a), All-of_out c out ss)

  pub Sockets-update_first :
      (fd : ℕ) (f : ClientNode Byte → ClientNode Byte) (cs : List (ClientNode Byte))
      → ((c : ClientNode Byte) → (f c).socket_fd ≡ c.socket_fd)
      → Sockets (map session cs)
      → Sockets (map session (update_first fd f cs))
  Sockets-update_first fd f [] same h = tt
  Sockets-update_first fd f (c ∷ cs) same h = elim (Bool-cases (c.socket_fd == fd)) [
    | inl hit ↦ rw (hit, same c) h
    | inr miss ↦ rw miss (
      h.0,
      All-update_first (λ t. c.socket_fd ≢ t.fd) fd f cs (λ d at k. rw (same d) k) h.1,
      Sockets-update_first fd f cs same h.2,
    )
  ]

  -- Logging out the first entry on a socket.
  pub Unique-update_first_out :
      (fd : ℕ) (f : ClientNode Byte → ClientNode Byte) (cs : List (ClientNode Byte))
      → ((c : ClientNode Byte) → (f c).is_authenticated ≡ false)
      → Unique (map session cs)
      → Unique (map session (update_first fd f cs))
  Unique-update_first_out fd f [] out h = tt
  Unique-update_first_out fd f (c ∷ cs) out h = elim (Bool-cases (c.socket_fd == fd)) [
    | inl hit ↦ rw hit (All-of_out (f c) (out c) (map session cs), h.1)
    | inr miss ↦ rw miss (
      All-update_first (Apart (session c)) fd f cs
          (λ d at k a b. absurd (out_not_in (f d) (out d) b)) h.0,
      Unique-update_first_out fd f cs out h.1,
    )
  ]

  Apart-of_log_in :
      (fd user_id : ℕ) (name : Text) (c : ClientNode Byte) (ss : List Session)
      → c.socket_fd ≡ fd
      → All (λ t. c.socket_fd ≢ t.fd) ss
      → OnlyOn fd user_id ss
      → All (Apart (session (log_in user_id name c))) ss
  Apart-of_log_in fd user_id name c [] on h only = tt
  Apart-of_log_in fd user_id name c (s ∷ ss) on h only = (
    λ _ b same. h.0 (on ∙ sym (only.0 b (sym same))),
    Apart-of_log_in fd user_id name c ss on h.1 only.1,
  )

  -- Logging in the first entry on a socket, where no other is logged in as the user.
  pub Unique-update_first_in :
      (fd user_id : ℕ) (name : Text) (cs : List (ClientNode Byte))
      → Sockets (map session cs)
      → OnlyOn fd user_id (map session cs)
      → Unique (map session cs)
      → Unique (map session (update_first fd (log_in user_id name) cs))
  Unique-update_first_in fd user_id name [] so only h = tt
  Unique-update_first_in fd user_id name (c ∷ cs) so only h =
      elim (Bool-cases (c.socket_fd == fd)) [
        | inl hit ↦ rw hit (
          Apart-of_log_in fd user_id name c (map session cs) ((==_iff _ _).0 hit) so.1 only.1,
          h.1,
        )
        | inr miss ↦ rw miss (
          All-update_first (Apart (session c)) fd (log_in user_id name) cs
              (λ d at k a b same. false≢true (sym miss ∙ (==_iff _ _).1 (only.0 a same))) h.0,
          Unique-update_first_in fd user_id name cs so.2 only.1 h.1,
        )
      ]

  -- The revocation of one entry.
  abbrev pub revoked : ℕ → ℕ → ClientNode Byte → ClientNode Byte
  revoked fd user_id c = if is_revoked fd user_id c then clear_client_session c else c

  pub All-map-revoked :
      (P : Session → Type 0) (fd user_id : ℕ) (cs : List (ClientNode Byte))
      → ((c : ClientNode Byte) → P (session c) → P (session (clear_client_session c)))
      → All P (map session cs)
      → All P (map session (map (revoked fd user_id) cs))
  All-map-revoked P fd user_id [] keep h = tt
  All-map-revoked P fd user_id (c ∷ cs) keep h =
      (revoked_case (is_revoked fd user_id c), All-map-revoked P fd user_id cs keep h.1)
    where
      revoked_case : (b : Bool) → P (session (if b then clear_client_session c else c))
      revoked_case true = keep c h.0
      revoked_case false = h.0

  pub Sockets-map-revoked :
      (fd user_id : ℕ) (cs : List (ClientNode Byte))
      → Sockets (map session cs)
      → Sockets (map session (map (revoked fd user_id) cs))
  Sockets-map-revoked fd user_id [] h = tt
  Sockets-map-revoked fd user_id (c ∷ cs) h = elim (Bool-cases (is_revoked fd user_id c)) [
    | inl out ↦ rw out (
      h.0,
      All-map-revoked (λ t. c.socket_fd ≢ t.fd) fd user_id cs (λ d k. k) h.1,
      Sockets-map-revoked fd user_id cs h.2,
    )
    | inr stays ↦ rw stays (
      h.0,
      All-map-revoked (λ t. c.socket_fd ≢ t.fd) fd user_id cs (λ d k. k) h.1,
      Sockets-map-revoked fd user_id cs h.2,
    )
  ]

  pub Unique-map-revoked :
      (fd user_id : ℕ) (cs : List (ClientNode Byte))
      → Unique (map session cs)
      → Unique (map session (map (revoked fd user_id) cs))
  Unique-map-revoked fd user_id [] h = tt
  Unique-map-revoked fd user_id (c ∷ cs) h = elim (Bool-cases (is_revoked fd user_id c)) [
    | inl out ↦ rw out (
      All-of_out (clear_client_session c) refl (map session (map (revoked fd user_id) cs)),
      Unique-map-revoked fd user_id cs h.1,
    )
    | inr stays ↦ rw stays (
      All-map-revoked (Apart (session c)) fd user_id cs (λ d k a b. absurd (false≢true b)) h.0,
      Unique-map-revoked fd user_id cs h.1,
    )
  ]

  -- After the revocation nobody but the socket is logged in as the user.
  pub OnlyOn-map-revoked :
      (fd user_id : ℕ) (cs : List (ClientNode Byte))
      → Sockets (map session cs)
      → OnlyOn fd user_id (map session (map (revoked fd user_id) cs))
  OnlyOn-map-revoked fd user_id [] h = tt
  OnlyOn-map-revoked fd user_id (c ∷ cs) h =
      (λ a same. ground (arith, h.0), OnlyOn-map-revoked fd user_id cs h.2)
