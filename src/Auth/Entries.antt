-- ===== src/Auth/Entries.antt =====
-- Lists of sessions that lose an entry or get one at the end.
use mathlib.Core.Bool.{false≢true}
use tizcord.Base.{
  ℕ, zero, suc, ◌≤◌, ◌<◌, ◌≡◌, ◌≢◌, refl, sym, ap, ◌∙◌, List, [], ◌∷◌, ◌++◌, map, false, All,
  length, arith, remove_at,
}
use tizcord.Db.World.{ClientNode}
use tizcord.Auth.Sessions.{Session, session, Unique, Sockets, Apart}

module _ {ℓ κ} {A : Type ℓ} (P : A → Type κ) where
  pub All-remove_at : (xs : List A) (i : ℕ) → All P xs → All P (remove_at xs i)
  All-remove_at [] i h = h
  All-remove_at (x ∷ xs) zero h = h.1
  All-remove_at (x ∷ xs) (suc i) h = (h.0, All-remove_at xs i h.1)

module _ {Byte : Type 0} where
  pub map_remove :
      (cs : List (ClientNode Byte)) (i : ℕ)
      → map session (remove_at cs i) ≡ remove_at (map session cs) i
  map_remove [] i = refl
  map_remove (c ∷ cs) zero = refl
  map_remove (c ∷ cs) (suc i) = ap (λ t. session c ∷ t) (map_remove cs i)

  pub map_append :
      (cs ds : List (ClientNode Byte)) → map session (cs ++ ds) ≡ map session cs ++ map session ds
  map_append [] ds = refl
  map_append (c ∷ cs) ds = ap (λ t. session c ∷ t) (map_append cs ds)

pub length_remove : {A : Type 0} (xs : List A) (i : ℕ) → length (remove_at xs i) ≤ length xs
length_remove [] i = omega arith
length_remove (x ∷ xs) zero = omega arith
length_remove (x ∷ xs) (suc i) = omega (arith, length_remove xs i)

pub length_snoc : {A : Type 0} (xs : List A) (x : A) → length (xs ++ x ∷ []) ≡ suc (length xs)
length_snoc [] x = refl
length_snoc (y ∷ xs) x = ap suc (length_snoc xs x)

pub Sockets-remove_at : (ss : List Session) (i : ℕ) → Sockets ss → Sockets (remove_at ss i)
Sockets-remove_at [] i h = h
Sockets-remove_at (s ∷ ss) zero h = h.2
Sockets-remove_at (s ∷ ss) (suc i) h =
    (h.0, All-remove_at (λ t. s.fd ≢ t.fd) ss i h.1, Sockets-remove_at ss i h.2)

pub Unique-remove_at : (ss : List Session) (i : ℕ) → Unique ss → Unique (remove_at ss i)
Unique-remove_at [] i h = h
Unique-remove_at (s ∷ ss) zero h = h.1
Unique-remove_at (s ∷ ss) (suc i) h = (All-remove_at (Apart s) ss i h.0, Unique-remove_at ss i h.1)

-- accept(2) gives a positive descriptor that no open socket has.
abbrev pub IsFresh : ℕ → List Session → Type 0
IsFresh fd ss = (0 < fd) × All (λ s. s.fd ≢ fd) ss

pub All-snoc :
    (P : Session → Type 0) (ss : List Session) (s : Session) → All P ss → P s → All P (ss ++ s ∷ [])
All-snoc P [] s h p = (p, tt)
All-snoc P (t ∷ ss) s h p = (h.0, All-snoc P ss s h.1 p)

pub Sockets-snoc :
    (ss : List Session) (s : Session) → IsFresh s.fd ss → Sockets ss → Sockets (ss ++ s ∷ [])
Sockets-snoc [] s f h = (f.0, tt, tt)
Sockets-snoc (t ∷ ss) s f h =
    (h.0, All-snoc (λ k. t.fd ≢ k.fd) ss s h.1 f.1.0, Sockets-snoc ss s (f.0, f.1.1) h.2)

pub Unique-snoc :
    (ss : List Session) (s : Session) → s.authenticated ≡ false → Unique ss → Unique (ss ++ s ∷ [])
Unique-snoc [] s out h = (tt, tt)
Unique-snoc (t ∷ ss) s out h = (
  All-snoc (Apart t) ss s h.0 (λ a b. absurd (false≢true (sym out ∙ b))),
  Unique-snoc ss s out h.1,
)
