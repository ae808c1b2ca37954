-- ===== src/Base/State.antt =====
-- Code that reads and writes one state, as a function of it, and loops over such code.
use Prim.Native.Nat.{ℕ, zero, suc}
use mathlib.Core.List.{List, [], ◌∷◌}

unfoldable pub pure {ℓ κ} : {S : Type ℓ} {A : Type κ} → A → S → A × S
pure a s = (a, s)

unfoldable pub gets {ℓ κ} : {S : Type ℓ} {A : Type κ} → (S → A) → S → A × S
gets f s = (f s, s)

unfoldable pub modify {ℓ} : {S : Type ℓ} → (S → S) → S → Unit {0} × S
modify f s = (tt, f s)

infixl 5 ◌>>=◌ ◌>>◌
-- A statement whose value is not used.
unfoldable pub ◌>>◌ {ℓ κ μ} :
    {S : Type ℓ} {A : Type κ} {B : Type μ} → (S → A × S) → (S → B × S) → S → B × S
◌>>◌ m k s = k (m s).1

-- Opening this opens the other ways to build an action.
unfoldable pub ◌>>=◌ {ℓ κ μ} :
    {S : Type ℓ} {A : Type κ} {B : Type μ} → (S → A × S) → (A → S → B × S) → S → B × S
unfolding pure gets modify ◌>>◌
◌>>=◌ m f s = f (m s).0 (m s).1

-- for (k = i; k < i + n; k++) body(k)
unfoldable pub for_range {ℓ} : {S : Type ℓ} → ℕ → ℕ → (ℕ → S → Unit {0} × S) → S → Unit {0} × S
for_range zero i body s = (tt, s)
for_range (suc n) i body s = for_range n (suc i) body (body i s).1

-- A predicate that every round keeps holds at the end.
pub for_range_inv {ℓ κ} :
    {S : Type ℓ} (P : S → Type κ) (body : ℕ → S → Unit {0} × S)
    → ((i : ℕ) (s : S) → P s → P (body i s).1)
    → (n i : ℕ) (s : S) → P s
    → P (for_range n i body s).1
unfolding for_range
for_range_inv P body keep zero i s h = h
for_range_inv P body keep (suc n) i s h =
    for_range_inv P body keep n (suc i) (body i s).1 (keep i s h)

-- A callback called on each item in turn, with the data that it updates.
unfoldable pub for_each {ℓ κ μ} :
    {X : Type ℓ} {A : Type κ} {S : Type μ} → (X → A → S → A × S) → List X → A → S → A × S
for_each f [] a s = (a, s)
for_each f (x ∷ xs) a s = for_each f xs (f x a s).0 (f x a s).1

pub for_each_inv {ℓ κ μ ν} :
    {X : Type ℓ} {A : Type κ} {S : Type μ} (P : S → Type ν) (f : X → A → S → A × S)
    → ((x : X) (a : A) (s : S) → P s → P (f x a s).1)
    → (xs : List X) (a : A) (s : S) → P s
    → P (for_each f xs a s).1
unfolding for_each
for_each_inv P f keep [] a s h = h
for_each_inv P f keep (x ∷ xs) a s h =
    for_each_inv P f keep xs (f x a s).0 (f x a s).1 (keep x a s h)
