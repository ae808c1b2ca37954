-- ===== src/Ui/People/Order.antt =====
-- The order of the list of users in client/ui.c, online first and then by name without case, and an
-- exchange sort on lists that the loops of the code are compared with.
use mathlib.Core.List.{Perm}
use mathlib.Core.List.Perm
use tizcord.Base.{
  ℕ, zero, suc, ◌+◌, ◌≤◌, ◌≡◌, refl, List, [], ◌∷◌, Text, Bool, true, false, if◌then◌else◌, length,
  arith, All, Bool-cases, inl, inr,
}
use tizcord.Ui.State.{UiUser}
use tizcord.Ui.People.{case_less, comes_before}

-- No later entry comes before an earlier one.
abbrev pub IsSorted {ℓ} : {A : Type ℓ} → (A → A → Bool) → List A → Type ℓ
IsSorted before [] = Unit
IsSorted before (x ∷ xs) = All (λ y. before y x ≡ false) xs × IsSorted before xs

module _ {A : Type 0} (before : A → A → Bool) where
  -- One round of the outer loop: the least entry comes to the front, and the others are exchanged on
  -- the way.
  unfoldable pub sweep : A → List A → A × List A
  sweep x [] = (x, [])
  sweep x (y ∷ ys) =
      let r = sweep (if before y x then y else x) ys in (r.0, (if before y x then x else y) ∷ r.1)

  unfoldable pub exchange_sort : ℕ → List A → List A
  unfolding sweep
  exchange_sort zero xs = xs
  exchange_sort (suc n) [] = []
  exchange_sort (suc n) (x ∷ xs) = (sweep x xs).0 ∷ exchange_sort n (sweep x xs).1

  pub length-sweep : (x : A) (xs : List A) → length (sweep x xs).1 ≡ length xs
  unfolding sweep
  length-sweep x [] = refl
  length-sweep x (y ∷ ys) = omega (arith, length-sweep (if before y x then y else x) ys)

  pub sweep_swap :
      (x y : A) (ys : List A)
      → before y x ≡ true
      → sweep x (y ∷ ys) ≡ ((sweep y ys).0, x ∷ (sweep y ys).1)
  unfolding sweep
  sweep_swap x y ys h = rw h refl

  pub sweep_stay :
      (x y : A) (ys : List A)
      → before y x ≡ false
      → sweep x (y ∷ ys) ≡ ((sweep x ys).0, y ∷ (sweep x ys).1)
  unfolding sweep
  sweep_stay x y ys h = rw h refl

  pub sweep_nil : (x : A) → sweep x [] ≡ (x, [])
  unfolding sweep
  sweep_nil x = refl

  sweep-perm : (x : A) (xs : List A) → Perm ((sweep x xs).0 ∷ (sweep x xs).1) (x ∷ xs)
  sweep-perm x [] = rw (sweep_nil x) (Perm.refl (x ∷ []))
  sweep-perm x (y ∷ ys) = elim (Bool-cases (before y x)) [
    | inl h ↦
        let r = sweep y ys in
        rw (sweep_swap x y ys h) (Perm.trans (Perm.swap x r.0 r.1) (Perm.cons x (sweep-perm y ys)))
    | inr h ↦
        let r = sweep x ys in
        rw (sweep_stay x y ys h) (
          Perm.trans (Perm.swap y r.0 r.1)
            (Perm.trans (Perm.cons y (sweep-perm x ys)) (Perm.swap x y ys)))
  ]

  pub exchange_sort-perm : (n : ℕ) (xs : List A) → Perm (exchange_sort n xs) xs
  unfolding exchange_sort
  exchange_sort-perm zero xs = Perm.refl xs
  exchange_sort-perm (suc n) [] = Perm.refl []
  exchange_sort-perm (suc n) (x ∷ xs) =
      Perm.trans (Perm.cons (sweep x xs).0 (exchange_sort-perm n (sweep x xs).1)) (sweep-perm x xs)

  All-sweep :
      (P : A → Type 0) (x : A) (xs : List A)
      → P x
      → All P xs
      → P (sweep x xs).0 × All P (sweep x xs).1
  unfolding sweep
  All-sweep P x [] p h = (p, tt)
  All-sweep P x (y ∷ ys) p h = elim (Bool-cases (before y x)) [
    | inl swap ↦ rw swap (let r = All-sweep P y ys h.0 h.1 in (r.0, (p, r.1)))
    | inr stay ↦ rw stay (let r = All-sweep P x ys p h.1 in (r.0, (h.0, r.1)))
  ]

  All-exchange_sort : (P : A → Type 0) (n : ℕ) (xs : List A) → All P xs → All P (exchange_sort n xs)
  unfolding exchange_sort
  All-exchange_sort P zero xs h = h
  All-exchange_sort P (suc n) [] h = h
  All-exchange_sort P (suc n) (x ∷ xs) h =
      let r = All-sweep P x xs h.0 h.1 in (r.0, All-exchange_sort P n (sweep x xs).1 r.1)

  module _ (asym : (x y : A) → before x y ≡ true → before y x ≡ false)
      (through : (x y z : A) → before x y ≡ false → before y z ≡ false → before x z ≡ false) where
    irrefl : (x : A) → before x x ≡ false
    irrefl x = elim (Bool-cases (before x x)) [ inl h ↦ asym x x h | inr h ↦ h ]

    sweep-least :
        (x : A) (xs : List A)
        → (before x (sweep x xs).0 ≡ false)
          × All (λ y. before y (sweep x xs).0 ≡ false) (sweep x xs).1
    sweep-least x [] = rw (sweep_nil x) (irrefl x, tt)
    sweep-least x (y ∷ ys) = elim (Bool-cases (before y x)) [
      | inl h ↦ rw (sweep_swap x y ys h) (
          let r = sweep-least y ys in
          let last = through x y (sweep y ys).0 (asym y x h) r.0 in (last, (last, r.1)))
      | inr h ↦
          rw (sweep_stay x y ys h)
            (let r = sweep-least x ys in (r.0, (through y x (sweep x ys).0 h r.0, r.1)))
    ]

    pub exchange_sort-IsSorted :
        (n : ℕ) (xs : List A) → length xs ≤ n + 1 → IsSorted before (exchange_sort n xs)
    unfolding exchange_sort
    exchange_sort-IsSorted zero [] h = tt
    exchange_sort-IsSorted zero (x ∷ []) h = (tt, tt)
    exchange_sort-IsSorted zero (x ∷ y ∷ xs) h = absurd (omega arith)
    exchange_sort-IsSorted (suc n) [] h = tt
    exchange_sort-IsSorted (suc n) (x ∷ xs) h = (
      All-exchange_sort (λ y. before y (sweep x xs).0 ≡ false) n (sweep x xs).1
          (sweep-least x xs).1,
      exchange_sort-IsSorted n (sweep x xs).1 (omega (arith, length-sweep x xs)),
    )

case_less-asym : (s t : Text) → case_less s t ≡ true → case_less t s ≡ false
unfolding case_less
case_less-asym [] [] h = refl
case_less-asym [] (b ∷ t) h = refl
case_less-asym (a ∷ s) [] h = ground arith
case_less-asym (a ∷ s) (b ∷ t) h = ground (arith, case_less-asym s t)

case_less-through :
    (s t r : Text) → case_less s t ≡ false → case_less t r ≡ false → case_less s r ≡ false
unfolding case_less
case_less-through [] [] r h k = k
case_less-through [] (b ∷ t) r h k = ground arith
case_less-through (a ∷ s) [] [] h k = refl
case_less-through (a ∷ s) [] (c ∷ r) h k = ground arith
case_less-through (a ∷ s) (b ∷ t) [] h k = refl
case_less-through (a ∷ s) (b ∷ t) (c ∷ r) h k = ground (arith, case_less-through s t r)

pub comes_before-asym : (x y : UiUser) → comes_before x y ≡ true → comes_before y x ≡ false
unfolding comes_before
comes_before-asym x y h = ground (arith, case_less-asym x.username y.username)

pub comes_before-through :
    (x y z : UiUser)
    → comes_before x y ≡ false
    → comes_before y z ≡ false
    → comes_before x z ≡ false
unfolding comes_before
comes_before-through x y z h k = ground (arith, case_less-through x.username y.username z.username)
