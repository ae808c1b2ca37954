-- ===== src/Ui/People/Sort.antt =====
-- The loops that sort the list of users in client/ui.c, against sorting a list.
use mathlib.Core.List.{Perm}
use tizcord.Base.{
  ℕ, zero, suc, ◌+◌, ◌-◌, ◌≤◌, ◌≡◌, refl, sym, ap, ◌∙◌, List, [], ◌∷◌, ◌++◌, if◌then◌else◌, length,
  arith, Bool-cases, inl, inr, take, drop, get_or, set, append_assoc, set-append_at,
  take-append-drop, length-take, length-append,
}
use tizcord.Ui.State.{UiUser, no_user_entry}
use tizcord.Ui.People.{comes_before, exchange, exchange_from, sort_from, sort_users}
use tizcord.Ui.People.Alphabet.{InOrder, InOrder-of_IsSorted}
use tizcord.Ui.People.Order.{
  IsSorted, sweep, exchange_sort, length-sweep, exchange_sort-perm, exchange_sort-IsSorted,
  comes_before-asym, comes_before-through, sweep_swap, sweep_stay, sweep_nil,
}

module _ {A : Type 0} where
  get_at : (i : ℕ) (xs ys : List A) (y d : A) → i ≡ length xs → get_or (xs ++ y ∷ ys) i d ≡ y
  get_at zero [] ys y d h = refl
  get_at zero (x ∷ xs) ys y d h = absurd (omega arith)
  get_at (suc i) [] ys y d h = absurd (omega arith)
  get_at (suc i) (x ∷ xs) ys y d h = get_at i xs ys y d (omega (arith, h))

-- Entries before `x`, `x`, entries between, `y`, and the rest.
abbrev at_two : List UiUser → UiUser → List UiUser → UiUser → List UiUser → List UiUser
at_two pre x mid y rest = pre ++ x ∷ (mid ++ y ∷ rest)

at_two_second :
    (pre : List UiUser) (x : UiUser) (mid : List UiUser) (y : UiUser) (rest : List UiUser)
    → at_two pre x mid y rest ≡ (pre ++ x ∷ mid) ++ y ∷ rest
at_two_second pre x mid y rest = sym (append_assoc pre (x ∷ mid) (y ∷ rest))

module _ (i j : ℕ) (pre mid rest : List UiUser) (hi : i ≡ length pre)
    (hj : j ≡ i + 1 + length mid) where
  second_index : (x : UiUser) → j ≡ length (pre ++ x ∷ mid)
  second_index x = omega (arith, hi, hj, length-append pre (x ∷ mid))

  exchange_pair :
      (x y : UiUser)
      → exchange i j (at_two pre x mid y rest)
        ≡ (if comes_before y x then at_two pre y mid x rest else at_two pre x mid y rest)
  unfolding exchange
  exchange_pair x y =
      let first : get_or (at_two pre x mid y rest) i no_user_entry ≡ x =
        get_at i pre (mid ++ y ∷ rest) x no_user_entry hi in
      let second : get_or (at_two pre x mid y rest) j no_user_entry ≡ y =
        ap (λ us. get_or us j no_user_entry) (at_two_second pre x mid y rest)
        ∙ get_at j (pre ++ x ∷ mid) rest y no_user_entry (second_index x) in
      let write_first : set (at_two pre x mid y rest) i y ≡ at_two pre y mid y rest =
        set-append_at i pre (mid ++ y ∷ rest) x y hi in
      let write_second : set (at_two pre y mid y rest) j x ≡ at_two pre y mid x rest =
        ap (λ us. set us j x) (at_two_second pre y mid y rest)
        ∙ set-append_at j (pre ++ y ∷ mid) rest y x (second_index y)
        ∙ sym (at_two_second pre y mid x rest) in
      rw (first, second, write_first, write_second) refl

regroup :
    (pre mid rest : List UiUser) (a b : UiUser)
    → pre ++ a ∷ (mid ++ b ∷ rest) ≡ pre ++ a ∷ ((mid ++ b ∷ []) ++ rest)
regroup pre mid rest a b = ap (λ t. pre ++ a ∷ t) (sym (append_assoc mid (b ∷ []) rest))

next_index :
    (i j : ℕ) (mid : List UiUser) (b : UiUser)
    → j ≡ i + 1 + length mid
    → suc j ≡ i + 1 + length (mid ++ b ∷ [])
next_index i j mid b h = omega (arith, h, length-append mid (b ∷ []))

-- The inner loop is a sweep.
exchange_from-sweep :
    (zs : List UiUser) (i j : ℕ) (pre : List UiUser) (x : UiUser) (mid post : List UiUser)
    → i ≡ length pre
    → j ≡ i + 1 + length mid
    → exchange_from (length zs) i j (pre ++ x ∷ (mid ++ (zs ++ post)))
      ≡ pre ++ (sweep comes_before x zs).0 ∷ (mid ++ ((sweep comes_before x zs).1 ++ post))
unfolding exchange_from
exchange_from-sweep [] i j pre x mid post hi hj = rw (sweep_nil comes_before x) refl
exchange_from-sweep (y ∷ zs) i j pre x mid post hi hj = elim (Bool-cases (comes_before y x)) [
  | inl h ↦
      let r = sweep comes_before y zs in
      ap (λ us. exchange_from (length zs) i (suc j) us)
        (exchange_pair i j pre mid (zs ++ post) hi hj x y ∙ rw h (regroup pre mid (zs ++ post) y x))
      ∙ exchange_from-sweep zs i (suc j) pre y (mid ++ x ∷ []) post hi (next_index i j mid x hj)
      ∙ sym (regroup pre mid (r.1 ++ post) r.0 x)
      ∙ ap (λ (q : UiUser × List UiUser). pre ++ q.0 ∷ (mid ++ (q.1 ++ post)))
          (sym (sweep_swap comes_before x y zs h))
  | inr h ↦
      let r = sweep comes_before x zs in
      ap (λ us. exchange_from (length zs) i (suc j) us)
        (exchange_pair i j pre mid (zs ++ post) hi hj x y ∙ rw h (regroup pre mid (zs ++ post) x y))
      ∙ exchange_from-sweep zs i (suc j) pre x (mid ++ y ∷ []) post hi (next_index i j mid y hj)
      ∙ sym (regroup pre mid (r.1 ++ post) r.0 y)
      ∙ ap (λ (q : UiUser × List UiUser). pre ++ q.0 ∷ (mid ++ (q.1 ++ post)))
          (sym (sweep_stay comes_before x y zs h))
]

-- The outer loop sorts the entries from `i` on and leaves those before it and behind the count.
sort_from-exchange_sort :
    (n count i : ℕ) (pre xs post : List UiUser)
    → i ≡ length pre
    → count ≡ i + length xs
    → n + 1 ≤ length xs
    → sort_from n count i (pre ++ (xs ++ post)) ≡ pre ++ (exchange_sort comes_before n xs ++ post)
unfolding sort_from exchange_sort
sort_from-exchange_sort zero count i pre xs post hi hc more = refl
sort_from-exchange_sort (suc n) count i pre [] post hi hc more = absurd (omega arith)
sort_from-exchange_sort (suc n) count i pre (x ∷ xs) post hi hc more =
    let r = sweep comes_before x xs in
    let rounds : count - (i + 1) ≡ length xs = omega (arith, hc) in
    ap (λ us. sort_from n count (suc i) us)
      (ap (λ (k : ℕ). exchange_from k i (i + 1) (pre ++ x ∷ (xs ++ post))) rounds
        ∙ exchange_from-sweep xs i (i + 1) pre x [] post hi (omega arith)
        ∙ sym (append_assoc pre (r.0 ∷ []) (r.1 ++ post)))
    ∙ sort_from-exchange_sort n count (suc i) (pre ++ r.0 ∷ []) r.1 post
        (omega (arith, hi, length-append pre (r.0 ∷ [])))
        (omega (arith, hc, length-sweep comes_before x xs))
        (omega (arith, more, length-sweep comes_before x xs))
    ∙ append_assoc pre (r.0 ∷ []) (exchange_sort comes_before n r.1 ++ post)

sort_from_start :
    (n count : ℕ) (users : List UiUser)
    → n + 1 ≡ count
    → count ≤ length users
    → sort_from n count 0 users
      ≡ exchange_sort comes_before n (take count users) ++ drop count users
sort_from_start n count users rounds h =
    ap (λ us. sort_from n count 0 us) (sym (take-append-drop count users))
    ∙ sort_from-exchange_sort n count 0 [] (take count users) (drop count users) refl
        (omega (arith, h, length-take count users))
        (omega (arith, h, rounds, length-take count users))

sort_users-exchange_sort :
    (count : ℕ) (users : List UiUser)
    → count ≤ length users
    → sort_users count users
      ≡ exchange_sort comes_before (count - 1) (take count users) ++ drop count users
unfolding sort_users sort_from exchange_sort
sort_users-exchange_sort zero users h = refl
sort_users-exchange_sort (suc count) users h =
    sort_from_start (suc count - 1) (suc count) users (omega arith) h

pub sort_users-comes_before :
    (count : ℕ) (users : List UiUser)
    → count ≤ length users
    → (sorted : List UiUser) × (sort_users count users ≡ sorted ++ drop count users)
      × IsSorted comes_before sorted
      × Perm sorted (take count users)
sort_users-comes_before count users h = (
  exchange_sort comes_before (count - 1) (take count users),
  sort_users-exchange_sort count users h,
  exchange_sort-IsSorted comes_before comes_before-asym comes_before-through (count - 1)
      (take count users) (omega (arith, length-take count users)),
  exchange_sort-perm comes_before (count - 1) (take count users),
)

-- The loops rearrange the users in use, so that each stands before those of a smaller flag of being
-- online, read as an int, and among equal flags before those whose name is not less, byte by byte in
-- lower case. The entries behind them stay as they were.
pub sort_users-IsSorted :
    (count : ℕ) (users : List UiUser)
    → count ≤ length users
    → (sorted : List UiUser) × (sort_users count users ≡ sorted ++ drop count users)
      × InOrder sorted
      × Perm sorted (take count users)
sort_users-IsSorted count users h =
    let (sorted, eq, ordered, perm) = sort_users-comes_before count users h in
    (sorted, eq, InOrder-of_IsSorted sorted ordered, perm)
