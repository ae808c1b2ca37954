-- ===== src/Ui/Delivery/Fill.antt =====
-- Entries put into the client's array of users one by one, and sorted when the list ends.
use tizcord.Base.{
  ℕ, zero, suc, ◌+◌, ◌-◌, ◌≤◌, ◌<◌, ◌≡◌, refl, sym, ap, ◌∙◌, subst, List, [], ◌∷◌, ◌++◌, true,
  false, if◌then◌else◌, length, take, set, arith, Bool-cases, inl, inr, ltb, append-nil,
  append_assoc, length-set, length-take, length-append, take-append-drop, drop,
}
use mathlib.Core.List.{Perm}
use tizcord.Ui.State.{Ui, UiUser, max_all_users}
use tizcord.Ui.People.{sort_users, comes_before}
use tizcord.Ui.People.Order.{IsSorted}
use tizcord.Ui.People.Sort.{sort_users-comes_before}
use tizcord.Ui.Invariant.People.{length-sort_users}

pub take-take : {A : Type 0} (n : ℕ) (xs : List A) → take n (take n xs) ≡ take n xs
take-take zero xs = refl
take-take (suc n) [] = refl
take-take (suc n) (x ∷ xs) = ap (λ t. x ∷ t) (take-take n xs)

take-nil : {A : Type 0} (n : ℕ) → ◌≡◌ {A = List A} (take n []) []
take-nil zero = refl
take-nil (suc n) = refl

take-set :
    {A : Type 0} (n : ℕ) (xs : List A) (x : A)
    → n < length xs
    → take (suc n) (set xs n x) ≡ take n xs ++ x ∷ []
take-set zero (y ∷ ys) x h = refl
take-set (suc n) (y ∷ ys) x h = ap (λ t. y ∷ t) (take-set n ys x (omega (arith, h)))
take-set n [] x h = absurd (omega (arith, h))

-- The entry is put behind those in use, while there is room.
abbrev pub put : UiUser → Ui → Ui
put a u =
    if ltb u.all_user_count max_all_users
    then record u {
      all_users = set u.all_users u.all_user_count a;
      all_user_count = u.all_user_count + 1;
    }
    else u

abbrev pub fill : List UiUser → Ui → Ui
fill [] u = u
fill (a ∷ users) u = fill users (put a u)

-- The entries of the list, as many as there is room for, stand behind those in use.
abbrev pub Filled : List UiUser → Ui → Ui → Type 0
Filled users u v =
    (take v.all_user_count v.all_users
      ≡ take u.all_user_count u.all_users ++ take (max_all_users - u.all_user_count) users)
    × (v.all_user_count ≤ max_all_users)
    × (length v.all_users ≡ max_all_users)

pub fill-Filled :
    (users : List UiUser) (u : Ui)
    → length u.all_users ≡ max_all_users
    → u.all_user_count ≤ max_all_users
    → Filled users u (fill users u)
fill-Filled [] u size small = (
  sym (
      ap (λ t. take u.all_user_count u.all_users ++ t) (take-nil (max_all_users - u.all_user_count))
      ∙ append-nil (take u.all_user_count u.all_users)),
  small,
  size,
)
fill-Filled (a ∷ users) u size small = elim (Bool-cases (ltb u.all_user_count max_all_users)) [
  | inl room ↦
      let v : Ui = record u {
        all_users = set u.all_users u.all_user_count a;
        all_user_count = u.all_user_count + 1;
      } in
      subst (λ w. Filled (a ∷ users) u (fill users w)) (sym (choice room))
        (one_more v refl refl room
          (fill-Filled users v (length-set u.all_users u.all_user_count a ∙ size) (ground arith)))
  | inr full ↦
      subst (λ w. Filled (a ∷ users) u (fill users w)) (sym (no_choice full))
        (let filled = fill-Filled users u size small in
          (
            filled.0
                ∙ ap (λ n. take u.all_user_count u.all_users ++ take n users) (no_room full)
                ∙ ap (λ n. take u.all_user_count u.all_users ++ take n (a ∷ users))
                    (sym (no_room full)),
            filled.1,
            filled.2,
          ))
]
  where
    choice :
        ltb u.all_user_count max_all_users ≡ true
        → put a u ≡ record u {
          all_users = set u.all_users u.all_user_count a;
          all_user_count = u.all_user_count + 1;
        }
    choice room = rw room refl

    no_choice : ltb u.all_user_count max_all_users ≡ false → put a u ≡ u
    no_choice full = rw full refl

    no_room : ltb u.all_user_count max_all_users ≡ false → max_all_users - u.all_user_count ≡ 0
    no_room full = ground arith

    one_more :
        (v : Ui)
        → v.all_users ≡ set u.all_users u.all_user_count a
        → v.all_user_count ≡ u.all_user_count + 1
        → ltb u.all_user_count max_all_users ≡ true
        → Filled users v (fill users v)
        → Filled (a ∷ users) u (fill users v)
    one_more v entries count room filled = (
      filled.0
          ∙ ap (λ t. t ++ take (max_all_users - v.all_user_count) users)
              (ap (λ (n : ℕ). take n v.all_users) (after count)
                ∙ ap (λ (t : List UiUser). take (suc u.all_user_count) t) entries
                ∙ take-set u.all_user_count u.all_users a (ground arith))
          ∙ append_assoc (take u.all_user_count u.all_users) (a ∷ [])
              (take (max_all_users - v.all_user_count) users)
          ∙ ap (λ (n : ℕ). take u.all_user_count u.all_users ++ take n (a ∷ users))
              (left count room),
      filled.1,
      filled.2,
    )
      where
        after : v.all_user_count ≡ u.all_user_count + 1 → v.all_user_count ≡ suc u.all_user_count
        after count = omega (arith, count)

        left :
            v.all_user_count ≡ u.all_user_count + 1
            → ltb u.all_user_count max_all_users ≡ true
            → suc (max_all_users - v.all_user_count) ≡ max_all_users - u.all_user_count
        left count room = ground (arith, count)

-- The users in use are in order, and are the entries of the list, each as often.
abbrev pub Shows : List UiUser → Ui → Type 0
Shows entries v =
    (v.all_user_count ≡ length entries)
    × IsSorted comes_before (take v.all_user_count v.all_users)
    × Perm (take v.all_user_count v.all_users) entries

take-length : {A : Type 0} (xs ys : List A) (n : ℕ) → n ≡ length xs → take n (xs ++ ys) ≡ xs
take-length [] ys zero h = refl
take-length [] ys (suc n) h = absurd (omega arith)
take-length (x ∷ xs) ys zero h = absurd (omega arith)
take-length (x ∷ xs) ys (suc n) h = ap (λ t. x ∷ t) (take-length xs ys n (omega (arith, h)))

pub sort_users-Shows :
    (entries : List UiUser) (v : Ui)
    → take v.all_user_count v.all_users ≡ entries
    → v.all_user_count ≤ length v.all_users
    → Shows entries (record v { all_users = sort_users v.all_user_count v.all_users })
sort_users-Shows entries v holds small =
    let n = v.all_user_count in
    let (sorted, eq, ordered, perm) = sort_users-comes_before n v.all_users small in
    let size : n ≡ length sorted = omega (
      arith,
      small,
      sym (ap length eq) ∙ length-sort_users n v.all_users,
      length-append sorted (drop n v.all_users),
      length-append (take n v.all_users) (drop n v.all_users),
      ap length (take-append-drop n v.all_users),
      length-take n v.all_users,
    ) in
    let front : take n (sort_users n v.all_users) ≡ sorted =
      ap (take n) eq ∙ take-length sorted (drop n v.all_users) n size in
    (
      omega (arith, small, length-take n v.all_users, ap length holds),
      subst (IsSorted comes_before) (sym front) ordered,
      subst (λ t. Perm t entries) (sym front) (subst (Perm sorted) holds perm),
    )
