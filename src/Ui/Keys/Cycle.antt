-- ===== src/Ui/Keys/Cycle.antt =====
-- Tab on the screen of direct messages: the loop of `handle_dms_input` in client/ui.c that looks for
-- the next accepted friend.
use native.Mathlib.Nat.{mod-eq_of_lt, mod_self}
use tizcord.Base.{
  ℕ, zero, suc, ◌+◌, ◌-◌, ◌%◌, ◌≤◌, ◌<◌, ◌≡◌, refl, ap, ◌∙◌, true, false, none, some, if◌then◌else◌,
  ◌==◌, ltb, subst, arith, Bool-cases, inl, inr, ◌⊎◌,
}
use tizcord.Ui.State.{Ui, friend_at}
use tizcord.Ui.Keys.{cycle_friends}

next_cases :
    (i n : ℕ) → i < n → ((i + 1 < n) × ((i + 1) % n ≡ i + 1)) ⊎ ((i + 1 ≡ n) × ((i + 1) % n ≡ 0))
next_cases i n inside = elim (Bool-cases (i + 1 == n)) [
  | inl last ↦ inr (ground arith, wraps (ground arith))
  | inr more ↦ inl (ground arith, mod-eq_of_lt (ground arith))
]
  where
    wraps : i + 1 ≡ n → (i + 1) % n ≡ 0
    wraps last = rw last (mod_self n)

mod-bounds : (a n : ℕ) → 0 < n → a % n < n
mod-bounds a zero pos = absurd (omega arith)
mod-bounds a (suc n) pos = grind arith

module _ (clock : ℕ → ℕ) (u : Ui) where
  abbrev Accepted : ℕ → Type 0
  Accepted k = ((friend_at u k).type == 2) ≡ true

  -- The friend that the loop stops at.
  abbrev Found : ℕ → ℕ → Type 0
  Found fuel i =
      (j : ℕ) × (cycle_friends clock fuel u i ≡ some j) × (j < u.friend_count) × Accepted j

  -- `k` is reached from `i` within so many rounds.
  abbrev Near : ℕ → ℕ → ℕ → Type 0
  Near fuel i k = ((i < k) × (k ≤ fuel + i)) ⊎ ((k ≤ i) × (u.friend_count + k ≤ fuel + i))

  cycle_step :
      (fuel i : ℕ)
      → 0 < u.friend_count
      → cycle_friends clock (suc fuel) u i ≡ (
          let next = (i + 1) % u.friend_count in
          if (friend_at u next).type == 2 then some next else cycle_friends clock fuel u next)
  unfolding cycle_friends
  cycle_step fuel i pos =
      let friends : (u.friend_count == 0) ≡ false = ground arith in rw friends refl

  -- A round finds a friend, or goes on from one that is not accepted.
  round :
      (fuel i : ℕ)
      → 0 < u.friend_count
      → (((friend_at u ((i + 1) % u.friend_count)).type == 2) ≡ false
          → Found fuel ((i + 1) % u.friend_count))
      → Found (suc fuel) i
  round fuel i pos later = elim (Bool-cases ((friend_at u ((i + 1) % u.friend_count)).type == 2)) [
    | inl stop ↦ (
      (i + 1) % u.friend_count,
      cycle_step fuel i pos ∙ rw stop refl,
      mod-bounds (i + 1) u.friend_count pos,
      stop,
    )
    | inr go ↦ let r = later go in (r.0, cycle_step fuel i pos ∙ rw go r.1, r.2, r.3)
  ]

  -- A friend that is accepted is another than one that is not.
  apart : (i k : ℕ) → ((friend_at u i).type == 2) ≡ false → Accepted k → (i == k) ≡ false
  apart i k go accepted = elim (Bool-cases (i == k)) [
    | inl same ↦
        let at : i ≡ k = ground arith in
        absurd (cc (go, ap (λ j. (friend_at u j).type == 2) at, accepted))
    | inr other ↦ other
  ]

  -- Where an accepted friend is near, the loop stops at one.
  finds-Near :
      (fuel i k : ℕ)
      → i < u.friend_count
      → k < u.friend_count
      → Accepted k
      → Near fuel i k
      → Found fuel i
  finds-Near zero i k inside listed accepted (inl near) = absurd (omega (arith, near.0, near.1))
  finds-Near zero i k inside listed accepted (inr near) = absurd (omega (arith, near.0, near.1))
  finds-Near (suc fuel) i k inside listed accepted near = round fuel i (omega arith) (λ go.
      finds-Near fuel ((i + 1) % u.friend_count) k (mod-bounds (i + 1) u.friend_count (omega arith))
        listed accepted
        (one_less fuel i k inside listed (apart ((i + 1) % u.friend_count) k go accepted)
          (next_cases i u.friend_count inside) near))
    where
      one_less :
          (fuel i k : ℕ)
          → i < u.friend_count
          → k < u.friend_count
          → ((i + 1) % u.friend_count == k) ≡ false
          → ((i + 1 < u.friend_count) × ((i + 1) % u.friend_count ≡ i + 1))
            ⊎ ((i + 1 ≡ u.friend_count) × ((i + 1) % u.friend_count ≡ 0))
          → Near (suc fuel) i k
          → Near fuel ((i + 1) % u.friend_count) k
      one_less fuel i k inside listed other (inl up) (inl near) =
          inl (ground (arith, up.1, near.0, other), ground (arith, up.1, near.1))
      one_less fuel i k inside listed other (inl up) (inr near) =
          inr (ground (arith, up.1, near.0), ground (arith, up.1, near.1))
      one_less fuel i k inside listed other (inr wrap) (inl near) =
          absurd (omega (arith, wrap.0, near.0, listed))
      one_less fuel i k inside listed other (inr wrap) (inr near) =
          inl (ground (arith, wrap.1, other), ground (arith, wrap.0, wrap.1, near.1))

  -- With as many rounds as there are friends the loop stops at an accepted friend of the list, when
  -- there is one, whichever friend was chosen before.
  pub cycle_friends-finds :
      (i k : ℕ)
      → k < u.friend_count
      → ((friend_at u k).type == 2) ≡ true
      → (j : ℕ) × (cycle_friends clock u.friend_count u i ≡ some j)
        × (j < u.friend_count)
        × (((friend_at u j).type == 2) ≡ true)
  cycle_friends-finds i k listed accepted =
      subst (λ n. Found n i) (omega arith)
        (round (u.friend_count - 1) i (omega arith) (λ go.
          let next = (i + 1) % u.friend_count in
          let inside = mod-bounds (i + 1) u.friend_count (omega arith) in
          finds-Near (u.friend_count - 1) next k inside listed accepted
            (around next k inside listed (apart next k go accepted))))
    where
      around :
          (i k : ℕ)
          → i < u.friend_count
          → k < u.friend_count
          → (i == k) ≡ false
          → Near (u.friend_count - 1) i k
      around i k inside listed other = elim (Bool-cases (ltb i k)) [
        | inl before ↦ inl (ground arith, omega (arith, listed))
        | inr behind ↦ inr (ground arith, ground arith)
      ]

  -- Where no friend of the list is accepted the loop finds none, whatever the number of rounds: the
  -- program takes a remainder by zero or never leaves the loop.
  pub cycle_friends-never :
      ((k : ℕ) → k < u.friend_count → ((friend_at u k).type == 2) ≡ false)
      → (fuel i : ℕ) → cycle_friends clock fuel u i ≡ none
  unfolding cycle_friends
  cycle_friends-never nobody zero i = refl
  cycle_friends-never nobody (suc fuel) i = elim (Bool-cases (u.friend_count == 0)) [
    | inl empty ↦ rw empty refl
    | inr friends ↦
        let inside = mod-bounds (i + 1) u.friend_count (ground arith) in
        rw (friends, nobody ((i + 1) % u.friend_count) inside)
          (cycle_friends-never nobody fuel ((i + 1) % u.friend_count))
  ]
