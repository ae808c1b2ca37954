-- ===== src/Base/Invariants.antt =====
-- Rules by which an action on the server's state is seen to keep an invariant.
use Prim.Native.Nat.{ℕ}
use mathlib.Core.Bool.{Bool, true, false}
use mathlib.Core.Option.{Option, none, some}
use mathlib.Core.List.{List}
use tizcord.Base.Tests.{if◌then◌else◌}
use tizcord.Base.State.{pure, gets, ◌>>=◌, ◌>>◌, for_range, for_range_inv, for_each, for_each_inv}

-- What holds before the action holds after it.
pub record Keeps {ℓ κ μ} {S : Type ℓ} {A : Type κ} (Inv : S → Type μ) (act : S → A × S)
    : Type (ℓ ⊔ μ) where
  pub at : (before : S) → Inv before → Inv (act before).1

module _ {ℓ κ μ} {S : Type ℓ} {A : Type κ} {Inv : S → Type μ} where
  -- A choice between two actions.
  pub Keeps-if :
      (test : Bool) (first second : S → A × S)
      → Keeps Inv first
      → Keeps Inv second
      → Keeps Inv (if test then first else second)
  Keeps-if true first second kept _ = kept
  Keeps-if false first second _ kept = kept

  -- An action that only reads.
  pub Keeps-gets : (look : S → A) → Keeps Inv (gets look)
  unfolding gets
  Keeps-gets look = record { at = λ before inv. inv }

  pub Keeps-pure : (result : A) → Keeps Inv (pure {S = S} result)
  unfolding pure
  Keeps-pure result = record { at = λ before inv. inv }

module _ {ℓ κ μ ν} {S : Type ℓ} {A : Type κ} {B : Type ν} {Inv : S → Type μ} where
  -- The second action gets the first one's result.
  pub Keeps-bind :
      (first : S → A × S) (next : A → S → B × S)
      → Keeps Inv first
      → ((result : A) → Keeps Inv (next result))
      → Keeps Inv (first >>= next)
  unfolding ◌>>=◌
  Keeps-bind first next start after = record {
    at = λ before inv. (after (first before).0).at (first before).1 (start.at before inv);
  }

  -- The first action's result is not used.
  pub Keeps-then :
      (first : S → A × S) (second : S → B × S)
      → Keeps Inv first
      → Keeps Inv second
      → Keeps Inv (first >> second)
  unfolding ◌>>◌
  Keeps-then first second start after = record {
    at = λ before inv. after.at (first before).1 (start.at before inv);
  }

  pub Keeps-option :
      (o : Option A) (m : S → B × S) (f : A → S → B × S)
      → Keeps Inv m
      → ((a : A) → Keeps Inv (f a))
      → Keeps {A = B} Inv (elim o [ none ↦ m | some a ↦ f a ])
  Keeps-option none m f km kf = km
  Keeps-option (some a) m f km kf = kf a

module _ {ℓ μ} {S : Type ℓ} {P : S → Type μ} where
  pub Keeps-for_range :
      (n i : ℕ) (body : ℕ → S → Unit {0} × S)
      → ((k : ℕ) → Keeps P (body k))
      → Keeps P (for_range n i body)
  Keeps-for_range n i body keep = record {
    at = λ s h. for_range_inv P body (λ k t. (keep k).at t) n i s h;
  }

module _ {ℓ κ μ ν} {X : Type ν} {A : Type κ} {S : Type ℓ} {P : S → Type μ} where
  pub Keeps-for_each :
      (f : X → A → S → A × S) (xs : List X) (a : A)
      → ((x : X) (b : A) → Keeps P (f x b))
      → Keeps P (for_each f xs a)
  Keeps-for_each f xs a keep = record {
    at = λ s h. for_each_inv P f (λ x b t. (keep x b).at t) xs a s h;
  }

pub ruleset keeps_rules = (
  Keeps-pure, Keeps-gets, Keeps-if, Keeps-bind, Keeps-then, Keeps-option, Keeps-for_range,
  Keeps-for_each,
)
