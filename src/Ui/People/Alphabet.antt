-- ===== src/Ui/People/Alphabet.antt =====
-- The order that the screen of users of client/ui.c shows, written out without the code's own tests.
use tizcord.Base.{
  ℕ, ◌+◌, ◌%◌, ◌^◌, ◌<◌, ◌≡◌, ◌⊎◌, List, [], ◌∷◌, Text, false, leb, ◌&&◌, if◌then◌else◌, All, arith,
}
use tizcord.Ui.State.{UiUser}
use tizcord.Ui.People.{case_less, comes_before}
use tizcord.Ui.People.Order.{IsSorted}

-- A byte with the capital letters A to Z made small.
abbrev pub lower : ℕ → ℕ
lower c = if leb 65 c && leb c 90 then c + 32 else c

-- The first name stands before the second in the alphabet, or they are the same but for case.
abbrev pub NameUpTo : Text → Text → Type 0
NameUpTo [] t = Unit
NameUpTo (a ∷ s) [] = ⊥
NameUpTo (a ∷ s) (b ∷ t) = (lower a < lower b) ⊎ ((lower a ≡ lower b) × NameUpTo s t)

-- An int, moved up by 2 ^ 31.
abbrev pub online_key : UiUser → ℕ
online_key x = (x.is_online + 2 ^ 31) % 2 ^ 32

-- The first user may stand before the second.
abbrev pub UpTo : UiUser → UiUser → Type 0
UpTo x y =
    (online_key y < online_key x) ⊎ ((online_key x ≡ online_key y) × NameUpTo x.username y.username)

-- Each user may stand before all that follow.
abbrev pub InOrder : List UiUser → Type 0
InOrder [] = Unit
InOrder (x ∷ xs) = All (UpTo x) xs × InOrder xs

NameUpTo-of_case_less : (s t : Text) → case_less t s ≡ false → NameUpTo s t
unfolding case_less
NameUpTo-of_case_less [] t h = tt
NameUpTo-of_case_less (a ∷ s) [] h = absurd (ground arith)
NameUpTo-of_case_less (a ∷ s) (b ∷ t) h = ground (arith, NameUpTo-of_case_less s t)

UpTo-of_comes_before : (x y : UiUser) → comes_before y x ≡ false → UpTo x y
unfolding comes_before
UpTo-of_comes_before x y h = ground (arith, NameUpTo-of_case_less x.username y.username)

All-UpTo :
    (x : UiUser) (xs : List UiUser) → All (λ y. comes_before y x ≡ false) xs → All (UpTo x) xs
All-UpTo x [] h = tt
All-UpTo x (y ∷ xs) h = (UpTo-of_comes_before x y h.0, All-UpTo x xs h.1)

pub InOrder-of_IsSorted : (xs : List UiUser) → IsSorted comes_before xs → InOrder xs
InOrder-of_IsSorted [] h = tt
InOrder-of_IsSorted (x ∷ xs) h = (All-UpTo x xs h.0, InOrder-of_IsSorted xs h.1)
