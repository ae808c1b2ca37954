-- ===== src/Ui/Commands/Status.antt =====
-- The arguments of the commands in client/ui.c: the loops that take spaces off, and what /setstatus
-- sends.
use tizcord.Base.{
  ℕ, suc, ◌≤◌, ◌<◌, ◌≡◌, refl, sym, ap, ◌∙◌, [], ◌∷◌, ◌++◌, Text, Bool, false, ◌&&◌, ◌⊎◌, inl, inr,
  Bool-cases, if◌then◌else◌, ltb, ◌==◌, length, drop, arith,
}
use tizcord.Protocol.{profile_status_len}
use tizcord.Client.{send_status_update}
use tizcord.Ui.State.{Ui, replicate}
use tizcord.Ui.Commands.{strip_spaces, skip_spaces, run_set_status}

abbrev pub spaces : ℕ → Text
spaces n = replicate n 32

abbrev pub starts_space : Text → Bool
starts_space [] = false
starts_space (c ∷ text) = c == 32

abbrev pub ends_space : Text → Bool
ends_space [] = false
ends_space (c ∷ []) = c == 32
ends_space (c ∷ d ∷ text) = ends_space (d ∷ text)

skip_spaces-spaces :
    (t : Text) → (n : ℕ) × (t ≡ spaces n ++ skip_spaces t) × (starts_space (skip_spaces t) ≡ false)
unfolding skip_spaces
skip_spaces-spaces [] = (0, refl, refl)
skip_spaces-spaces (c ∷ t) = elim (Bool-cases (c == 32)) [
  | inl space ↦
      let (n, parts, starts) = skip_spaces-spaces t in
      let blank : c ≡ 32 = ground arith in rw space (suc n, cc (parts, blank), starts)
  | inr other ↦ rw other (0, refl, other)
]

strip_spaces-spaces :
    (t : Text) → (n : ℕ) × (t ≡ strip_spaces t ++ spaces n) × (ends_space (strip_spaces t) ≡ false)
unfolding strip_spaces
strip_spaces-spaces [] = (0, refl, refl)
strip_spaces-spaces (c ∷ t) = go (strip_spaces t) (strip_spaces-spaces t)
  where
    go :
        (rest : Text)
        → (n : ℕ) × (t ≡ rest ++ spaces n) × (ends_space rest ≡ false)
        → let r = if c == 32 && length rest == 0 then [] else c ∷ rest in
          (n : ℕ) × (c ∷ t ≡ r ++ spaces n) × (ends_space r ≡ false)
    go [] (n, parts, ends) = elim (Bool-cases (c == 32)) [
      | inl space ↦ let blank : c ≡ 32 = ground arith in rw space (suc n, cc (parts, blank), refl)
      | inr other ↦ rw other (n, ap (λ r. c ∷ r) parts, other)
    ]
    go (d ∷ rest) (n, parts, ends) =
        let kept : (c == 32 && length (d ∷ rest) == 0) ≡ false = ground arith in
        rw kept (n, ap (λ r. c ∷ r) parts, ends)

-- The text loses the spaces in front and behind, and no other byte.
abbrev pub Trimmed : Text → Text → Type 0
Trimmed text status =
    (m : ℕ) × (n : ℕ) × (text ≡ spaces m ++ (status ++ spaces n))
    × (starts_space status ≡ false)
    × (ends_space status ≡ false)

starts_space-append :
    (t : Text) (n : ℕ) → starts_space (t ++ spaces n) ≡ false → starts_space t ≡ false
starts_space-append [] n h = refl
starts_space-append (c ∷ t) n h = h

trimmed : (text : Text) → Trimmed text (strip_spaces (skip_spaces text))
trimmed text =
    let (m, front, starts) = skip_spaces-spaces text in
    let (n, back, ends) = strip_spaces-spaces (skip_spaces text) in
    (
      m,
      n,
      front ∙ ap (λ t. spaces m ++ t) back,
      starts_space-append (strip_spaces (skip_spaces text)) n (sym (ap starts_space back) ∙ starts),
      ends,
    )

-- The command /setstatus sends nothing, or one status of 1 to PROFILE_STATUS_LEN bytes, which is what
-- was typed after the command without the spaces in front and behind. It sends it when the length is
-- in the bounds.
pub run_set_status-bounds :
    (clock : ℕ → ℕ) (command : Text) (u : Ui)
    → (status : Text) × Trimmed (drop 10 command) status
      × (((0 < length status)
            × (length status ≤ profile_status_len)
            × ((run_set_status clock command u).connection
                ≡ send_status_update clock status u.connection))
          ⊎ (((length status ≡ 0) ⊎ (profile_status_len < length status))
              × ((run_set_status clock command u).connection ≡ u.connection)))
unfolding run_set_status
run_set_status-bounds clock command u = (
  status,
  trimmed (drop 10 command),
  elim (Bool-cases (length status == 0)) [
    | inl empty ↦ rw empty (inr (inl (ground arith), refl))
    | inr some_status ↦ elim (Bool-cases (ltb profile_status_len (length status))) [
      | inl long ↦ rw (some_status, long) (inr (inr (ground arith), refl))
      | inr fits ↦ rw (some_status, fits) (inl (ground arith, ground arith, refl))
    ]
  ],
)
  where
    status : Text
    status = strip_spaces (skip_spaces (drop 10 command))
