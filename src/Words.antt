-- ===== src/Words.antt =====
-- C integers as bit patterns: casts between `int` and `int64_t`, and signed tests.
use tizcord.Base.{ℕ, ◌+◌, ◌-◌, ◌%◌, ◌^◌, ◌<◌, ◌≡◌, Bool, ◌||◌, arith, ltb, leb, ◌==◌, if◌then◌else◌}

-- (int)value, of an int64_t: the low 32 bits.
abbrev pub to_int32 : ℕ → ℕ
to_int32 value = value % 2 ^ 32

-- The conversion of an int to int64_t extends the sign.
abbrev pub to_int64 : ℕ → ℕ
to_int64 value = if ltb value (2 ^ 31) then value else value + (2 ^ 64 - 2 ^ 32)

-- value <= 0, of an int64_t
abbrev pub not_positive64 : ℕ → Bool
not_positive64 value = value == 0 || leb (2 ^ 63) value

-- value <= 0, of an int
abbrev pub not_positive32 : ℕ → Bool
not_positive32 value = value == 0 || leb (2 ^ 31) value

-- A value in the range of int survives the cast and the conversion back.
pub to_int64-to_int32 : (v : ℕ) → v < 2 ^ 31 → to_int64 (to_int32 v) ≡ v
to_int64-to_int32 v h = ground arith
