-- ===== src/Wire/Order.antt =====
-- `htonl` and `network64` of shared/packet_helper.c, on bit patterns. `little` says whether the
-- host is little-endian, which `network64` tests at run time and `htonl` at compile time.
use tizcord.Base.{ℕ, ◌+◌, ◌*◌, ◌/◌, ◌%◌, ◌^◌, ◌<◌, ◌≡◌, ◌∙◌, refl, Bool, true, false, arith}

-- htonl: the bytes of a 32-bit word in the opposite order on a little-endian host.
unfoldable pub htonl : Bool → ℕ → ℕ
htonl false x = x
htonl true x = x % 256 * 2 ^ 24 + x / 256 % 256 * 2 ^ 16 + x / 2 ^ 16 % 256 * 256 + x / 2 ^ 24 % 256

-- The two halves are swapped, and the bytes of each.
unfoldable pub network64 : Bool → ℕ → ℕ
network64 false value = value
network64 true value = htonl true (value % 2 ^ 32) * 2 ^ 32 + htonl true (value / 2 ^ 32 % 2 ^ 32)

pub htonl-lt : (little : Bool) (x : ℕ) → x < 2 ^ 32 → htonl little x < 2 ^ 32
unfolding htonl
htonl-lt false x h = h
htonl-lt true x h = omega arith

pub htonl-htonl : (little : Bool) (x : ℕ) → x < 2 ^ 32 → htonl little (htonl little x) ≡ x
unfolding htonl
htonl-htonl false x h = refl
htonl-htonl true x h = omega arith

pub network64-lt : (little : Bool) (x : ℕ) → x < 2 ^ 64 → network64 little x < 2 ^ 64
unfolding network64
network64-lt false x h = h
network64-lt true x h = omega (
  arith,
  htonl-lt true (x % 2 ^ 32) (omega arith),
  htonl-lt true (x / 2 ^ 32 % 2 ^ 32) (omega arith),
)

network64_halves :
    (a b : ℕ)
    → a < 2 ^ 32
    → b < 2 ^ 32
    → network64 true (a * 2 ^ 32 + b) ≡ htonl true b * 2 ^ 32 + htonl true a
unfolding network64
network64_halves a b ha hb =
    let low : (a * 2 ^ 32 + b) % 2 ^ 32 ≡ b = omega arith in
    let high : (a * 2 ^ 32 + b) / 2 ^ 32 % 2 ^ 32 ≡ a = omega arith in rw (low, high)

pub network64-network64 :
    (little : Bool) (x : ℕ) → x < 2 ^ 64 → network64 little (network64 little x) ≡ x
unfolding network64
network64-network64 false x h = refl
network64-network64 true x h =
    let lo = x % 2 ^ 32 in
    let hi = x / 2 ^ 32 % 2 ^ 32 in
    let lo_lt : lo < 2 ^ 32 = omega arith in
    let hi_lt : hi < 2 ^ 32 = omega arith in
    network64_halves (htonl true lo) (htonl true hi) (htonl-lt true lo lo_lt)
      (htonl-lt true hi hi_lt)
    ∙ (rw (htonl-htonl true lo lo_lt, htonl-htonl true hi hi_lt) (omega arith))
