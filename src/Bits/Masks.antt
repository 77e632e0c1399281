-- ===== src/Bits/Masks.antt =====
-- The masks that the C code builds, as arithmetic.
use native.Mathlib.Nat.{
  pow-suc, one-le-pow, mod-eq_of_lt, div-lt_iff_lt-mul, div-div-eq-div-mul, mul-le-mul_right,
}
use liblpm.Base.{ℕ, zero, suc, ◌+◌, ◌-◌, ◌*◌, ◌/◌, ◌^◌, ◌≤◌, ◌<◌, bit_and, ◌≡◌, ap, arith}
use liblpm.Bits.Fields.{bit_and_shifted, bit_and_low}

pub pow-add : (j k : ℕ) → 2 ^ (j + k) ≡ 2 ^ j * 2 ^ k
pow-add zero k = ground arith
pow-add (suc j) k =
    let e : suc j + k ≡ suc (j + k) = omega arith in
    rw e (omega (arith, pow-suc 2 (j + k), ap (λ (t : ℕ). t * 2 ^ k) (pow-suc 2 j), pow-add j k))

sub_one-mul : (x p : ℕ) → 1 ≤ x → x * p - p ≡ (x - 1) * p
sub_one-mul zero p h = absurd (omega arith)
sub_one-mul (suc x) p h = ground arith

quotient_lt : (j k a : ℕ) → a < 2 ^ (j + k) → a / 2 ^ k < 2 ^ j
quotient_lt j k a fits =
    (div-lt_iff_lt-mul (one-le-pow k 2 (omega arith))).1 (rw (← pow-add j k) fits)

-- `a & ~((1 << k) - 1)` on `j + k` bits clears the low `k` bits.
pub bit_and_high :
    (j k a : ℕ) → a < 2 ^ (j + k) → bit_and a (2 ^ (j + k) - 2 ^ k) ≡ a / 2 ^ k * 2 ^ k
bit_and_high j k a fits = rw (
  mask,
  bit_and_shifted k a (2 ^ j - 1),
  bit_and_low j (a / 2 ^ k),
  mod-eq_of_lt (quotient_lt j k a fits),
)
  where
    mask : 2 ^ (j + k) - 2 ^ k ≡ (2 ^ j - 1) * 2 ^ k
    mask = rw pow-add (sub_one-mul (2 ^ j) (2 ^ k) (one-le-pow j 2 (omega arith)))

pub bit_and_align : (w k a : ℕ) → k ≤ w → a < 2 ^ w → bit_and a (2 ^ w - 2 ^ k) ≡ a / 2 ^ k * 2 ^ k
bit_and_align w k a h fits =
    let e : w - k + k ≡ w = omega arith in rw e at (bit_and_high (w - k) k a (rw e fits))

-- `x >> (j + k)` is `x >> k >> j`.
pub shift_shift : (j k x : ℕ) → x / 2 ^ (j + k) ≡ x / 2 ^ k / 2 ^ j
shift_shift j k x =
    let e : j + k ≡ k + j = omega arith in rw (e, pow-add k j, div-div-eq-div-mul x (2 ^ k) (2 ^ j))

block-le : (j k x : ℕ) → x < 2 ^ (j + k) → x / 2 ^ k * 2 ^ k + 2 ^ k ≤ 2 ^ (j + k)
block-le j k x fits = rw (pow-add j k) (
    let below : x / 2 ^ k < 2 ^ j = quotient_lt j k x fits in
    grind (arith, mul-le-mul_right (2 ^ k) below))

-- A block of `2 ^ k` aligned numbers lies whole below `2 ^ w`.
pub block_fits : (w k x : ℕ) → k ≤ w → x < 2 ^ w → x / 2 ^ k * 2 ^ k + 2 ^ k ≤ 2 ^ w
block_fits w k x h fits =
    let e : w - k + k ≡ w = omega arith in rw e at (block-le (w - k) k x (rw e fits))
