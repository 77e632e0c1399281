-- ===== src/Bits/Fields.antt =====
-- `|` and `&` act on the low `k` bits and on the bits above them apart from each other:
-- the two lemmas on blocks say so, and the others are cases of them.
use Prim.Native.Nat.{bit_and-bitwise, bit_or-bitwise}
use native.Mathlib.Nat.{pow-suc, one-le-pow}
use liblpm.Base.{
  ℕ, zero, suc, ◌+◌, ◌-◌, ◌*◌, ◌/◌, ◌%◌, ◌^◌, ◌<◌, ◌≤◌, bit_and, bit_or, ◌≡◌, refl, arith,
}
use liblpm.Bits.Step.{bit_or_step, bit_and_step}

pow_split : (k h l : ℕ) → h * 2 ^ suc k + l ≡ (h * 2 ^ k + l / 2) * 2 + l % 2
pow_split k h l =
    let p = pow-suc 2 k in
    let q : h * 2 ^ suc k ≡ (h * 2 ^ k) * 2 = rw p (omega arith) in omega arith

-- `a` above `r` in one word, `b` above `s` in the other.
pub bit_or_blocks :
    (k a b r s : ℕ)
    → r < 2 ^ k
    → s < 2 ^ k
    → bit_or (a * 2 ^ k + r) (b * 2 ^ k + s) ≡ bit_or a b * 2 ^ k + bit_or r s
bit_or_blocks zero a b r s fr fs =
    let nr : r ≡ 0 = omega arith in let ns : s ≡ 0 = omega arith in rw (nr, ns) (ground arith)
bit_or_blocks (suc k) a b r s fr fs = ground (
  arith,
  bit_or_step (a * 2 ^ suc k + r) (b * 2 ^ suc k + s),
  bit_or_step r s,
  pow_split k a r,
  pow_split k b s,
  pow_split k (bit_or a b) (bit_or r s),
  bit_or_blocks k a b (r / 2) (s / 2) (omega (arith, pow-suc 2 k)) (omega (arith, pow-suc 2 k)),
)

pub bit_and_blocks :
    (k a b r s : ℕ)
    → r < 2 ^ k
    → s < 2 ^ k
    → bit_and (a * 2 ^ k + r) (b * 2 ^ k + s) ≡ bit_and a b * 2 ^ k + bit_and r s
bit_and_blocks zero a b r s fr fs =
    let nr : r ≡ 0 = omega arith in let ns : s ≡ 0 = omega arith in rw (nr, ns) (ground arith)
bit_and_blocks (suc k) a b r s fr fs = ground (
  arith,
  bit_and_step (a * 2 ^ suc k + r) (b * 2 ^ suc k + s),
  bit_and_step r s,
  pow_split k a r,
  pow_split k b s,
  pow_split k (bit_and a b) (bit_and r s),
  bit_and_blocks k a b (r / 2) (s / 2) (omega (arith, pow-suc 2 k)) (omega (arith, pow-suc 2 k)),
)

zero-bit_or : (r : ℕ) → bit_or 0 r ≡ r
zero-bit_or r = simp bit_or-bitwise refl

zero-bit_and : (r : ℕ) → bit_and 0 r ≡ 0
zero-bit_and r = simp bit_and-bitwise refl

-- With 0 on the right, by a bound on the left number.
right_zero : (bound a : ℕ) → a ≤ bound → (bit_or a 0 ≡ a) × (bit_and a 0 ≡ 0)
right_zero bound zero le = (zero-bit_or 0, zero-bit_and 0)
right_zero zero (suc a) le = absurd (omega arith)
right_zero (suc bound) (suc a) le =
    let half = right_zero bound (suc a / 2) (omega arith) in
    (omega (arith, bit_or_step (suc a) 0, half.0), omega (arith, bit_and_step (suc a) 0, half.1))

pub bit_or-zero : (a : ℕ) → bit_or a 0 ≡ a
bit_or-zero a = (right_zero a a (omega arith)).0

pub bit_and-zero : (a : ℕ) → bit_and a 0 ≡ 0
bit_and-zero a = (right_zero a a (omega arith)).1

-- A word with nothing below its high part, and one with nothing above its low part.
pub bit_or_fields : (k a s : ℕ) → s < 2 ^ k → bit_or (a * 2 ^ k) s ≡ a * 2 ^ k + s
bit_or_fields k a s fs =
    ground (
      arith,
      bit_or_blocks k a 0 0 s (one-le-pow k 2 (omega arith)) fs,
      bit_or-zero a,
      zero-bit_or s,
    )

-- A second word with nothing in its low part leaves the low part of the first alone.
pub bit_or_high :
    (k a r b : ℕ) → r < 2 ^ k → bit_or (a * 2 ^ k + r) (b * 2 ^ k) ≡ bit_or a b * 2 ^ k + r
bit_or_high k a r b fr =
    ground (arith, bit_or_blocks k a b r 0 fr (one-le-pow k 2 (omega arith)), bit_or-zero r)

-- Under `&` it masks the high part and clears the low part.
pub bit_and_shifted : (k w b : ℕ) → bit_and w (b * 2 ^ k) ≡ bit_and (w / 2 ^ k) b * 2 ^ k
bit_and_shifted k w b =
    let positive = one-le-pow k 2 (omega arith) in
    ground (
      arith,
      bit_and_blocks k (w / 2 ^ k) b (w % 2 ^ k) 0 (omega arith) positive,
      bit_and-zero (w % 2 ^ k),
    )

-- All `k` low bits set: on a word that fits, the mask keeps everything.
full_mask : (k r : ℕ) → r < 2 ^ k → bit_and r (2 ^ k - 1) ≡ r
full_mask zero r fr = rw bit_and-zero (omega arith)
full_mask (suc k) r fr = ground (
  arith,
  bit_and_step r (2 ^ suc k - 1),
  pow-suc 2 k,
  full_mask k (r / 2) (omega (arith, pow-suc 2 k)),
)

pub bit_and_low : (k w : ℕ) → bit_and w (2 ^ k - 1) ≡ w % 2 ^ k
bit_and_low k w =
    let positive = one-le-pow k 2 (omega arith) in
    ground (
      arith,
      bit_and_blocks k (w / 2 ^ k) 0 (w % 2 ^ k) (2 ^ k - 1) (omega arith) (omega arith),
      full_mask k (w % 2 ^ k) (omega arith),
      bit_and-zero (w / 2 ^ k),
    )
