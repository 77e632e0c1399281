-- ===== src/Word/Blocks.antt =====
-- Aligned blocks of indices, and the mask of a partial byte.
use native.Mathlib.Nat.{one-le-pow, pow-le-pow_right, le-div_iff_mul-le, div-lt_iff_lt-mul}
use liblpm.Base.{ℕ, suc, ◌+◌, ◌-◌, ◌*◌, ◌/◌, ◌^◌, ◌≤◌, ◌<◌, ◌≡◌, arith, Bool, ◌&&◌, leb, ltb, ◌==◌}
use liblpm.Word.{u8, not32, ◌<<<◌}

-- `lo <= j < lo + n`
abbrev pub within : ℕ → ℕ → ℕ → Bool
within lo n j = leb lo j && ltb j (lo + n)

pub within_block : (m q x : ℕ) → 0 < m → within (q * m) m x ≡ (x / m == q)
within_block m q x h = ground (
  arith,
  (le-div_iff_mul-le {x = q} {y = x} h).0,
  (le-div_iff_mul-le {x = q} {y = x} h).1,
  (div-lt_iff_lt-mul {x = x} {y = suc q} h).0,
  (div-lt_iff_lt-mul {x = x} {y = suc q} h).1,
)

pub mask8_lem : (k : ℕ) → 1 ≤ k → k < 8 → u8 (not32 ((1 <<< k) - 1)) ≡ 2 ^ 8 - 2 ^ k
mask8_lem k lo hi = omega (
  arith,
  one-le-pow k 2,
  pow-le-pow_right {n = 2} (omega arith) {i = k} {j = 7} (omega arith),
  pow-le-pow_right {n = 2} (omega arith) {i = 1} {j = k} lo,
)
