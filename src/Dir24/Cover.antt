-- ===== src/Dir24/Cover.antt =====
-- The entries that a prefix covers, as the route covers addresses.
use native.Mathlib.Nat.{one-le-pow, mul-add-div_right}
use liblpm.Base.{
  ℕ, ◌+◌, ◌-◌, ◌*◌, ◌/◌, ◌%◌, ◌^◌, ◌≤◌, ◌<◌, ◌≡◌, arith, ap, ◌∙◌, ◌&&◌, ◌==◌, Bool, sym,
}
use liblpm.Bits.{shift_shift, pow-add}

-- The first `len` bits of two 32-bit addresses agree.
abbrev pub agree : ℕ → ℕ → ℕ → Bool
agree len v a = a / 2 ^ (32 - len) == v / 2 ^ (32 - len)

pub agree_short :
    (len v a : ℕ)
    → len ≤ 24
    → agree len v a ≡ (a / 256 / 2 ^ (24 - len) == v / 256 / 2 ^ (24 - len))
agree_short len v a h =
    let e : 32 - len ≡ 24 - len + 8 = omega arith in
    rw (e, shift_shift (24 - len) 8 a, shift_shift (24 - len) 8 v)

-- A shift by `k` of an address with `8 - k` bits of its last byte left.
pub split_shift : (j k a : ℕ) → j + k ≡ 8 → a / 2 ^ k ≡ a / 256 * 2 ^ j + a % 256 / 2 ^ k
split_shift j k a e =
    sym (ap (λ (x : ℕ). x / 2 ^ k) regroup)
    ∙ mul-add-div_right (one-le-pow k 2 (omega arith)) (a / 256 * 2 ^ j) (a % 256)
  where
    regroup : a / 256 * 2 ^ j * 2 ^ k + a % 256 ≡ a
    regroup =
        let p : 2 ^ j * 2 ^ k ≡ 256 = sym (pow-add j k) ∙ ap (λ (n : ℕ). 2 ^ n) e in
        omega (arith, ap (λ (t : ℕ). a / 256 * t) p)

pub agree_long :
    (len v a : ℕ)
    → 24 < len
    → len ≤ 32
    → agree len v a
      ≡ ((a / 256 == v / 256) && (a % 256 / 2 ^ (32 - len) == v % 256 / 2 ^ (32 - len)))
agree_long len v a lo hi = ground (
  arith,
  split_shift (len - 24) (32 - len) a (omega arith),
  split_shift (len - 24) (32 - len) v (omega arith),
  shift_shift (len - 24) (32 - len) a,
  shift_shift (len - 24) (32 - len) v,
  eight,
)
  where
    eight : len - 24 + (32 - len) ≡ 8
    eight = omega arith
