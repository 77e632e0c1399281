-- ===== src/Dir24/Index.antt =====
-- The index computations of src/dir24 as arithmetic on the 32-bit address.
use native.Mathlib.Nat.{one-le-pow}
use liblpm.Base.{
  ℕ, ◌+◌, ◌-◌, ◌*◌, ◌/◌, ◌^◌, ◌≤◌, ◌<◌, ◌≡◌, arith, ap, ◌∙◌, bit_or, bit_and, leb, ltb, Bool-cases,
  inl, inr, true,
}
use liblpm.Bits.{bit_or_fields, bit_and_align, shift_shift}
use liblpm.Word.{not32, ◌<<<◌}
use liblpm.Trie.{Bytes}
use liblpm.Dir24.{dir24_index, base_index}

-- Each `uint8_t` of a prefix or an address is below 256.
abbrev pub IsBytes : Bytes → Type 0
IsBytes p = (i : ℕ) → p i < 256

-- The address that four bytes spell, most significant first.
abbrev pub word : Bytes → ℕ
word p = p 0 * 2 ^ 24 + p 1 * 2 ^ 16 + p 2 * 2 ^ 8 + p 3

upper_lem : (p : Bytes) → IsBytes p → bit_or (p 0 <<< 16) (p 1 <<< 8) ≡ p 0 * 2 ^ 16 + p 1 * 2 ^ 8
upper_lem p b = bit_or_fields 16 (p 0) (p 1 * 2 ^ 8) (omega (arith, b 1))

joined_lem :
    (p : Bytes)
    → IsBytes p
    → bit_or (bit_or (p 0 <<< 16) (p 1 <<< 8)) (p 2) ≡ p 0 * 2 ^ 16 + p 1 * 2 ^ 8 + p 2
joined_lem p b =
    let e : p 0 * 2 ^ 16 + p 1 * 2 ^ 8 ≡ (p 0 * 2 ^ 8 + p 1) * 2 ^ 8 = omega arith in
    rw (upper_lem p b, e) (bit_or_fields 8 (p 0 * 2 ^ 8 + p 1) (p 2) (b 2))

pub dir24_index_lem : (p : Bytes) → IsBytes p → dir24_index p ≡ word p / 256
unfolding dir24_index
dir24_index_lem p b = joined_lem p b ∙ omega (arith, b 3)

-- The low byte plays no part in a prefix that is shorter than the byte's place.
drop_low_byte : (j h c : ℕ) → c < 256 → h * 2 ^ 8 / 2 ^ (j + 8) ≡ (h * 2 ^ 8 + c) / 2 ^ (j + 8)
drop_low_byte j h c fits =
    rw (shift_shift j 8 (h * 2 ^ 8), shift_shift j 8 (h * 2 ^ 8 + c))
      (ap (λ (t : ℕ). t / 2 ^ j) (omega arith))

mask_lem : (k : ℕ) → not32 ((1 <<< k) - 1) ≡ 2 ^ 32 - 2 ^ k
mask_lem k = omega (arith, one-le-pow k 2)

align_joined :
    (p : Bytes) (k : ℕ)
    → IsBytes p
    → k ≤ 24
    → bit_and (bit_or (bit_or (p 0 <<< 16) (p 1 <<< 8)) (p 2)) (not32 ((1 <<< k) - 1))
      ≡ word p / 256 / 2 ^ k * 2 ^ k
align_joined p k b h = rw (
  mask_lem k,
  bit_and_align 32 k (bit_or (bit_or (p 0 <<< 16) (p 1 <<< 8)) (p 2)) (omega arith) fits,
  value,
)
  where
    value : bit_or (bit_or (p 0 <<< 16) (p 1 <<< 8)) (p 2) ≡ word p / 256
    value = joined_lem p b ∙ omega (arith, b 3)

    fits : bit_or (bit_or (p 0 <<< 16) (p 1 <<< 8)) (p 2) < 2 ^ 32
    fits = rw (joined_lem p b) (omega (arith, b 0, b 1, b 2))

align_upper :
    (p : Bytes) (j : ℕ)
    → IsBytes p
    → j ≤ 16
    → bit_and (bit_or (p 0 <<< 16) (p 1 <<< 8)) (not32 ((1 <<< (j + 8)) - 1))
      ≡ word p / 256 / 2 ^ (j + 8) * 2 ^ (j + 8)
align_upper p j b h = rw (
  mask_lem (j + 8),
  bit_and_align 32 (j + 8) (bit_or (p 0 <<< 16) (p 1 <<< 8)) (omega arith) fits,
  value,
  drop_low_byte j (p 0 * 2 ^ 8 + p 1) (p 2) (b 2),
  whole,
)
  where
    value : bit_or (p 0 <<< 16) (p 1 <<< 8) ≡ (p 0 * 2 ^ 8 + p 1) * 2 ^ 8
    value = upper_lem p b ∙ omega arith

    whole : (p 0 * 2 ^ 8 + p 1) * 2 ^ 8 + p 2 ≡ word p / 256
    whole = omega (arith, b 3)

    fits : bit_or (p 0 <<< 16) (p 1 <<< 8) < 2 ^ 32
    fits = rw (upper_lem p b) (omega (arith, b 0, b 1))

-- The first entry of a prefix is its dir24 index with the bits below the prefix cleared.
pub base_index_lem :
    (p : Bytes) (len : ℕ)
    → IsBytes p
    → len ≤ 24
    → base_index p len ≡ word p / 256 / 2 ^ (24 - len) * 2 ^ (24 - len)
unfolding base_index
base_index_lem p len b h = elim (Bool-cases (leb 16 len)) [
  | inl long ↦ elim (Bool-cases (ltb len 24)) [
    | inl inner ↦ rw (long, inner) (align_joined p (24 - len) b (omega arith))
    | inr whole ↦
        let e : 24 - len ≡ 0 = ground arith in
        rw (long, whole, e) (joined_lem p b ∙ omega (arith, b 3))
  ]
  | inr short ↦
      let e : 24 - len ≡ 16 - len + 8 = ground arith in
      let inner : ltb len 24 ≡ true = ground arith in
      rw (short, inner, e) (align_upper p (16 - len) b (omega arith))
]
