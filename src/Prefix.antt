-- ===== src/Prefix.antt =====
-- Prefixes as the tries of 8-bit strides see them: whole bytes, then the upper bits of one byte.
pub mod Value
use liblpm.Base.{
  ℕ, zero, suc, ◌+◌, ◌-◌, ◌*◌, ◌/◌, ◌^◌, ◌<◌, ◌≤◌, ◌≡◌, refl, arith, Bool, true, false, ◌&&◌, ◌==◌,
  if◌then◌else◌, ◌∙◌,
}
use liblpm.Trie.{Bytes}

-- The first `k` bytes are the same.
unfoldable pub agree_bytes : ℕ → Bytes → Bytes → Bool
agree_bytes zero p a = true
agree_bytes (suc k) p a = agree_bytes k p a && p k == a k

-- The byte in which a prefix of `len` bits ends, and the number of bits of that byte below it.
abbrev pub last_byte : ℕ → ℕ
last_byte len = (len - 1) / 8

abbrev pub bits_below : ℕ → ℕ
bits_below len = 8 * (last_byte len + 1) - len

-- The first `len` bits are the same, `len` not 0.
abbrev pub agree_bits : ℕ → Bytes → Bytes → Bool
agree_bits len p a =
    agree_bytes (last_byte len) p a
    && p (last_byte len) / 2 ^ bits_below len == a (last_byte len) / 2 ^ bits_below len

pub agree_bytes_refl : (k : ℕ) (a : Bytes) → agree_bytes k a a ≡ true
unfolding agree_bytes
agree_bytes_refl zero a = refl
agree_bytes_refl (suc k) a = ground (arith, agree_bytes_refl k a)

pub agree_bytes_symm : (k : ℕ) (a b : Bytes) → agree_bytes k a b ≡ agree_bytes k b a
unfolding agree_bytes
agree_bytes_symm zero a b = refl
agree_bytes_symm (suc k) a b = ground (arith, agree_bytes_symm k a b)

pub agree_bytes_trans :
    (k : ℕ) (a b c : Bytes)
    → agree_bytes k a b ≡ true
    → agree_bytes k b c ≡ true
    → agree_bytes k a c ≡ true
unfolding agree_bytes
agree_bytes_trans zero a b c e f = refl
agree_bytes_trans (suc k) a b c e f = ground (arith, agree_bytes_trans k a b c)

-- The next byte decides.
pub agree_bytes_step :
    (k : ℕ) (p a : Bytes) → agree_bytes (suc k) p a ≡ (agree_bytes k p a && p k == a k)
unfolding agree_bytes
agree_bytes_step k p a = refl

pub agree_bytes_le :
    (j k : ℕ) (p a : Bytes) → agree_bytes (j + k) p a ≡ true → agree_bytes k p a ≡ true
agree_bytes_le zero k p a e = let same : 0 + k ≡ k = omega arith in rw same at e
agree_bytes_le (suc j) k p a e =
    let same : suc j + k ≡ suc (j + k) = omega arith in
    agree_bytes_le j k p a (ground (arith, rw same at e, agree_bytes_step (j + k) p a))
