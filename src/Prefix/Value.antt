-- ===== src/Prefix/Value.antt =====
-- Bytes as the digits of a number: the bits of a prefix agree as the routes of Rib cover addresses.
use liblpm.Base.{ℕ, zero, suc, ◌+◌, ◌-◌, ◌*◌, ◌/◌, ◌%◌, ◌^◌, ◌≤◌, ◌<◌, ◌≡◌, refl, arith, ◌&&◌, ◌==◌}
use liblpm.Bits.{shift_shift, pow-add}
use liblpm.Trie.{Bytes}
use liblpm.Dir24.Index.{IsBytes}
use liblpm.Dir24.Cover.{split_shift}
use liblpm.Prefix.{agree_bytes, agree_bits, last_byte, bits_below}

-- The number that the first `n` bytes spell, most significant first.
unfoldable pub value : ℕ → Bytes → ℕ
value zero p = 0
value (suc n) p = value n p * 256 + p n

pub value-lt : (n : ℕ) (p : Bytes) → IsBytes p → value n p < 2 ^ (8 * n)
unfolding value
value-lt zero p bytes = omega arith
value-lt (suc n) p bytes =
    let e : 8 * suc n ≡ 8 * n + 8 = omega arith in
    rw (e, pow-add (8 * n) 8) (omega (arith, value-lt n p bytes, bytes n))

-- Leaving `j` bytes out.
pub value_shift : (j n : ℕ) (p : Bytes) → IsBytes p → value (j + n) p / 2 ^ (8 * j) ≡ value n p
unfolding value
value_shift zero n p bytes = let e : 0 + n ≡ n = omega arith in rw e (omega arith)
value_shift (suc j) n p bytes =
    let e : suc j + n ≡ suc (j + n) = omega arith in
    let z : 8 * suc j ≡ 8 * j + 8 = omega arith in
    let byte : (value (j + n) p * 256 + p (j + n)) / 2 ^ 8 ≡ value (j + n) p =
      omega (arith, bytes (j + n)) in
    rw (e, z, shift_shift (8 * j) 8 (value (suc (j + n)) p), byte) (value_shift j n p bytes)

-- Two numbers agree above bit `k` if they agree above their last byte and in the bits of that byte.
split_eq :
    (k a b : ℕ)
    → k ≤ 8
    → (a / 2 ^ k == b / 2 ^ k) ≡ ((a / 256 == b / 256) && (a % 256 / 2 ^ k == b % 256 / 2 ^ k))
split_eq k a b h = ground (
  arith,
  split_shift (8 - k) k a (omega arith),
  split_shift (8 - k) k b (omega arith),
  shift_shift (8 - k) k a,
  shift_shift (8 - k) k b,
  whole,
)
  where
    whole : 8 - k + k ≡ 8
    whole = omega arith

agree_bytes-eq-value :
    (k : ℕ) (p a : Bytes) → IsBytes p → IsBytes a → agree_bytes k p a ≡ (value k a == value k p)
unfolding agree_bytes value
agree_bytes-eq-value zero p a bp ba = refl
agree_bytes-eq-value (suc k) p a bp ba =
    ground (arith, agree_bytes-eq-value k p a bp ba, bp k, ba k)

-- The first `len` of `8 * n` bits.
pub agree_bits-eq-value :
    (n len : ℕ) (p a : Bytes)
    → IsBytes p
    → IsBytes a
    → 0 < len
    → len ≤ 8 * n
    → agree_bits len p a ≡ (value n a / 2 ^ (8 * n - len) == value n p / 2 ^ (8 * n - len))
agree_bits-eq-value n len p a bp ba pos fits =
    rw
      (
        above,
        shift_shift (bits_below len) (8 * rest) (value n a),
        shift_shift (bits_below len) (8 * rest) (value n p),
        upper a ba,
        upper p bp,
      )
      (ground (
        arith,
        split_eq (bits_below len) (value (suc (last_byte len)) a) (value (suc (last_byte len)) p),
        last a ba,
        last p bp,
        agree_bytes-eq-value (last_byte len) p a bp ba,
      ))
  where
    rest : ℕ
    rest = n - suc (last_byte len)

    above : 8 * n - len ≡ bits_below len + 8 * rest
    above = omega arith

    upper : (b : Bytes) → IsBytes b → value n b / 2 ^ (8 * rest) ≡ value (suc (last_byte len)) b
    upper b bytes =
        let e : rest + suc (last_byte len) ≡ n = omega arith in
        rw e at (value_shift rest (suc (last_byte len)) b bytes)

    last :
        (b : Bytes)
        → IsBytes b
        → (value (suc (last_byte len)) b / 256 ≡ value (last_byte len) b)
          × (value (suc (last_byte len)) b % 256 ≡ b (last_byte len))
    last b bytes = unfold value in omega (arith, bytes (last_byte len))
