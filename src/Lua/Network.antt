-- ===== src/Lua/Network.antt =====
-- The bits beyond a prefix length, cleared as `lpm_lua_parse_ipv4_cidr` and
-- `lpm_lua_parse_ipv6_cidr` do it, by the number that the bytes spell.
use native.Mathlib.Nat.{one-le-pow, pow-le-pow_right}
use liblpm.Base.{
  ℕ, zero, suc, ◌+◌, ◌-◌, ◌*◌, ◌/◌, ◌%◌, ◌^◌, ◌≤◌, ◌<◌, ◌≡◌, refl, arith, ◌∙◌, ◌&&◌, ◌==◌, ltb, leb,
  if◌then◌else◌, bit_and, Bool-cases, inl, inr,
}
use liblpm.Bits.{bit_and_align, shift_shift, pow-add}
use liblpm.Word.{u8, ◌<<<◌}
use liblpm.Trie.{Bytes, write}
use liblpm.Prefix.Value.{value, value_shift}
use liblpm.Dir24.Index.{IsBytes}
use liblpm.Lua.Ipv4.{clear_bytes, zero_beyond}

clear_bytes_lem :
    (left i : ℕ) (p : Bytes) (j : ℕ)
    → clear_bytes left i p j ≡ (if leb i j && ltb j (i + left) then 0 else p j)
unfolding clear_bytes write
clear_bytes_lem zero i p j = ground arith
clear_bytes_lem (suc left) i p j = clear_bytes_lem left (i + 1) (write p i 0) j ∙ ground arith

pub value_same : (k : ℕ) (p q : Bytes) → ((i : ℕ) → i < k → q i ≡ p i) → value k q ≡ value k p
unfolding value
value_same zero p q same = refl
value_same (suc k) p q same =
    rw (value_same k p q (λ i h. same i (omega arith)), same k (omega arith)) refl

value-cleared :
    (j k : ℕ) (q : Bytes)
    → ((i : ℕ) → k ≤ i → i < j + k → q i ≡ 0)
    → value (j + k) q ≡ value k q * 2 ^ (8 * j)
unfolding value
value-cleared zero k q none_set = let e : 0 + k ≡ k = omega arith in rw e (omega arith)
value-cleared (suc j) k q none_set =
    let e : suc j + k ≡ suc (j + k) = omega arith in
    let z : 8 * suc j ≡ 8 * j + 8 = omega arith in
    let last : q (j + k) ≡ 0 = none_set (j + k) (omega arith) (omega arith) in
    let rest = value-cleared j k q (λ i lo hi. none_set i lo (omega arith)) in
    rw (e, z, pow-add (8 * j) 8, last, rest) (ground arith)

mask_lem : (b x : ℕ) → 1 ≤ b → b ≤ 7 → x < 256 → bit_and x (u8 (255 <<< b)) ≡ x / 2 ^ b * 2 ^ b
mask_lem b x lo hi fits =
    let mask : u8 (255 <<< b) ≡ 2 ^ 8 - 2 ^ b = omega (
      arith,
      one-le-pow b 2,
      pow-le-pow_right {n = 2} (omega arith) {i = b} {j = 7} (omega arith),
    ) in
    rw mask (bit_and_align 8 b x (omega arith) fits)

-- Whole bytes above `b` bits of the last one.
floor_byte : (b v x : ℕ) → b ≤ 7 → (v * 256 + x) / 2 ^ b * 2 ^ b ≡ v * 256 + x / 2 ^ b * 2 ^ b
floor_byte zero v x h = omega arith
floor_byte (suc zero) v x h = omega arith
floor_byte (suc (suc zero)) v x h = omega arith
floor_byte (suc (suc (suc zero))) v x h = omega arith
floor_byte (suc (suc (suc (suc zero)))) v x h = omega arith
floor_byte (suc (suc (suc (suc (suc zero))))) v x h = omega arith
floor_byte (suc (suc (suc (suc (suc (suc zero)))))) v x h = omega arith
floor_byte (suc (suc (suc (suc (suc (suc (suc zero))))))) v x h = omega arith
floor_byte (suc (suc (suc (suc (suc (suc (suc (suc b)))))))) v x h = absurd (omega arith)

module _ (p : Bytes) (bytes : IsBytes p) where
  -- A cleared number of `j + k` bytes, of which the first `k` are cleared below bit `b`.
  floor_lem :
      (b j k : ℕ) (q : Bytes)
      → ((i : ℕ) → k ≤ i → i < j + k → q i ≡ 0)
      → value k q ≡ value k p / 2 ^ b * 2 ^ b
      → value (j + k) q ≡ value (j + k) p / 2 ^ (b + 8 * j) * 2 ^ (b + 8 * j)
  floor_lem b j k q cleared first =
      rw
        (
          value-cleared j k q cleared,
          first,
          shift_shift b (8 * j) (value (j + k) p),
          value_shift j k p bytes,
          pow-add b (8 * j),
        )
        (ground arith)

  module _ (n full m : ℕ) where
    abbrev after : Bytes
    after = clear_bytes (n - (full + 1)) (full + 1) (write p full m)

    after_lem :
        (j : ℕ)
        → after j ≡ (
            if leb (full + 1) j && ltb j (full + 1 + (n - (full + 1)))
            then 0
            else if j == full
            then m
            else p j)
    after_lem j =
        clear_bytes_lem (n - (full + 1)) (full + 1) (write p full m) j ∙ (unfold write in refl)

    after-value :
        full < n
        → (b : ℕ) → b ≤ 7
        → m ≡ p full / 2 ^ b * 2 ^ b
        → value n after ≡ value n p / 2 ^ (b + 8 * (n - suc full)) * 2 ^ (b + 8 * (n - suc full))
    after-value inside b small masked =
        let sum : n - suc full + suc full ≡ n = omega arith in
        rw sum at (
          floor_lem b (n - suc full) (suc full) after (λ i from below. after_lem i ∙ ground arith)
            first)
      where
        first : value (suc full) after ≡ value (suc full) p / 2 ^ b * 2 ^ b
        first =
            unfold value in
            let upper : value full after ≡ value full p =
              value_same full p after (λ i h. after_lem i ∙ ground arith) in
            let last : after full ≡ p full / 2 ^ b * 2 ^ b =
              after_lem full ∙ ground (arith, masked) in
            rw (upper, last, floor_byte b (value full p) (p full) small) refl

  -- The bytes that are left spell the lowest number with the same first `len` bits.
  pub zero_beyond-value :
      (n len : ℕ)
      → len ≤ 8 * n
      → value n (zero_beyond n len p) ≡ value n p / 2 ^ (8 * n - len) * 2 ^ (8 * n - len)
  unfolding zero_beyond
  zero_beyond-value n len fits = elim (Bool-cases (ltb len (8 * n))) [
    | inr whole ↦
        let none_left : 8 * n - len ≡ 0 = ground arith in rw (whole, none_left) (omega arith)
    | inl some_left ↦ elim (Bool-cases (ltb 0 (len % 8))) [
      | inl bits ↦
          let left : 8 * n - len ≡ 8 - len % 8 + 8 * (n - suc (len / 8)) = ground arith in
          rw (some_left, bits, left)
            (after-value n (len / 8) _ (ground arith) (8 - len % 8) (ground arith)
              (mask_lem (8 - len % 8) (p (len / 8)) (omega arith) (ground arith) (bytes (len / 8))))
      | inr no_bits ↦
          let left : 8 * n - len ≡ 0 + 8 * (n - len / 8) = ground arith in
          let sum : n - len / 8 + len / 8 ≡ n = ground arith in
          rw (some_left, no_bits, left)
            (rw sum at (
              floor_lem 0 (n - len / 8) (len / 8) (clear_bytes (n - len / 8) (len / 8) p)
                (λ i from below. clear_bytes_lem (n - len / 8) (len / 8) p i ∙ ground arith)
                (value_same (len / 8) p (clear_bytes (n - len / 8) (len / 8) p)
                    (λ i h. clear_bytes_lem (n - len / 8) (len / 8) p i ∙ ground arith)
                  ∙ omega arith)))
    ]
  ]
