-- ===== src/Lua/Cidr.antt =====
-- IPv4 addresses and prefixes that are written out, and what the parsers of
-- src/bindings/lua/src/liblpm_utils.c make of them.
use liblpm.Base.{
  ℕ, zero, suc, ◌-◌, ◌*◌, ◌/◌, ◌^◌, ◌≤◌, ◌<◌, ◌≡◌, refl, arith, ◌∙◌, true, false, ltb, leb, some,
  [], ◌∷◌, length, Bool-cases, inl, inr,
}
use liblpm.Word.{u8}
use liblpm.Trie.{Bytes}
use liblpm.Prefix.Value.{value}
use liblpm.Dir24.Index.{IsBytes}
use liblpm.Lua.Text.{Text, is_empty, slash, dot, starts_number, split_at}
use liblpm.Lua.Ipv4.{
  Beyond, scan_unsigned, scan_dotted, bytes4, parse_ipv4, parse_length, zero_beyond, parse_cidr,
  parse_ipv4_cidr,
}
use liblpm.Lua.Print.{
  print_byte, read_number-print_byte, split_past, split_at-print_byte, length-print_byte,
}
use liblpm.Lua.Network.{zero_beyond-value, value_same}

-- The four bytes in decimal with dots between them, before the text `s`.
abbrev pub print_ipv4 : Bytes → Text → Text
print_ipv4 a s =
    print_byte (a 0) (dot ∷ print_byte (a 1) (dot ∷ print_byte (a 2) (dot ∷ print_byte (a 3) s)))

-- The address, a slash and the length.
abbrev pub print_ipv4_cidr : Bytes → ℕ → Text
print_ipv4_cidr a len = print_ipv4 a (slash ∷ print_byte len [])

module _ (beyond : Beyond) where
  scan_unsigned-print :
      (n : ℕ) (s : Text)
      → n < 256
      → starts_number 10 s ≡ false
      → scan_unsigned beyond (print_byte n s) ≡ some (n, s)
  unfolding scan_unsigned
  scan_unsigned-print n s fits stop =
      let held : ltb n (2 ^ 32) ≡ true = ground arith in
      rw (scan_unsigned, read_number-print_byte n s fits stop, held) refl

  scan_dotted-print :
      (n : ℕ) (s : Text) → n < 256 → scan_dotted beyond (print_byte n (dot ∷ s)) ≡ some (n, s)
  unfolding scan_dotted
  scan_dotted-print n s fits = rw (scan_dotted, scan_unsigned-print n (dot ∷ s) fits refl) refl

  -- The address that is written out.
  pub parse_ipv4-print :
      (a : Bytes)
      → IsBytes a
      → parse_ipv4 beyond (print_ipv4 a []) ≡ some (bytes4 (a 0) (a 1) (a 2) (a 3))
  unfolding parse_ipv4
  parse_ipv4-print a bytes =
      let in_range : (i : ℕ) → ltb 255 (a i) ≡ false = λ i. ground (arith, bytes i) in
      let kept : (i : ℕ) → u8 (a i) ≡ a i = λ i. omega (arith, bytes i) in
      rw
        (
          scan_dotted-print (a 0) _ (bytes 0),
          scan_dotted-print (a 1) _ (bytes 1),
          scan_dotted-print (a 2) _ (bytes 2),
          scan_unsigned-print (a 3) [] (bytes 3) refl,
          in_range 0,
          in_range 1,
          in_range 2,
          in_range 3,
          kept 0,
          kept 1,
          kept 2,
          kept 3,
        )
        refl

is_empty-print_byte : (n : ℕ) (s : Text) → is_empty (print_byte n s) ≡ false
is_empty-print_byte n s = elim (Bool-cases (ltb n 10)) [
  | inl one ↦ rw one refl
  | inr more ↦ elim (Bool-cases (ltb n 100)) [
    | inl two ↦ rw (more, two) refl
    | inr three ↦ rw (more, three) refl
  ]
]

parse_length-print :
    (max_len len : ℕ)
    → len < 256
    → len ≤ max_len
    → parse_length max_len (print_byte len []) ≡ some len
unfolding parse_length
parse_length-print max_len len fits h =
    let in_range : leb len max_len ≡ true = ground arith in
    rw (is_empty-print_byte len [], read_number-print_byte len [] fits refl, in_range) refl

split_here : (s : Text) → split_at slash (slash ∷ s) ≡ some ([], s)
unfolding split_at
split_here s = refl

split-print :
    (a : Bytes) (s : Text) → split_at slash (print_ipv4 a (slash ∷ s)) ≡ some (print_ipv4 a [], s)
split-print a s = split_at-print_byte slash (a 0) _ _ s (omega arith) (
    split_past slash dot _ _ s refl (
      split_at-print_byte slash (a 1) _ _ s (omega arith) (
        split_past slash dot _ _ s refl (
          split_at-print_byte slash (a 2) _ _ s (omega arith) (
            split_past slash dot _ _ s refl
              (split_at-print_byte slash (a 3) _ _ s (omega arith) (split_here s)))))))

length-print_ipv4 : (a : Bytes) → length (print_ipv4 a []) < 16
length-print_ipv4 a = omega (
  arith,
  length-print_byte (a 0)
      (dot ∷ print_byte (a 1) (dot ∷ print_byte (a 2) (dot ∷ print_byte (a 3) []))),
  length-print_byte (a 1) (dot ∷ print_byte (a 2) (dot ∷ print_byte (a 3) [])),
  length-print_byte (a 2) (dot ∷ print_byte (a 3) []),
  length-print_byte (a 3) [],
)

-- The text of an IPv4 address, a slash and a length of at most 32, in decimal without leading zeros,
-- is read as that length and as the address with the bits beyond it cleared.
pub parse_ipv4_cidr-print :
    (beyond : Beyond) (a : Bytes) (len : ℕ)
    → IsBytes a
    → len ≤ 32
    → (p : Bytes) × ((parse_ipv4_cidr beyond (print_ipv4_cidr a len) ≡ some (p, len))
        × (value 4 p ≡ value 4 a / 2 ^ (32 - len) * 2 ^ (32 - len)))
unfolding parse_ipv4_cidr parse_cidr
parse_ipv4_cidr-print beyond a len bytes fits =
    let room : leb 16 (length (print_ipv4 a [])) ≡ false = ground (arith, length-print_ipv4 a) in
    let kept : u8 len ≡ len = omega arith in
    (
      zero_beyond 4 len four,
      (
        rw
            (
              split-print a (print_byte len []),
              room,
              parse_ipv4-print beyond a bytes,
              parse_length-print 32 len (omega arith) fits,
              kept,
            )
            refl,
        zero_beyond-value four four_bytes 4 len fits ∙ rw same refl,
      ),
    )
  where
    four : Bytes
    four = bytes4 (a 0) (a 1) (a 2) (a 3)

    four_bytes : IsBytes four
    four_bytes i = ground (arith, bytes 0, bytes 1, bytes 2, bytes 3)

    same : value 4 four ≡ value 4 a
    same = value_same 4 a four (λ i h. at i h)
      where
        at : (i : ℕ) → i < 4 → four i ≡ a i
        at zero h = refl
        at (suc zero) h = refl
        at (suc (suc zero)) h = refl
        at (suc (suc (suc zero))) h = refl
        at (suc (suc (suc (suc i)))) h = absurd (omega arith)
