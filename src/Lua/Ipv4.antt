-- ===== src/Lua/Ipv4.antt =====
-- src/bindings/lua/src/liblpm_utils.c: IPv4 addresses and prefixes.
use liblpm.Base.{
  ℕ, zero, suc, ◌+◌, ◌-◌, ◌*◌, ◌/◌, ◌%◌, ◌^◌, Bool, not, ◌&&◌, ◌||◌, ◌==◌, ltb, leb, if◌then◌else◌,
  Option, none, some, [], ◌∷◌, bit_and, length,
}
use liblpm.Word.{u8, ◌<<<◌}
use liblpm.Trie.{Bytes, write}
use liblpm.Lua.Text.{◌>>=◌, Text, slash, dot, is_empty, split_at, read_number}

-- `%u` stores a number that no unsigned int holds as the C library likes.
abbrev pub Beyond : Type 0
Beyond = Bool → ℕ → ℕ

-- `%u`
unfoldable pub scan_unsigned : Beyond → Text → Option (ℕ × Text)
scan_unsigned beyond s = elim (read_number 10 s) [
  | none ↦ none
  | some n ↦ some (
    (if ltb n.magnitude (2 ^ 32)
        then (if n.is_negative then (2 ^ 32 - n.magnitude) % 2 ^ 32 else n.magnitude)
        else beyond n.is_negative n.magnitude),
    n.rest,
  )
]

-- `%u.`
unfoldable pub scan_dotted : Beyond → Text → Option (ℕ × Text)
scan_dotted beyond s = elim (scan_unsigned beyond s) [
  | none ↦ none
  | some (n, []) ↦ none
  | some (n, c ∷ rest) ↦ if c == dot then some (n, rest) else none
]

abbrev pub bytes4 : ℕ → ℕ → ℕ → ℕ → Bytes
bytes4 a b c d i =
    if i == 0 then a else if i == 1 then b else if i == 2 then c else if i == 3 then d else 0

-- The tests on the four numbers and on what follows them.
abbrev pub octets : ℕ → ℕ → ℕ → ℕ → Text → Option Bytes
octets a b c d rest =
    if is_empty rest && not (ltb 255 a || (ltb 255 b || (ltb 255 c || ltb 255 d)))
    then some (bytes4 (u8 a) (u8 b) (u8 c) (u8 d))
    else none

-- `lpm_lua_parse_ipv4`. `sscanf` gives 4 if the four numbers are there and no character follows.
unfoldable pub parse_ipv4 : Beyond → Text → Option Bytes
parse_ipv4 beyond s = do
  (a, s1) ← scan_dotted beyond s
  (b, s2) ← scan_dotted beyond s1
  (c, s3) ← scan_dotted beyond s2
  (d, s4) ← scan_unsigned beyond s3
  octets a b c d s4

-- `strtol` of the length, and the tests on what it gives.
unfoldable pub parse_length : ℕ → Text → Option ℕ
parse_length max_len s = if is_empty s then none else elim (read_number 10 s) [
  | none ↦ none
  | some n ↦
      if is_empty n.rest && (not (n.is_negative && ltb 0 n.magnitude) && leb n.magnitude max_len)
      then some n.magnitude
      else none
]

-- The loop that clears the bytes from `i` on, `left` of them.
unfoldable pub clear_bytes : ℕ → ℕ → Bytes → Bytes
unfolding write
clear_bytes zero i p = p
clear_bytes (suc left) i p = clear_bytes left (i + 1) (write p i 0)

-- The bits beyond the prefix length are cleared, of `n` bytes.
unfoldable pub zero_beyond : ℕ → ℕ → Bytes → Bytes
unfolding clear_bytes write
zero_beyond n len p =
    if ltb len (8 * n)
    then (if ltb 0 (len % 8)
        then clear_bytes (n - (len / 8 + 1)) (len / 8 + 1)
            (write p (len / 8) (bit_and (p (len / 8)) (u8 (255 <<< (8 - len % 8)))))
        else clear_bytes (n - len / 8) (len / 8) p)
    else p

-- `lpm_lua_parse_ipv4_cidr` and `lpm_lua_parse_ipv6_cidr`, by the parser of the address, the room
-- for its text, and its bytes.
unfoldable pub parse_cidr : (Text → Option Bytes) → ℕ → ℕ → Text → Option (Bytes × ℕ)
parse_cidr parse room n s = do
  (before, after) ← split_at slash s
  p ← (if leb room (length before) then none else parse before)
  len ← parse_length (8 * n) after
  some (zero_beyond n (u8 len) p, u8 len)

unfoldable pub parse_ipv4_cidr : Beyond → Text → Option (Bytes × ℕ)
parse_ipv4_cidr beyond = parse_cidr (parse_ipv4 beyond) 16 4
