-- ===== src/Php/Prefix.antt =====
-- src/bindings/php/liblpm.c: reading addresses and prefixes.
use liblpm.Base.{ℕ, Bool, not, ◌&&◌, ltb, leb, if◌then◌else◌, Option, none, some, length}
use liblpm.Word.{u8}
use liblpm.Trie.{Bytes}
use liblpm.Lua.Text.{◌>>=◌, Text, slash, is_empty, split_at, read_number}

-- `inet_pton` for the two families: the bytes of the address, if the text is one.
pub record Pton : Type 0 where
  pub ipv4 : Text → Option Bytes
  pub ipv6 : Text → Option Bytes

-- `liblpm_parse_ipv4_addr` and `liblpm_parse_ipv6_addr`
abbrev pub parse_addr : Pton → Bool → Text → Option Bytes
parse_addr pton is_ipv6 s = if is_ipv6 then pton.ipv6 s else pton.ipv4 s

abbrev pub max_length : Bool → ℕ
max_length is_ipv6 = if is_ipv6 then 128 else 32

-- `strtol` of the length; where it reads nothing it gives 0 and stays where it is.
unfoldable pub prefix_length : ℕ → Text → Option ℕ
prefix_length max_len s = elim (read_number 10 s) [
  | none ↦ if is_empty s then some 0 else none
  | some n ↦
      if is_empty n.rest && (not (n.is_negative && ltb 0 n.magnitude) && leb n.magnitude max_len)
      then some (u8 n.magnitude)
      else none
]

-- `liblpm_parse_ipv4_prefix` and `liblpm_parse_ipv6_prefix`
unfoldable pub parse_prefix : Pton → Bool → Text → Option (Bytes × ℕ)
parse_prefix pton is_ipv6 s = do
  (before, after) ← split_at slash s
  len ← (if leb 64 (length before) then none else prefix_length (max_length is_ipv6) after)
  addr ← parse_addr pton is_ipv6 before
  some (addr, len)
