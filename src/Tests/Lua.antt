-- ===== src/Tests/Lua.antt =====
-- src/bindings/lua on texts that are written out as character codes.
use liblpm.Base.{
  ℕ, ◌+◌, ◌-◌, ◌/◌, ◌*◌, ◌^◌, ◌≡◌, refl, arith, ◌==◌, if◌then◌else◌, Option, some, none, [], ◌∷◌,
}
use liblpm.Trie.{Bytes, write}
use liblpm.Prefix.Value.{value}
use liblpm.Dir24.Index.{IsBytes}
use liblpm.Lua.Text.{Text, split_at, read_digits, skip_space, read_number}
use liblpm.Lua.Ipv4.{
  Beyond, scan_unsigned, scan_dotted, parse_ipv4, parse_length, clear_bytes, zero_beyond,
  parse_cidr, parse_ipv4_cidr,
}
use liblpm.Lua.Ipv6.{
  parse_hex_group, read_groups, shift_groups, fill_zeros, expand_groups, parse_ipv6_in, parse_ipv6,
  parse_ipv6_cidr,
}
use liblpm.Lua.Cidr.{print_ipv4_cidr, parse_ipv4_cidr-print}
use liblpm.Lua.Accepted.{IsPrefix, parse_ipv6_cidr-IsPrefix}

-- A C library that stores all ones.
abbrev ones : Beyond
ones is_negative n = 2 ^ 32 - 1

-- 192.168.77.3
abbrev host : Bytes
host i = if i == 0 then 192 else if i == 1 then 168 else if i == 2 then 77 else 3

host-IsBytes : IsBytes host
host-IsBytes i = ground arith

parse_ipv4_cidr-print_example :
    (p : Bytes) × ((parse_ipv4_cidr ones (print_ipv4_cidr host 20) ≡ some (p, 20))
      × (value 4 p ≡ value 4 host / 2 ^ (32 - 20) * 2 ^ (32 - 20)))
parse_ipv4_cidr-print_example = parse_ipv4_cidr-print ones host 20 host-IsBytes (omega arith)

-- What is read, and the number that its first bytes spell.
abbrev seen : ℕ → Option Bytes → Option ℕ
seen n none = none
seen n (some p) = some (value n p)

abbrev seen_cidr : Option (Bytes × ℕ) → Option (ℕ × ℕ)
seen_cidr none = none
seen_cidr (some (p, len)) = some (value 16 p, len)

-- "2001:db8::1/33"
abbrev cidr_text : Text
cidr_text = 50 ∷ 48 ∷ 48 ∷ 49 ∷ 58 ∷ 100 ∷ 98 ∷ 56 ∷ 58 ∷ 58 ∷ 49 ∷ 47 ∷ 51 ∷ 51 ∷ []

parse_cidr_text : seen_cidr (parse_ipv6_cidr ones cidr_text) ≡ some (0x2001_0db8 * 2 ^ 96, 33)
unfolding parse_ipv6_cidr parse_cidr parse_ipv6 parse_ipv6_in read_groups expand_groups shift_groups
    fill_zeros parse_hex_group read_number read_digits skip_space split_at parse_length zero_beyond
    clear_bytes write value
parse_cidr_text = refl

abbrev cidr_out : Bytes × ℕ
unfolding parse_ipv6_cidr parse_cidr parse_ipv6 parse_ipv6_in read_groups expand_groups shift_groups
    fill_zeros parse_hex_group read_number read_digits skip_space split_at parse_length zero_beyond
    clear_bytes write
cidr_out = elim (parse_ipv6_cidr ones cidr_text) [ none ↦ (λ i. 0, 0) | some out ↦ out ]

cidr_out_lem : parse_ipv6_cidr ones cidr_text ≡ some cidr_out
unfolding cidr_out parse_ipv6_cidr parse_cidr parse_ipv6 parse_ipv6_in read_groups expand_groups
    parse_hex_group read_number read_digits skip_space split_at parse_length
cidr_out_lem = refl

parse_ipv6_cidr-IsPrefix_example : IsPrefix 16 cidr_out
parse_ipv6_cidr-IsPrefix_example = parse_ipv6_cidr-IsPrefix ones cidr_text cidr_out cidr_out_lem

-- "1:::2"
triple_colon : seen 16 (parse_ipv6 ones (49 ∷ 58 ∷ 58 ∷ 58 ∷ 50 ∷ [])) ≡ some (2 ^ 112 + 2)
unfolding parse_ipv6 parse_ipv6_in read_groups expand_groups shift_groups fill_zeros parse_hex_group
    read_number read_digits skip_space split_at write value
triple_colon = refl

-- "1:2:3:4:5:6:7:8:9"
nine_groups :
    seen 2 (
      parse_ipv6 ones
        (49 ∷ 58 ∷ 50 ∷ 58 ∷ 51 ∷ 58 ∷ 52 ∷ 58 ∷ 53 ∷ 58 ∷ 54 ∷ 58 ∷ 55 ∷ 58 ∷ 56 ∷ 58 ∷ 57 ∷ []))
    ≡ some 1
unfolding parse_ipv6 parse_ipv6_in read_groups expand_groups parse_hex_group read_number read_digits
    skip_space split_at write value
nine_groups = refl

-- "0xab::"
marked_group : seen 2 (parse_ipv6 ones (48 ∷ 120 ∷ 97 ∷ 98 ∷ 58 ∷ 58 ∷ [])) ≡ some 0xab
unfolding parse_ipv6 parse_ipv6_in read_groups expand_groups shift_groups fill_zeros parse_hex_group
    read_number read_digits skip_space split_at write value
marked_group = refl

-- " +1.-0.3.4"
signed_octets :
    seen 4 (parse_ipv4 ones (32 ∷ 43 ∷ 49 ∷ 46 ∷ 45 ∷ 48 ∷ 46 ∷ 51 ∷ 46 ∷ 52 ∷ []))
    ≡ some 0x0100_0304
unfolding parse_ipv4 scan_dotted scan_unsigned read_number read_digits skip_space value
signed_octets = refl
