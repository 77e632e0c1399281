-- ===== src/Lua/Ipv6.antt =====
-- src/bindings/lua/src/liblpm_utils.c: IPv6 addresses and prefixes.
use liblpm.Base.{
  ℕ, zero, suc, ◌+◌, ◌-◌, ◌/◌, ◌%◌, Bool, true, false, not, ◌&&◌, ◌||◌, ◌==◌, ltb, leb,
  if◌then◌else◌, Option, none, some, [], ◌∷◌, bit_or, bit_and, length,
}
use liblpm.Word.{u8, u16, ◌<<<◌, ◌>>>◌}
use liblpm.Trie.{Bytes, write}
use liblpm.Lua.Text.{
  ◌>>=◌, Text, dot, colon, slash, percent, is_empty, starts, starts_number, split_at, read_number,
}
use liblpm.Lua.Ipv4.{Beyond, parse_ipv4, parse_cidr}

-- `parse_hex_group`: the group and what follows it.
unfoldable pub parse_hex_group : Text → Option (ℕ × Text)
parse_hex_group s = if not (starts_number 16 s) then none else elim (read_number 16 s) [
  | none ↦ none
  | some n ↦
      if ltb 65535 n.magnitude || ltb 4 (length s - length n.rest)
      then none
      else some (u16 n.magnitude, n.rest)
]

-- The local variables of `lpm_lua_parse_ipv6`; `double_colon_pos` is none for -1.
pub record Groups : Type 0 where
  pub groups : ℕ → ℕ
  pub num_groups : ℕ
  pub double_colon_pos : Option ℕ

abbrev pub no_groups : Groups
no_groups = record { groups = λ i. 0; num_groups = 0; double_colon_pos = none }

-- `groups[num_groups++] = value`
abbrev pub push_group : ℕ → Groups → Groups
push_group value g = record g {
  groups = write g.groups g.num_groups value;
  num_groups = g.num_groups + 1;
}

abbrev pub starts_double : Text → Bool
starts_double [] = false
starts_double (c ∷ s) = c == colon && starts colon s

abbrev pub skip_double : Text → Text
skip_double (c ∷ d ∷ s) = s
skip_double (c ∷ []) = []
skip_double [] = []

-- A single colon is skipped.
abbrev pub skip_colon : Text → Text
skip_colon [] = []
skip_colon (c ∷ s) = if c == colon then s else c ∷ s

-- `dot != NULL && (dot - p) <= 3`
abbrev pub embeds_ipv4 : Text → Bool
embeds_ipv4 s = elim (split_at dot s) [
  | none ↦ false
  | some (before, after) ↦ leb (length before) 3
]

-- The embedded IPv4 address takes two groups.
unfoldable pub push_ipv4 : Beyond → Text → Groups → Option Groups
unfolding write
push_ipv4 beyond s g = elim (parse_ipv4 beyond s) [
  | none ↦ none
  | some b ↦
      if ltb 6 g.num_groups
      then none
      else some (
          push_group (bit_or (u16 (b 2 <<< 8)) (b 3))
            (push_group (bit_or (u16 (b 0 <<< 8)) (b 1)) g))
]

abbrev pub is_some : Option ℕ → Bool
is_some none = false
is_some (some n) = true

-- The loop over the groups, at most `rounds` times; none is -1, and also what stops it there.
unfoldable pub read_groups : Beyond → ℕ → Text → Groups → Option Groups
read_groups beyond zero s g = none
read_groups beyond (suc rounds) s g =
    let after_double =
      read_groups beyond rounds (skip_double s)
        (record g { double_colon_pos = some g.num_groups }) in
    if is_empty s || not (ltb g.num_groups 8)
    then some g
    else if starts_double s
    then (if is_some g.double_colon_pos
        then none
        else if is_empty (skip_double s)
        then some (record g { double_colon_pos = some g.num_groups })
        else after_double)
    else if embeds_ipv4 (skip_colon s)
    then push_ipv4 beyond (skip_colon s) g
    else elim (parse_hex_group (skip_colon s)) [
      | none ↦ none
      | some (v, rest) ↦
          let later = read_groups beyond rounds rest (push_group v g) in
          if is_empty rest || (starts slash rest || starts percent rest)
          then some (push_group v g)
          else if not (starts colon rest)
          then none
          else later
    ]

-- The loop that moves the groups after `::` to the end: from `i - 1` down, `left` of them.
unfoldable pub shift_groups : ℕ → ℕ → ℕ → (ℕ → ℕ) → ℕ → ℕ
unfolding write
shift_groups zero i num_zeros groups = groups
shift_groups (suc left) i num_zeros groups =
    shift_groups left (i - 1) num_zeros (write groups (i - 1) (groups (i - 1 - num_zeros)))

-- The loop that fills in zeros.
unfoldable pub fill_zeros : ℕ → ℕ → (ℕ → ℕ) → ℕ → ℕ
unfolding write
fill_zeros zero i groups = groups
fill_zeros (suc left) i groups = fill_zeros left (i + 1) (write groups i 0)

-- The groups with `::` written out.
unfoldable pub expand_groups : Groups → Option (ℕ → ℕ)
expand_groups g = elim g.double_colon_pos [
  | none ↦ if g.num_groups == 8 then some g.groups else none
  | some pos ↦
      if ltb 8 g.num_groups
      then none
      else some (
          fill_zeros (8 - g.num_groups) pos
            (shift_groups (8 - (pos + (8 - g.num_groups))) 8 (8 - g.num_groups) g.groups))
]

-- The bytes of the eight groups.
abbrev pub group_bytes : (ℕ → ℕ) → Bytes
group_bytes groups i =
    if ltb i 16
    then (if i % 2 == 0 then u8 (groups (i / 2) >>> 8) else u8 (bit_and (groups (i / 2)) 255))
    else 0

-- The most times that the loop goes round: once for each group and once for `::`, and the last test.
abbrev pub group_rounds : ℕ
group_rounds = 10

-- The groups that were read, as bytes.
abbrev pub finish : Option Groups → Option Bytes
finish read = do g ← read; groups ← expand_groups g; some (group_bytes groups)

-- `lpm_lua_parse_ipv6`, by a bound on the rounds of its loop.
unfoldable pub parse_ipv6_in : Beyond → ℕ → Text → Option Bytes
parse_ipv6_in beyond rounds s =
    if starts_double s
    then (if is_empty (skip_double s)
        then some (λ i. 0)
        else finish (
            read_groups beyond rounds (skip_double s)
              (record no_groups { double_colon_pos = some 0 })))
    else if starts colon s
    then none
    else finish (read_groups beyond rounds s no_groups)

unfoldable pub parse_ipv6 : Beyond → Text → Option Bytes
parse_ipv6 beyond = parse_ipv6_in beyond group_rounds

unfoldable pub parse_ipv6_cidr : Beyond → Text → Option (Bytes × ℕ)
parse_ipv6_cidr beyond = parse_cidr (parse_ipv6 beyond) 46 16
