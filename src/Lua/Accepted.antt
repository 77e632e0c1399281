-- ===== src/Lua/Accepted.antt =====
-- What the parsers of src/bindings/lua/src/liblpm_utils.c accept is a prefix.
use liblpm.Base.{
  ℕ, ◌-◌, ◌*◌, ◌/◌, ◌%◌, ◌^◌, ◌≤◌, ◌<◌, ◌≡◌, arith, subst, not, ◌&&◌, ◌||◌, ltb, leb, if◌then◌else◌,
  Option, Option-cases, none, some, Bool-cases, inl, inr, length,
}
use native.Mathlib.Nat.{mul-mod_left}
use liblpm.Word.{u8}
use liblpm.Trie.{Bytes}
use liblpm.Prefix.Value.{value}
use liblpm.Dir24.Index.{IsBytes}
use liblpm.Lua.Text.{
  bind-some, some-eq, Text, colon, starts, Number, slash, is_empty, split_at, read_number,
}
use liblpm.Lua.Ipv4.{
  Beyond, scan_dotted, scan_unsigned, octets, parse_ipv4, parse_length, zero_beyond, parse_cidr,
  parse_ipv4_cidr,
}
use liblpm.Lua.Ipv6.{
  Groups, starts_double, skip_double, expand_groups, finish, parse_ipv6_in, parse_ipv6,
  parse_ipv6_cidr,
}
use liblpm.Lua.Network.{zero_beyond-value}

-- The length is in range, and the bits beyond it are zero.
pub record IsPrefix (n : ℕ) (out : Bytes × ℕ) : Type 0 where
  pub fits : out.1 ≤ 8 * n
  pub cleared : value n out.0 % 2 ^ (8 * n - out.1) ≡ 0

parse_length-le : (max_len len : ℕ) (s : Text) → parse_length max_len s ≡ some len → len ≤ max_len
unfolding parse_length
parse_length-le max_len len s e = elim (Bool-cases (is_empty s)) [
  | inl nothing ↦ absurd (cc (rw nothing at e))
  | inr there ↦ elim (Option-cases (read_number 10 s)) [
    | inl bad ↦ absurd (cc (rw (there, bad) at e))
    | inr (n, good) ↦ in_range n (rw (there, good) at e)
  ]
]
  where
    in_range :
        (n : Number)
        → (if is_empty n.rest
              && (not (n.is_negative && ltb 0 n.magnitude) && leb n.magnitude max_len)
            then some n.magnitude
            else none)
          ≡ some len
        → len ≤ max_len
    in_range n f = ground (arith, f)

-- A byte that is cleared or left alone is a byte.
parse_cidr-IsPrefix :
    (parse : Text → Option Bytes)
    → ((s : Text) (p : Bytes) → parse s ≡ some p → IsBytes p)
    → (room n : ℕ) → n < 32
    → (s : Text) (out : Bytes × ℕ) → parse_cidr parse room n s ≡ some out
    → IsPrefix n out
unfolding parse_cidr
parse_cidr-IsPrefix parse bytes room n small s out e =
    let halves = bind-some (split_at slash s) _ out e in
    let address = bind-some _ _ out halves.1.1 in
    let length_read = bind-some _ _ out address.1.1 in
    accepted halves.0 address.0 length_read.0
      (parsed (length halves.0.0) halves.0.0 address.0 address.1.0)
      (parse_length-le (8 * n) length_read.0 halves.0.1 length_read.1.0) (some-eq length_read.1.1)
  where
    parsed :
        (k : ℕ) (before : Text) (p : Bytes)
        → (if leb room k then none else parse before) ≡ some p
        → IsBytes p
    parsed k before p f = elim (Bool-cases (leb room k)) [
      | inl long ↦ absurd (cc (rw long at f))
      | inr short ↦ bytes before p (rw short at f)
    ]

    accepted :
        Text × Text
        → (p : Bytes) (len : ℕ) → IsBytes p
        → len ≤ 8 * n
        → (zero_beyond n (u8 len) p, u8 len) ≡ out
        → IsPrefix n out
    accepted halves p len byte fits same =
        let kept : u8 len ≡ len = omega arith in
        subst (IsPrefix n) (rw kept at same) (record {
          fits = fits;
          cleared =
              rw (zero_beyond-value p byte n len fits)
                (mul-mod_left (value n p / 2 ^ (8 * n - len)) (2 ^ (8 * n - len)));
        })

octets-IsBytes : (a b c d : ℕ) (rest : Text) (p : Bytes) → octets a b c d rest ≡ some p → IsBytes p
octets-IsBytes a b c d rest p e =
    elim (Bool-cases
      (is_empty rest && not (ltb 255 a || (ltb 255 b || (ltb 255 c || ltb 255 d))))) [
        | inl good ↦ subst IsBytes (some-eq (rw good at e)) (λ i. ground arith)
        | inr bad ↦ absurd (cc (rw bad at e))
      ]

parse_ipv4-IsBytes :
    (beyond : Beyond) (s : Text) (p : Bytes) → parse_ipv4 beyond s ≡ some p → IsBytes p
unfolding parse_ipv4
parse_ipv4-IsBytes beyond s p e =
    let first = bind-some (scan_dotted beyond s) _ p e in
    let second = bind-some (scan_dotted beyond first.0.1) _ p first.1.1 in
    let third = bind-some (scan_dotted beyond second.0.1) _ p second.1.1 in
    let fourth = bind-some (scan_unsigned beyond third.0.1) _ p third.1.1 in
    octets-IsBytes first.0.0 second.0.0 third.0.0 fourth.0.0 fourth.0.1 p fourth.1.1

finish-IsBytes : (read : Option Groups) (p : Bytes) → finish read ≡ some p → IsBytes p
finish-IsBytes read p e =
    let g = bind-some read _ p e in
    let groups = bind-some (expand_groups g.0) _ p g.1.1 in
    subst IsBytes (some-eq groups.1.1) (λ i. ground arith)

parse_ipv6-IsBytes :
    (beyond : Beyond) (s : Text) (p : Bytes) → parse_ipv6 beyond s ≡ some p → IsBytes p
unfolding parse_ipv6 parse_ipv6_in
parse_ipv6-IsBytes beyond s p e = elim (Bool-cases (starts_double s)) [
  | inl double ↦ elim (Bool-cases (is_empty (skip_double s))) [
    | inl only ↦ subst IsBytes (some-eq (rw (double, only) at e)) (λ i. omega arith)
    | inr more ↦ finish-IsBytes _ p (rw (double, more) at e)
  ]
  | inr single ↦ elim (Bool-cases (starts colon s)) [
    | inl bad ↦ absurd (cc (rw (single, bad) at e))
    | inr good ↦ finish-IsBytes _ p (rw (single, good) at e)
  ]
]

-- Whatever text the IPv4 prefix parser accepts, and whatever `%u` makes of numbers that are too
-- great: the length that it gives is at most 32, and the bits of the address beyond it are zero.
pub parse_ipv4_cidr-IsPrefix :
    (beyond : Beyond) (s : Text) (out : Bytes × ℕ)
    → parse_ipv4_cidr beyond s ≡ some out
    → IsPrefix 4 out
unfolding parse_ipv4_cidr
parse_ipv4_cidr-IsPrefix beyond s out e =
    parse_cidr-IsPrefix (parse_ipv4 beyond) (parse_ipv4-IsBytes beyond) 16 4 (omega arith) s out e

-- Whatever text the IPv6 prefix parser accepts, and whatever `%u` makes of numbers that are too
-- great: the length that it gives is at most 128, and the bits of the address beyond it are zero.
pub parse_ipv6_cidr-IsPrefix :
    (beyond : Beyond) (s : Text) (out : Bytes × ℕ)
    → parse_ipv6_cidr beyond s ≡ some out
    → IsPrefix 16 out
unfolding parse_ipv6_cidr
parse_ipv6_cidr-IsPrefix beyond s out e =
    parse_cidr-IsPrefix (parse_ipv6 beyond) (parse_ipv6-IsBytes beyond) 46 16 (omega arith) s out e
