-- ===== src/Dir24/Answer.antt =====
-- The entry that a lookup of src/dir24/single.c reads, and the answer it makes of it.
use liblpm.Base.{
  ℕ, ◌+◌, ◌*◌, ◌/◌, ◌%◌, ◌^◌, ◌<◌, ◌≡◌, arith, if◌then◌else◌, ap, Option, none, some, leb,
  Bool-cases, inl, inr, bit_or, bit_and,
}
use liblpm.Bits.{bit_or_fields, bit_and_low}
use liblpm.Word.{u32, ◌<<<◌, nh_mask, invalid_next_hop}
use liblpm.Word.Flags.{test-valid_flag, bit_and-nh_mask}
use liblpm.Trie.{Trie, Bytes}
use liblpm.Dir24.Index.{IsBytes, word, dir24_index_lem}
use liblpm.Dir24.Valid.{IsValid, extended, group_of, used-le}
use liblpm.Dir24.Lookup.{
  entry_next_hop, dir24_lookup, with_default, lookup_ipv4_dir24_bytes, address_bytes,
  lookup_ipv4_dir24,
}

-- The entry that decides on the address `a`.
unfoldable pub entry_at : Trie → ℕ → ℕ
entry_at t a =
    if extended t (a / 256)
    then t.tbl8_groups (group_of t (a / 256) * 256 + a % 256)
    else t.dir24_table (a / 256)

-- The next hop in an entry as arithmetic: bit 31 says that there is one, the low 30 bits which.
unfoldable pub decode : ℕ → Option ℕ
decode d = if leb (2 ^ 31) d then some (d % 2 ^ 30) else none

unfoldable pub or_invalid : Option ℕ → ℕ
or_invalid none = invalid_next_hop
or_invalid (some nh) = nh

pub entry_next_hop_lem : (d : ℕ) → d < 2 ^ 32 → entry_next_hop d ≡ or_invalid (decode d)
unfolding entry_next_hop decode or_invalid
entry_next_hop_lem d h = ground (arith, test-valid_flag d h, bit_and-nh_mask d)

pub entry_at-lt : {t : Trie} → IsValid t → (a : ℕ) → entry_at t a < 2 ^ 32
unfolding entry_at
entry_at-lt {t} valid a =
    ground
      (arith, valid.table_words (a / 256), valid.group_words (group_of t (a / 256) * 256 + a % 256))

-- What the trie answers without its default route.
unfoldable pub route_at : Trie → ℕ → Option ℕ
route_at t a = decode (entry_at t a)

-- The index into the groups: the group's first entry, plus the last byte.
tbl8_index :
    (p : Bytes) (d : ℕ)
    → IsBytes p
    → d % 2 ^ 30 < 2 ^ 24
    → bit_or (u32 (bit_and d nh_mask <<< 8)) (p 3) ≡ d % 2 ^ 30 * 256 + word p % 256
tbl8_index p d bytes h =
    let e : u32 ((d % 2 ^ 30) <<< 8) ≡ d % 2 ^ 30 * 2 ^ 8 = omega arith in
    rw (bit_and-nh_mask d, e, bit_or_fields 8 (d % 2 ^ 30) (p 3) (bytes 3)) (omega (arith, bytes 3))

pub dir24_lookup_lem :
    {t : Trie} (p : Bytes)
    → IsValid t
    → IsBytes p
    → dir24_lookup t.dir24_table t.tbl8_groups p ≡ or_invalid (route_at t (word p))
unfolding dir24_lookup entry_at route_at
dir24_lookup_lem {t} p valid bytes =
    rw (dir24_index_lem p bytes) (elim (Bool-cases (extended t (word p / 256))) [
      | inl long ↦
          rw
            (
              long,
              tbl8_index p (t.dir24_table (word p / 256)) bytes (
                  ground (
                    arith,
                    used-le valid,
                    valid.group_used (word p / 256),
                    bytes 0,
                    bytes 1,
                    bytes 2,
                    bytes 3,
                  )),
            )
            (entry_next_hop_lem _ (valid.group_words _))
      | inr short ↦ rw short (entry_next_hop_lem _ (valid.table_words _))
    ])

pub address_bytes_lem :
    (a : ℕ) → a < 2 ^ 32 → IsBytes (address_bytes a) × (word (address_bytes a) ≡ a)
unfolding address_bytes
address_bytes_lem a h = (
  λ i. ground (
    arith,
    bit_and_low 8 (a / 2 ^ 24),
    bit_and_low 8 (a / 2 ^ 16),
    bit_and_low 8 (a / 2 ^ 8),
    bit_and_low 8 a,
  ),
  omega (
    arith,
    bit_and_low 8 (a / 2 ^ 24),
    bit_and_low 8 (a / 2 ^ 16),
    bit_and_low 8 (a / 2 ^ 8),
    bit_and_low 8 a,
  ),
)

-- The answer to an address: its route, else the default route, else the invalid next hop.
unfoldable pub answer : Trie → ℕ → ℕ
answer t a = elim (route_at t a) [
  | some nh ↦ nh
  | none ↦ if t.has_default_route then t.default_next_hop else invalid_next_hop
]

pub lookup_ipv4_dir24_bytes_lem :
    {t : Trie} (p : Bytes) → IsValid t → IsBytes p → lookup_ipv4_dir24_bytes t p ≡ answer t (word p)
unfolding lookup_ipv4_dir24_bytes with_default answer or_invalid route_at decode
lookup_ipv4_dir24_bytes_lem {t} p valid bytes =
    ground (arith, dir24_lookup_lem p valid bytes, valid.in_use, valid.present)

pub lookup_ipv4_dir24_lem :
    {t : Trie} (a : ℕ) → IsValid t → a < 2 ^ 32 → lookup_ipv4_dir24 t a ≡ answer t a
unfolding lookup_ipv4_dir24
lookup_ipv4_dir24_lem {t} a valid h =
    let (bytes, e) = address_bytes_lem a h in
    rw (← ap (answer t) e)
      (unfold lookup_ipv4_dir24_bytes in lookup_ipv4_dir24_bytes_lem (address_bytes a) valid bytes)
