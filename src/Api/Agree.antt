-- ===== src/Api/Agree.antt =====
-- src/api.c: `lpm_lookup` beside `lpm_lookup_ipv4`.
use liblpm.Base.{ℕ, ◌/◌, ◌^◌, ◌≡◌, ◌&&◌, refl, arith, some, ◌==◌, ap, if◌then◌else◌}
use liblpm.Bits.{bit_and_low}
use liblpm.Word.{ipv4_max_depth, invalid_next_hop}
use liblpm.Trie.{Bytes, Trie, Pool, Table}
use liblpm.Simd.{SimdLevel}
use liblpm.Dir24.{dir24_index}
use liblpm.Dir24.Index.{IsBytes, word}
use liblpm.Dir24.Lookup.{address_bytes, dir24_lookup, lookup_ipv4_dir24, lookup_ipv4_dir24_bytes}
use liblpm.Stride8.Lookup.{lookup_ipv4_8stride, lookup_ipv4_8stride_bytes, lookup_levels}
use liblpm.Stride8.Variants.{ipv4_8stride_lem}
use liblpm.Api.Lookup.{lookup, lookup_ipv4, dispatch_lookup}

-- The first four bytes are the same.
record SameFour (a b : Bytes) : Type 0 where
  byte_0 : a 0 ≡ b 0
  byte_1 : a 1 ≡ b 1
  byte_2 : a 2 ≡ b 2
  byte_3 : a 3 ≡ b 3

-- The bytes of the number that four bytes spell are these four bytes.
address_bytes-word : (p : Bytes) → IsBytes p → SameFour (address_bytes (word p)) p
unfolding address_bytes
address_bytes-word p bytes = record {
  byte_0 = omega (arith, bytes 0, bytes 1, bytes 2, bytes 3, bit_and_low 8 (word p / 2 ^ 24));
  byte_1 = omega (arith, bytes 0, bytes 1, bytes 2, bytes 3, bit_and_low 8 (word p / 2 ^ 16));
  byte_2 = omega (arith, bytes 0, bytes 1, bytes 2, bytes 3, bit_and_low 8 (word p / 2 ^ 8));
  byte_3 = omega (arith, bytes 0, bytes 1, bytes 2, bytes 3, bit_and_low 8 (word p));
}

module _ (a b : Bytes) (same : SameFour a b) where
  lookup_levels_same :
      (pool : Pool) (n r : ℕ) → lookup_levels 4 0 pool n r a ≡ lookup_levels 4 0 pool n r b
  unfolding lookup_levels
  lookup_levels_same pool n r = rw (same.byte_0, same.byte_1, same.byte_2, same.byte_3) refl

  dir24_lookup_same : (dir24 tbl8 : Table) → dir24_lookup dir24 tbl8 a ≡ dir24_lookup dir24 tbl8 b
  unfolding dir24_lookup dir24_index
  dir24_lookup_same dir24 tbl8 = rw (same.byte_0, same.byte_1, same.byte_2, same.byte_3) refl

  dir24_bytes_same : (t : Trie) → lookup_ipv4_dir24_bytes t a ≡ lookup_ipv4_dir24_bytes t b
  unfolding lookup_ipv4_dir24_bytes
  dir24_bytes_same t = rw (dir24_lookup_same t.dir24_table t.tbl8_groups) refl

  stride8_bytes_same :
      (level : SimdLevel) (t : Trie)
      → lookup_ipv4_8stride_bytes level t a ≡ lookup_ipv4_8stride_bytes level t b
  stride8_bytes_same level t =
      rw
        (
          ipv4_8stride_lem level t a,
          ipv4_8stride_lem level t b,
          lookup_levels_same t.node_pool t.root_idx invalid_next_hop,
        )
        refl

-- The forms of `lpm_lookup_ipv4` that take a number convert it to bytes.
lookup_ipv4_lem :
    (level : SimdLevel) (t : Trie) (ip : ℕ)
    → t.max_depth ≡ ipv4_max_depth
    → lookup_ipv4 level (some t) ip ≡ (
        if t.use_ipv4_dir24 && t.has_dir24_table
        then lookup_ipv4_dir24_bytes t (address_bytes ip)
        else lookup_ipv4_8stride_bytes level t (address_bytes ip))
unfolding lookup_ipv4 lookup_ipv4_8stride lookup_ipv4_dir24 lookup_ipv4_dir24_bytes
lookup_ipv4_lem level t ip depth =
    let yes = ap (λ (d : ℕ). d == ipv4_max_depth) depth in simp yes refl

-- On an IPv4 trie, of either algorithm, `lpm_lookup` with four bytes answers what `lpm_lookup_ipv4`
-- answers with the number that they spell, most significant byte first.
pub lookup-eq-lookup_ipv4 :
    (level : SimdLevel) (t : Trie) (p : Bytes)
    → IsBytes p
    → t.max_depth ≡ ipv4_max_depth
    → lookup level (some t) (some p) ≡ lookup_ipv4 level (some t) (word p)
unfolding lookup dispatch_lookup
lookup-eq-lookup_ipv4 level t p bytes depth =
    let yes = ap (λ (d : ℕ). d == ipv4_max_depth) depth in
    let same = address_bytes-word p bytes in
    rw
      (
        yes,
        lookup_ipv4_lem level t (word p) depth,
        dir24_bytes_same (address_bytes (word p)) p same t,
        stride8_bytes_same (address_bytes (word p)) p same level t,
      )
      refl
