-- ===== src/Batch/Public.antt =====
-- The batch lookups that the header declares: the pointer arrays that src/4stride8/batch.c,
-- src/6stride8/batch.c and src/wide16/batch.c build, and the pointer form of src/dir24/batch.c.
use liblpm.Base.{
  ℕ, ◌*◌, ◌≡◌, refl, ◌∙◌, arith, Bool, true, false, ◌&&◌, ◌||◌, ◌==◌, ltb, leb, if◌then◌else◌,
  Bool-cases, inl, inr,
}
use liblpm.Word.{u64, invalid_next_hop, ipv6_max_depth}
use liblpm.Trie.{Bytes, Table, Trie, Allocator}
use liblpm.Simd.{SimdLevel}
use liblpm.Dir24.Lookup.{dir24_lookup, address_bytes}
use liblpm.Stride8.Lookup.{lookup_ipv4_8stride_bytes, lookup_ipv6_8stride}
use liblpm.Batch.{batch_loop, batched}
use liblpm.Batch.Blocks.{each_lane, each_lane_lem}
use liblpm.Batch.Dir24.{default_nh}
use liblpm.Batch.Variants.{ipv4_8stride_batch_resolver, ipv6_8stride_batch_resolver}
use liblpm.Batch.Agree.{batch_resolver_ipv4-eq-lookup, batch_resolver_ipv6-eq-lookup}
use liblpm.Batch.Wide16.{wide16_batch_resolver}

-- The array of pointers: on the stack for 256 addresses and less, else from malloc.
abbrev pointer_room : Allocator → ℕ → Bool
pointer_room al count = if leb count 256 then true else al.grants (u64 (count * 8))

abbrev byte_room : Allocator → ℕ → Bool
byte_room al count = if leb count 256 then true else al.grants (u64 (count * 4))

-- The loop that fills in the pointers; `stale` is what the array held before.
abbrev pub pointers : (ℕ → Bytes) → ℕ → (ℕ → Bytes) → ℕ → Bytes
pointers row count stale = each_lane (λ i old. row i) count 0 stale

module _ (al : Allocator) (stale : ℕ → Bytes) (level : SimdLevel) (t : Trie) where
  -- `lpm_lookup_batch_ipv4_8stride`
  unfoldable pub lookup_batch_ipv4_8stride : Table → Table → ℕ → Table
  lookup_batch_ipv4_8stride ips next_hops count =
      if count == 0
      then next_hops
      else if byte_room al count && pointer_room al count
      then ipv4_8stride_batch_resolver level t (pointers (λ i. address_bytes (ips i)) count stale)
          next_hops count
      else next_hops

  -- `lpm_lookup_batch_ipv6_8stride`
  unfoldable pub lookup_batch_ipv6_8stride : (ℕ → Bytes) → Table → ℕ → Table
  lookup_batch_ipv6_8stride addrs next_hops count =
      if count == 0
      then next_hops
      else if pointer_room al count
      then ipv6_8stride_batch_resolver level t (pointers addrs count stale) next_hops count
      else next_hops

  -- `lpm_lookup_batch_ipv6_wide16`
  unfoldable pub lookup_batch_ipv6_wide16 : (ℕ → Bytes) → Table → ℕ → Table
  lookup_batch_ipv6_wide16 addrs next_hops count =
      if count == 0
      then next_hops
      else if t.use_ipv6_wide_stride
      then (if pointer_room al count
          then wide16_batch_resolver level t (pointers addrs count stale) next_hops count
          else next_hops)
      else next_hops

-- `lpm_lookup_batch_ipv4_dir24_ptrs`, which has one variant
unfoldable pub lookup_batch_ipv4_dir24_ptrs : Trie → (ℕ → Bytes) → Table → ℕ → Table
lookup_batch_ipv4_dir24_ptrs t addrs next_hops count =
    batch_loop
      (λ i.
        if dir24_lookup t.dir24_table t.tbl8_groups (addrs i) == invalid_next_hop
        then default_nh t
        else dir24_lookup t.dir24_table t.tbl8_groups (addrs i))
      count 0 next_hops

pointers_lem :
    (row stale : ℕ → Bytes) (answer : Bytes → ℕ) (count : ℕ) (next_hops : Table) (j : ℕ)
    → batched (λ i. answer (pointers row count stale i)) count next_hops j
      ≡ batched (λ i. answer (row i)) count next_hops j
pointers_lem row stale answer count next_hops j = elim (Bool-cases (ltb j count)) [
  | inl e ↦
      let row_lem : pointers row count stale j ≡ row j =
        each_lane_lem (λ i old. row i) count 0 stale j (omega arith) (ground (arith, e)) in
      rw (e, row_lem) refl
  | inr e ↦ rw e refl
]

-- A batch of IPv4 addresses, on a trie with a root that is not index 0: with room for the pointers
-- the answer of the single lookup of each address is written, without it nothing is.
pub lookup_batch_ipv4_8stride-eq-lookup :
    (al : Allocator) (stale : ℕ → Bytes) (level : SimdLevel) (t : Trie) (ips next_hops : Table)
    (count j : ℕ)
    → (t.root_idx == 0) ≡ false
    → lookup_batch_ipv4_8stride al stale level t ips next_hops count j ≡ (
        if leb count 256 || al.grants (u64 (count * 4)) && al.grants (u64 (count * 8))
        then batched
            (λ i. lookup_ipv4_8stride_bytes level t (address_bytes (ips i)))
            count
            next_hops
            j
        else next_hops j)
unfolding lookup_batch_ipv4_8stride
lookup_batch_ipv4_8stride-eq-lookup al stale level t ips next_hops count j rooted = ground (
  arith,
  batch_resolver_ipv4-eq-lookup level t (pointers (λ i. address_bytes (ips i)) count stale)
        next_hops count j rooted
      ∙ pointers_lem (λ i. address_bytes (ips i)) stale (lookup_ipv4_8stride_bytes level t) count
          next_hops j,
)

-- A batch of IPv6 addresses, on a trie of 8-bit strides for 128 bits with a root that is not index
-- 0: with room for the pointers the answer of the single lookup of each address is written, without
-- it nothing is.
pub lookup_batch_ipv6_8stride-eq-lookup :
    (al : Allocator) (stale : ℕ → Bytes) (level : SimdLevel) (t : Trie) (addrs : ℕ → Bytes)
    (next_hops : Table) (count j : ℕ)
    → (t.root_idx == 0) ≡ false
    → t.max_depth ≡ ipv6_max_depth
    → lookup_batch_ipv6_8stride al stale level t addrs next_hops count j ≡ (
        if leb count 256 || al.grants (u64 (count * 8))
        then batched (λ i. lookup_ipv6_8stride level t (addrs i)) count next_hops j
        else next_hops j)
unfolding lookup_batch_ipv6_8stride
lookup_batch_ipv6_8stride-eq-lookup al stale level t addrs next_hops count j rooted deep = ground (
  arith,
  batch_resolver_ipv6-eq-lookup level t (pointers addrs count stale) next_hops count j rooted deep
      ∙ pointers_lem addrs stale (lookup_ipv6_8stride level t) count next_hops j,
)
