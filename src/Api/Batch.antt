-- ===== src/Api/Batch.antt =====
-- src/api.c: the batch lookups. An array of results that is NULL has nothing to look at, so it has
-- no argument here.
use liblpm.Base.{
  ℕ, ◌≡◌, refl, ap, ◌∙◌, arith, true, false, ◌&&◌, ◌==◌, ltb, if◌then◌else◌, Option, none, some,
  ◌⊎◌, inl, inr, Bool-cases,
}
use liblpm.Word.{ipv4_max_depth, ipv6_max_depth}
use liblpm.Trie.{Bytes, Table, Trie, Allocator}
use liblpm.Simd.{SimdLevel}
use liblpm.Dir24.Lookup.{dir24_lookup, lookup_ipv4_dir24_bytes}
use liblpm.Stride8.Lookup.{lookup_ipv6_8stride}
use liblpm.Wide16.Lookup.{lookup_ipv6_wide16}
use liblpm.Batch.{batch_loop, batched, batch_loop_lem}
use liblpm.Batch.Dir24.{default_lem}
use liblpm.Batch.Variants.{ipv4_8stride_batch_resolver}
use liblpm.Batch.Agree.{batch_resolver_ipv4-eq-lookup}
use liblpm.Batch.Gather.{lookup_batch_ipv4_dir24}
use liblpm.Batch.Public.{
  lookup_batch_ipv4_8stride, lookup_batch_ipv6_8stride, lookup_batch_ipv6_wide16,
  lookup_batch_ipv4_dir24_ptrs,
}
use liblpm.Api.Lookup.{lookup, dispatch_lookup, dispatch_ipv6}

-- `stale` is what the arrays of pointers hold before, `stray` what stands in front of the tables.
module _ (al : Allocator) (stale : ℕ → Bytes) (stray : ℕ → ℕ) (level : SimdLevel) where
  -- `lpm_lookup_batch_ipv4`
  unfoldable pub lookup_batch_ipv4 : Option Trie → Option Table → Table → ℕ → Table
  lookup_batch_ipv4 none ips next_hops count = next_hops
  lookup_batch_ipv4 (some t) none next_hops count = next_hops
  lookup_batch_ipv4 (some t) (some ips) next_hops count =
      if count == 0
      then next_hops
      else if t.use_ipv4_dir24 && t.has_dir24_table
      then lookup_batch_ipv4_dir24 stray t level ips next_hops count
      else lookup_batch_ipv4_8stride al stale level t ips next_hops count

  -- `lpm_lookup_batch_ipv6`
  unfoldable pub lookup_batch_ipv6 : Option Trie → Option (ℕ → Bytes) → Table → ℕ → Table
  lookup_batch_ipv6 none addrs next_hops count = next_hops
  lookup_batch_ipv6 (some t) none next_hops count = next_hops
  lookup_batch_ipv6 (some t) (some addrs) next_hops count =
      if count == 0
      then next_hops
      else if t.use_ipv6_wide_stride && t.has_wide_nodes_pool
      then lookup_batch_ipv6_wide16 al stale level t addrs next_hops count
      else lookup_batch_ipv6_8stride al stale level t addrs next_hops count

-- `lpm_lookup_batch` once its arguments are there and `count` is not 0.
unfoldable pub dispatch_batch : SimdLevel → Trie → (ℕ → Bytes) → Table → ℕ → Table
dispatch_batch level t addrs next_hops count =
    if t.max_depth == ipv4_max_depth
    then (if t.use_ipv4_dir24 && t.has_dir24_table
        then lookup_batch_ipv4_dir24_ptrs t addrs next_hops count
        else ipv4_8stride_batch_resolver level t addrs next_hops count)
    else if t.max_depth == ipv6_max_depth
    then batch_loop
        (λ i.
          if t.use_ipv6_wide_stride && t.has_wide_nodes_pool
          then lookup_ipv6_wide16 level t (addrs i)
          else lookup_ipv6_8stride level t (addrs i))
        count 0 next_hops
    else next_hops

-- `lpm_lookup_batch`
unfoldable pub lookup_batch : SimdLevel → Option Trie → Option (ℕ → Bytes) → Table → ℕ → Table
unfolding dispatch_batch
lookup_batch level none addrs next_hops count = next_hops
lookup_batch level (some t) none next_hops count = next_hops
lookup_batch level (some t) (some addrs) next_hops count =
    if count == 0 then next_hops else dispatch_batch level t addrs next_hops count

module _ (level : SimdLevel) (t : Trie) (addrs : ℕ → Bytes) (next_hops : Table) (count j : ℕ) where
  ptrs_lem :
      t.use_ipv4_dir24 ≡ true
      → t.has_dir24_table ≡ true
      → lookup_batch_ipv4_dir24_ptrs t addrs next_hops count j
        ≡ batched (λ i. lookup_ipv4_dir24_bytes t (addrs i)) count next_hops j
  unfolding lookup_batch_ipv4_dir24_ptrs lookup_ipv4_dir24_bytes
  ptrs_lem in_use present =
      batch_loop_lem _ count next_hops j
      ∙ ap (λ (answer : ℕ). if ltb j count then answer else next_hops j)
          (default_lem t (dir24_lookup t.dir24_table t.tbl8_groups (addrs j)))
      ∙ (rw (in_use, present) refl)

  ipv4_lem :
      (t.max_depth == ipv4_max_depth) ≡ true
      → (t.root_idx == 0) ≡ false
      → dispatch_batch level t addrs next_hops count j
        ≡ batched (λ i. dispatch_lookup level t (addrs i)) count next_hops j
  unfolding dispatch_batch dispatch_lookup
  ipv4_lem short rooted = elim (Bool-cases (t.use_ipv4_dir24 && t.has_dir24_table)) [
    | inl direct ↦ rw (short, direct) (ptrs_lem (ground (arith, direct)) (ground (arith, direct)))
    | inr strides ↦
        rw (short, strides) (batch_resolver_ipv4-eq-lookup level t addrs next_hops count j rooted)
  ]

  ipv6_lem :
      (t.max_depth == ipv4_max_depth) ≡ false
      → (t.max_depth == ipv6_max_depth) ≡ true
      → dispatch_batch level t addrs next_hops count j
        ≡ batched (λ i. dispatch_lookup level t (addrs i)) count next_hops j
  unfolding dispatch_batch dispatch_lookup dispatch_ipv6
  ipv6_lem other long = rw (other, long) (batch_loop_lem _ count next_hops j)

  -- On a trie for 32 or 128 bits with a root that is not index 0, the generic batch lookup writes
  -- what the generic lookup answers for each of the first `count` addresses, and leaves the rest of
  -- the output array alone.
  pub lookup_batch-lookup :
      (t.root_idx == 0) ≡ false
      → (t.max_depth ≡ ipv4_max_depth) ⊎ (t.max_depth ≡ ipv6_max_depth)
      → lookup_batch level (some t) (some addrs) next_hops count j
        ≡ batched (λ i. lookup level (some t) (some (addrs i))) count next_hops j
  unfolding lookup_batch lookup
  lookup_batch-lookup rooted depth = elim (Bool-cases (count == 0)) [
    | inl e ↦ ground (arith, e)
    | inr ne ↦ rw ne (elim depth [
      | inl short ↦ ipv4_lem (ground (arith, short)) rooted
      | inr long ↦ ipv6_lem (ground (arith, long)) (ground (arith, long))
    ])
  ]
