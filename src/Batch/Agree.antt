-- ===== src/Batch/Agree.antt =====
-- The batch lookups of src/4stride8/batch.c and src/6stride8/batch.c against the lookups of one
-- address.
use liblpm.Base.{ℕ, suc, ◌+◌, ◌<◌, ◌≡◌, refl, ap, sym, ◌∙◌, true, false, ltb, ◌==◌, if◌then◌else◌}
use liblpm.Word.{invalid_next_hop, ipv6_max_depth}
use liblpm.Trie.{Bytes, Table, Trie}
use liblpm.Simd.{
  SimdLevel, simd_scalar, simd_sse2, simd_sse4_2, simd_avx, simd_avx2, simd_avx512f, simd_other,
}
use liblpm.Stride8.Lookup.{
  lookup_levels, or_default, lookup_ipv4_8stride_bytes, lookup_ipv6_8stride,
}
use liblpm.Stride8.Variants.{ipv4_8stride_lem, ipv6_8stride_lem}
use liblpm.Batch.{batch_loop, batched, batch_loop_lem}
use liblpm.Batch.Blocks.{interleaved, interleaved_lem}
use liblpm.Batch.Stride8.{walk_levels, walk_levels_lem, lookup_batch_ipv4_8stride_scalar}
use liblpm.Batch.Lanes.{block_after, block_before, walk_after_lem, walk_before_lem}
use liblpm.Batch.Variants.{
  ipv4_8stride_batch_resolver, ipv6_8stride_batch_resolver, lookup_batch_ipv4_8stride_sse2,
  lookup_batch_ipv4_8stride_sse42, lookup_batch_ipv4_8stride_avx, lookup_batch_ipv4_8stride_avx2,
  lookup_batch_ipv4_8stride_avx512, lookup_batch_ipv6_8stride_scalar,
  lookup_batch_ipv6_8stride_sse2, lookup_batch_ipv6_8stride_sse42, lookup_batch_ipv6_8stride_avx,
  lookup_batch_ipv6_8stride_avx2, lookup_batch_ipv6_8stride_avx512,
}

module _ (levels : ℕ) (t : Trie) (addrs : ℕ → Bytes) (rooted : (t.root_idx == 0) ≡ false) where
  abbrev unrolled : ℕ → ℕ
  unrolled i =
      or_default t (lookup_levels (suc levels) 0 t.node_pool t.root_idx invalid_next_hop (addrs i))

  walk_lem :
      (i : ℕ)
      → or_default t (walk_levels (suc levels) 0 t.node_pool t.root_idx invalid_next_hop (addrs i))
        ≡ unrolled i
  walk_lem i =
      ap (or_default t)
        (walk_levels_lem levels 0 t.node_pool t.root_idx invalid_next_hop (addrs i) rooted)

  after_lem :
      (width i j : ℕ) → j < width → block_after (suc levels) width t addrs i j ≡ unrolled (i + j)
  unfolding block_after
  after_lem width i j h =
      ap (or_default t) (walk_after_lem t.node_pool addrs i width (suc levels) 0 j _ h)
      ∙ walk_lem (i + j)

  before_lem :
      (width i j : ℕ) → j < width → block_before (suc levels) width t addrs i j ≡ unrolled (i + j)
  unfolding block_before
  before_lem width i j h =
      ap (or_default t) (walk_before_lem t.node_pool addrs i width (suc levels) 0 j _ h)
      ∙ walk_lem (i + j)

  module _ (one : ℕ → ℕ) (same : (i : ℕ) → one i ≡ unrolled i) (count : ℕ) (next_hops : Table)
      (j : ℕ) where
    after-eq :
        (width : ℕ)
        → interleaved width (block_after (suc levels) width t addrs) one count next_hops j
          ≡ batched one count next_hops j
    after-eq width =
        interleaved_lem width _ one count next_hops j
          (λ i k h. after_lem width i k h ∙ sym (same (i + k)))

    before-eq :
        (width : ℕ)
        → interleaved width (block_before (suc levels) width t addrs) one count next_hops j
          ≡ batched one count next_hops j
    before-eq width =
        interleaved_lem width _ one count next_hops j
          (λ i k h. before_lem width i k h ∙ sym (same (i + k)))

    one_by_one :
        batch_loop
          (λ i.
            or_default t
              (walk_levels (suc levels) 0 t.node_pool t.root_idx invalid_next_hop (addrs i)))
          count
          0
          next_hops
          j
        ≡ batched one count next_hops j
    one_by_one =
        batch_loop_lem _ count next_hops j
        ∙ ap (λ (answer : ℕ). if ltb j count then answer else next_hops j)
            (walk_lem j ∙ sym (same j))

-- With a root that is not index 0, the batch lookup that the resolver picks for a level writes, for
-- each of the first `count` addresses, the answer of the single lookup that is picked for that level,
-- and leaves the rest of the output array alone.
pub batch_resolver_ipv4-eq-lookup :
    (level : SimdLevel) (t : Trie) (addrs : ℕ → Bytes) (next_hops : Table) (count j : ℕ)
    → (t.root_idx == 0) ≡ false
    → ipv4_8stride_batch_resolver level t addrs next_hops count j
      ≡ batched (λ i. lookup_ipv4_8stride_bytes level t (addrs i)) count next_hops j
unfolding ipv4_8stride_batch_resolver lookup_batch_ipv4_8stride_scalar
    lookup_batch_ipv4_8stride_sse2 lookup_batch_ipv4_8stride_sse42 lookup_batch_ipv4_8stride_avx
    lookup_batch_ipv4_8stride_avx2 lookup_batch_ipv4_8stride_avx512
batch_resolver_ipv4-eq-lookup level t addrs next_hops count j rooted = go level
  where
    single :
        (l : SimdLevel) (i : ℕ)
        → lookup_ipv4_8stride_bytes l t (addrs i) ≡ unrolled 3 t addrs rooted i
    single l i = ipv4_8stride_lem l t (addrs i)

    go :
        (l : SimdLevel)
        → ipv4_8stride_batch_resolver l t addrs next_hops count j
          ≡ batched (λ i. lookup_ipv4_8stride_bytes l t (addrs i)) count next_hops j
    go simd_avx512f = after-eq 3 t addrs rooted _ (single simd_avx512f) count next_hops j 16
    go simd_avx2 = after-eq 3 t addrs rooted _ (single simd_avx2) count next_hops j 8
    go simd_avx = before-eq 3 t addrs rooted _ (single simd_avx) count next_hops j 8
    go simd_sse4_2 = after-eq 3 t addrs rooted _ (single simd_sse4_2) count next_hops j 4
    go simd_sse2 = after-eq 3 t addrs rooted _ (single simd_sse2) count next_hops j 4
    go simd_scalar = one_by_one 3 t addrs rooted _ (single simd_scalar) count next_hops j
    go simd_other = one_by_one 3 t addrs rooted _ (single simd_other) count next_hops j

in_depth :
    (l : SimdLevel) (t : Trie) (a : Bytes)
    → t.max_depth ≡ ipv6_max_depth
    → lookup_ipv6_8stride l t a
      ≡ or_default t (lookup_levels 16 0 t.node_pool t.root_idx invalid_next_hop a)
unfolding lookup_ipv6_8stride
in_depth l t a deep =
    let same : (t.max_depth == ipv6_max_depth) ≡ true = rw deep refl in
    rw same (ipv6_8stride_lem l t a)

-- With a root that is not index 0 and for 128 bits, the batch lookup of IPv6 addresses that the
-- resolver picks for a level writes, for each of the first `count` addresses, the answer of the
-- single lookup that is picked for that level, and leaves the rest of the output array alone.
pub batch_resolver_ipv6-eq-lookup :
    (level : SimdLevel) (t : Trie) (addrs : ℕ → Bytes) (next_hops : Table) (count j : ℕ)
    → (t.root_idx == 0) ≡ false
    → t.max_depth ≡ ipv6_max_depth
    → ipv6_8stride_batch_resolver level t addrs next_hops count j
      ≡ batched (λ i. lookup_ipv6_8stride level t (addrs i)) count next_hops j
unfolding ipv6_8stride_batch_resolver lookup_batch_ipv6_8stride_scalar
    lookup_batch_ipv6_8stride_sse2 lookup_batch_ipv6_8stride_sse42 lookup_batch_ipv6_8stride_avx
    lookup_batch_ipv6_8stride_avx2 lookup_batch_ipv6_8stride_avx512
batch_resolver_ipv6-eq-lookup level t addrs next_hops count j rooted deep = go level
  where
    single :
        (l : SimdLevel) (i : ℕ) → lookup_ipv6_8stride l t (addrs i) ≡ unrolled 15 t addrs rooted i
    single l i = in_depth l t (addrs i) deep

    go :
        (l : SimdLevel)
        → ipv6_8stride_batch_resolver l t addrs next_hops count j
          ≡ batched (λ i. lookup_ipv6_8stride l t (addrs i)) count next_hops j
    go simd_avx512f = after-eq 15 t addrs rooted _ (single simd_avx512f) count next_hops j 16
    go simd_avx2 = after-eq 15 t addrs rooted _ (single simd_avx2) count next_hops j 8
    go simd_avx = before-eq 15 t addrs rooted _ (single simd_avx) count next_hops j 8
    go simd_sse4_2 = after-eq 15 t addrs rooted _ (single simd_sse4_2) count next_hops j 4
    go simd_sse2 = after-eq 15 t addrs rooted _ (single simd_sse2) count next_hops j 4
    go simd_scalar = one_by_one 15 t addrs rooted _ (single simd_scalar) count next_hops j
    go simd_other = one_by_one 15 t addrs rooted _ (single simd_other) count next_hops j
