-- ===== src/Batch/Variants.antt =====
-- src/4stride8/batch.c and src/6stride8/batch.c: the variants for the instruction sets and the
-- resolvers that pick one of them.
use liblpm.Base.{ℕ}
use liblpm.Word.{invalid_next_hop}
use liblpm.Trie.{Bytes, Table, Trie}
use liblpm.Simd.{
  SimdLevel, simd_scalar, simd_sse2, simd_sse4_2, simd_avx, simd_avx2, simd_avx512f, simd_other,
}
use liblpm.Stride8.Lookup.{or_default, lookup_ipv4_8stride_bytes, lookup_ipv6_8stride}
use liblpm.Batch.{batch_loop}
use liblpm.Batch.Blocks.{interleaved}
use liblpm.Batch.Stride8.{walk_levels, lookup_batch_ipv4_8stride_scalar}
use liblpm.Batch.Lanes.{block_after, block_before}

-- The remainder of a batch goes through `lpm_lookup_ipv4_8stride_bytes`, which the resolver of
-- single.c chose for `level`.
abbrev remaining_ipv4 : SimdLevel → Trie → (ℕ → Bytes) → ℕ → ℕ
remaining_ipv4 level t addrs i = lookup_ipv4_8stride_bytes level t (addrs i)

abbrev remaining_ipv6 : SimdLevel → Trie → (ℕ → Bytes) → ℕ → ℕ
remaining_ipv6 level t addrs i = lookup_ipv6_8stride level t (addrs i)

abbrev pub BatchFunction : Type 0
BatchFunction = SimdLevel → Trie → (ℕ → Bytes) → Table → ℕ → Table

unfoldable pub lookup_batch_ipv4_8stride_sse2 : BatchFunction
lookup_batch_ipv4_8stride_sse2 level t addrs next_hops count =
    interleaved 4 (block_after 4 4 t addrs) (remaining_ipv4 level t addrs) count next_hops

unfoldable pub lookup_batch_ipv4_8stride_sse42 : BatchFunction
unfolding lookup_batch_ipv4_8stride_sse2
lookup_batch_ipv4_8stride_sse42 = lookup_batch_ipv4_8stride_sse2

unfoldable pub lookup_batch_ipv4_8stride_avx : BatchFunction
lookup_batch_ipv4_8stride_avx level t addrs next_hops count =
    interleaved 8 (block_before 4 8 t addrs) (remaining_ipv4 level t addrs) count next_hops

unfoldable pub lookup_batch_ipv4_8stride_avx2 : BatchFunction
lookup_batch_ipv4_8stride_avx2 level t addrs next_hops count =
    interleaved 8 (block_after 4 8 t addrs) (remaining_ipv4 level t addrs) count next_hops

unfoldable pub lookup_batch_ipv4_8stride_avx512 : BatchFunction
lookup_batch_ipv4_8stride_avx512 level t addrs next_hops count =
    interleaved 16 (block_after 4 16 t addrs) (remaining_ipv4 level t addrs) count next_hops

-- `lpm_ipv4_8stride_batch_resolver`
unfoldable pub ipv4_8stride_batch_resolver : BatchFunction
ipv4_8stride_batch_resolver simd_avx512f = lookup_batch_ipv4_8stride_avx512 simd_avx512f
ipv4_8stride_batch_resolver simd_avx2 = lookup_batch_ipv4_8stride_avx2 simd_avx2
ipv4_8stride_batch_resolver simd_avx = lookup_batch_ipv4_8stride_avx simd_avx
ipv4_8stride_batch_resolver simd_sse4_2 = lookup_batch_ipv4_8stride_sse42 simd_sse4_2
ipv4_8stride_batch_resolver simd_sse2 = lookup_batch_ipv4_8stride_sse2 simd_sse2
ipv4_8stride_batch_resolver simd_scalar = lookup_batch_ipv4_8stride_scalar
ipv4_8stride_batch_resolver simd_other = lookup_batch_ipv4_8stride_scalar

-- `lpm_lookup_batch_ipv6_8stride_scalar`
unfoldable pub lookup_batch_ipv6_8stride_scalar : Trie → (ℕ → Bytes) → Table → ℕ → Table
lookup_batch_ipv6_8stride_scalar t addrs next_hops count =
    batch_loop
      (λ i. or_default t (walk_levels 16 0 t.node_pool t.root_idx invalid_next_hop (addrs i))) count
      0 next_hops

unfoldable pub lookup_batch_ipv6_8stride_sse2 : BatchFunction
lookup_batch_ipv6_8stride_sse2 level t addrs next_hops count =
    interleaved 4 (block_after 16 4 t addrs) (remaining_ipv6 level t addrs) count next_hops

unfoldable pub lookup_batch_ipv6_8stride_sse42 : BatchFunction
unfolding lookup_batch_ipv6_8stride_sse2
lookup_batch_ipv6_8stride_sse42 = lookup_batch_ipv6_8stride_sse2

unfoldable pub lookup_batch_ipv6_8stride_avx : BatchFunction
lookup_batch_ipv6_8stride_avx level t addrs next_hops count =
    interleaved 8 (block_before 16 8 t addrs) (remaining_ipv6 level t addrs) count next_hops

unfoldable pub lookup_batch_ipv6_8stride_avx2 : BatchFunction
lookup_batch_ipv6_8stride_avx2 level t addrs next_hops count =
    interleaved 8 (block_after 16 8 t addrs) (remaining_ipv6 level t addrs) count next_hops

unfoldable pub lookup_batch_ipv6_8stride_avx512 : BatchFunction
lookup_batch_ipv6_8stride_avx512 level t addrs next_hops count =
    interleaved 16 (block_after 16 16 t addrs) (remaining_ipv6 level t addrs) count next_hops

-- `lpm_ipv6_8stride_batch_resolver`
unfoldable pub ipv6_8stride_batch_resolver : BatchFunction
ipv6_8stride_batch_resolver simd_avx512f = lookup_batch_ipv6_8stride_avx512 simd_avx512f
ipv6_8stride_batch_resolver simd_avx2 = lookup_batch_ipv6_8stride_avx2 simd_avx2
ipv6_8stride_batch_resolver simd_avx = lookup_batch_ipv6_8stride_avx simd_avx
ipv6_8stride_batch_resolver simd_sse4_2 = lookup_batch_ipv6_8stride_sse42 simd_sse4_2
ipv6_8stride_batch_resolver simd_sse2 = lookup_batch_ipv6_8stride_sse2 simd_sse2
ipv6_8stride_batch_resolver simd_scalar = lookup_batch_ipv6_8stride_scalar
ipv6_8stride_batch_resolver simd_other = lookup_batch_ipv6_8stride_scalar
