-- ===== src/Wide16/Lookup.antt =====
-- src/wide16/single.c: the lookup of one IPv6 address, its variants and their resolver.
use liblpm.Base.{ℕ, zero, suc, ◌+◌, Bool, true, ◌==◌, if◌then◌else◌}
use liblpm.Word.{test, wide_node_flag, invalid_index, invalid_next_hop}
use liblpm.Trie.{Bytes, Pool, Trie}
use liblpm.Stride8.{child_of}
use liblpm.Stride8.Lookup.{pick}
use liblpm.Simd.{
  SimdLevel, simd_scalar, simd_sse2, simd_sse4_2, simd_avx, simd_avx2, simd_avx512f, simd_other,
}
use liblpm.Wide16.{wide_stride_levels, wide_index}
use liblpm.Wide16.Update.{has_child}

-- The loop over the bytes, `left` of them from `byte_idx` on.
unfoldable pub lookup_bytes : ℕ → ℕ → Pool → ℕ → ℕ → Bytes → ℕ
lookup_bytes zero byte_idx pool node best addr = best
lookup_bytes (suc left) byte_idx pool node best addr =
    let rest =
      lookup_bytes left (byte_idx + 1) pool (child_of (pool node (addr byte_idx)))
        (pick (pool node (addr byte_idx)) best) addr in
    if node == invalid_index
    then best
    else if child_of (pool node (addr byte_idx)) == invalid_index
    then pick (pool node (addr byte_idx)) best
    else rest

-- The levels of 16 bits, `left` of them from `level` on, and the bytes 2 to 15 after them.
unfoldable pub lookup_wide_levels : ℕ → ℕ → Trie → Bool → ℕ → ℕ → Bytes → ℕ
lookup_wide_levels zero level t is_wide node best addr =
    lookup_bytes 14 2 t.node_pool node best addr
lookup_wide_levels (suc left) level t is_wide node best addr =
    let rest =
      lookup_wide_levels left (level + 1) t
        (test (t.wide_nodes_pool node (wide_index addr level)).child_and_valid wide_node_flag)
        (child_of (t.wide_nodes_pool node (wide_index addr level)))
        (pick (t.wide_nodes_pool node (wide_index addr level)) best) addr in
    let bytes = lookup_bytes 14 2 t.node_pool node best addr in
    if is_wide
    then (if has_child (t.wide_nodes_pool node (wide_index addr level))
        then rest
        else pick (t.wide_nodes_pool node (wide_index addr level)) best)
    else bytes

-- `lookup_wide16_internal`. The code bounds the levels by 3 as well, which is no less.
unfoldable pub lookup_wide16_internal : Trie → Bytes → ℕ
unfolding lookup_wide_levels
lookup_wide16_internal t addr =
    lookup_wide_levels wide_stride_levels 0 t true t.root_idx
      (if t.has_default_route then t.default_next_hop else invalid_next_hop) addr

unfoldable pub lookup_ipv6_wide16_scalar : Trie → Bytes → ℕ
unfolding lookup_wide16_internal
lookup_ipv6_wide16_scalar t addr = lookup_wide16_internal t addr

unfoldable pub lookup_ipv6_wide16_sse2 : Trie → Bytes → ℕ
unfolding lookup_wide16_internal
lookup_ipv6_wide16_sse2 t addr = lookup_wide16_internal t addr

unfoldable pub lookup_ipv6_wide16_avx2 : Trie → Bytes → ℕ
unfolding lookup_wide16_internal
lookup_ipv6_wide16_avx2 t addr = lookup_wide16_internal t addr

unfoldable pub lookup_ipv6_wide16_avx512 : Trie → Bytes → ℕ
unfolding lookup_wide16_internal
lookup_ipv6_wide16_avx512 t addr = lookup_wide16_internal t addr

-- `lpm_wide16_single_resolver`
unfoldable pub wide16_single_resolver : SimdLevel → Trie → Bytes → ℕ
wide16_single_resolver simd_avx512f = lookup_ipv6_wide16_avx512
wide16_single_resolver simd_avx2 = lookup_ipv6_wide16_avx2
wide16_single_resolver simd_avx = lookup_ipv6_wide16_avx2
wide16_single_resolver simd_sse4_2 = lookup_ipv6_wide16_sse2
wide16_single_resolver simd_sse2 = lookup_ipv6_wide16_sse2
wide16_single_resolver simd_scalar = lookup_ipv6_wide16_scalar
wide16_single_resolver simd_other = lookup_ipv6_wide16_scalar

-- `lpm_lookup_ipv6_wide16`, for pointers that are not NULL
unfoldable pub lookup_ipv6_wide16 : SimdLevel → Trie → Bytes → ℕ
lookup_ipv6_wide16 level t addr =
    if t.use_ipv6_wide_stride then wide16_single_resolver level t addr else invalid_next_hop
