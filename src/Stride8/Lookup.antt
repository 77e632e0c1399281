-- ===== src/Stride8/Lookup.antt =====
-- src/4stride8/single.c and src/6stride8/single.c: the lookups of one address, the variants for
-- the instruction sets, and the resolvers that pick one of them.
use liblpm.Base.{ℕ, zero, suc, ◌+◌, ◌==◌, if◌then◌else◌}
use liblpm.Word.{test, valid_flag, invalid_next_hop, ipv4_max_depth, ipv6_max_depth}
use liblpm.Trie.{Bytes, Entry, Pool, Trie}
use liblpm.Stride8.{child_of}
use liblpm.Dir24.Lookup.{address_bytes}
use liblpm.Simd.{
  SimdLevel, simd_scalar, simd_sse2, simd_sse4_2, simd_avx, simd_avx2, simd_avx512f, simd_other,
}

-- `(cv & LPM_VALID_FLAG) ? e->next_hop : R`
abbrev pub pick : Entry → ℕ → ℕ
pick e r = if test e.child_and_valid valid_flag then e.next_hop else r

-- The levels from byte `d` on: all but the last return at an entry with no child.
unfoldable pub lookup_levels : ℕ → ℕ → Pool → ℕ → ℕ → Bytes → ℕ
lookup_levels zero d pool n r addr = r
lookup_levels (suc zero) d pool n r addr = pick (pool n (addr d)) r
lookup_levels (suc (suc levels)) d pool n r addr =
    if child_of (pool n (addr d)) == 0
    then pick (pool n (addr d)) r
    else lookup_levels (suc levels) (d + 1) pool (child_of (pool n (addr d)))
        (pick (pool n (addr d)) r) addr

-- `lookup_ipv4_unrolled`
abbrev pub lookup_ipv4_unrolled : Pool → ℕ → Bytes → ℕ
lookup_ipv4_unrolled pool n = lookup_levels 4 0 pool n invalid_next_hop

-- `lookup_ipv6_unrolled`
abbrev pub lookup_ipv6_unrolled : Pool → ℕ → Bytes → ℕ
lookup_ipv6_unrolled pool n = lookup_levels 16 0 pool n invalid_next_hop

-- The next hop that was found, else the default route.
abbrev pub or_default : Trie → ℕ → ℕ
or_default t r =
    if r == invalid_next_hop
    then (if t.has_default_route then t.default_next_hop else invalid_next_hop)
    else r

unfoldable pub lookup_ipv4_8stride_scalar : Trie → Bytes → ℕ
lookup_ipv4_8stride_scalar t addr = or_default t (lookup_ipv4_unrolled t.node_pool t.root_idx addr)

unfoldable pub lookup_ipv4_8stride_sse2 : Trie → Bytes → ℕ
lookup_ipv4_8stride_sse2 t addr = or_default t (lookup_ipv4_unrolled t.node_pool t.root_idx addr)

unfoldable pub lookup_ipv4_8stride_sse42 : Trie → Bytes → ℕ
lookup_ipv4_8stride_sse42 t addr = or_default t (lookup_ipv4_unrolled t.node_pool t.root_idx addr)

unfoldable pub lookup_ipv4_8stride_avx : Trie → Bytes → ℕ
lookup_ipv4_8stride_avx t addr = or_default t (lookup_ipv4_unrolled t.node_pool t.root_idx addr)

unfoldable pub lookup_ipv4_8stride_avx2 : Trie → Bytes → ℕ
lookup_ipv4_8stride_avx2 t addr = or_default t (lookup_ipv4_unrolled t.node_pool t.root_idx addr)

unfoldable pub lookup_ipv4_8stride_avx512 : Trie → Bytes → ℕ
lookup_ipv4_8stride_avx512 t addr = or_default t (lookup_ipv4_unrolled t.node_pool t.root_idx addr)

-- `lpm_ipv4_8stride_single_resolver`
unfoldable pub ipv4_8stride_single_resolver : SimdLevel → Trie → Bytes → ℕ
ipv4_8stride_single_resolver simd_avx512f = lookup_ipv4_8stride_avx512
ipv4_8stride_single_resolver simd_avx2 = lookup_ipv4_8stride_avx2
ipv4_8stride_single_resolver simd_avx = lookup_ipv4_8stride_avx
ipv4_8stride_single_resolver simd_sse4_2 = lookup_ipv4_8stride_sse42
ipv4_8stride_single_resolver simd_sse2 = lookup_ipv4_8stride_sse2
ipv4_8stride_single_resolver simd_scalar = lookup_ipv4_8stride_scalar
ipv4_8stride_single_resolver simd_other = lookup_ipv4_8stride_scalar

unfoldable pub lookup_ipv6_8stride_scalar : Trie → Bytes → ℕ
lookup_ipv6_8stride_scalar t addr = or_default t (lookup_ipv6_unrolled t.node_pool t.root_idx addr)

unfoldable pub lookup_ipv6_8stride_sse2 : Trie → Bytes → ℕ
lookup_ipv6_8stride_sse2 t addr = or_default t (lookup_ipv6_unrolled t.node_pool t.root_idx addr)

unfoldable pub lookup_ipv6_8stride_sse42 : Trie → Bytes → ℕ
lookup_ipv6_8stride_sse42 t addr = or_default t (lookup_ipv6_unrolled t.node_pool t.root_idx addr)

unfoldable pub lookup_ipv6_8stride_avx : Trie → Bytes → ℕ
lookup_ipv6_8stride_avx t addr = or_default t (lookup_ipv6_unrolled t.node_pool t.root_idx addr)

unfoldable pub lookup_ipv6_8stride_avx2 : Trie → Bytes → ℕ
lookup_ipv6_8stride_avx2 t addr = or_default t (lookup_ipv6_unrolled t.node_pool t.root_idx addr)

unfoldable pub lookup_ipv6_8stride_avx512 : Trie → Bytes → ℕ
lookup_ipv6_8stride_avx512 t addr = or_default t (lookup_ipv6_unrolled t.node_pool t.root_idx addr)

-- `lpm_ipv6_8stride_single_resolver`
unfoldable pub ipv6_8stride_single_resolver : SimdLevel → Trie → Bytes → ℕ
ipv6_8stride_single_resolver simd_avx512f = lookup_ipv6_8stride_avx512
ipv6_8stride_single_resolver simd_avx2 = lookup_ipv6_8stride_avx2
ipv6_8stride_single_resolver simd_avx = lookup_ipv6_8stride_avx
ipv6_8stride_single_resolver simd_sse4_2 = lookup_ipv6_8stride_sse42
ipv6_8stride_single_resolver simd_sse2 = lookup_ipv6_8stride_sse2
ipv6_8stride_single_resolver simd_scalar = lookup_ipv6_8stride_scalar
ipv6_8stride_single_resolver simd_other = lookup_ipv6_8stride_scalar

abbrev pub lookup_ipv4_8stride_bytes : SimdLevel → Trie → Bytes → ℕ
lookup_ipv4_8stride_bytes = ipv4_8stride_single_resolver

-- `lpm_lookup_ipv4_8stride`, for a trie that is not NULL
unfoldable pub lookup_ipv4_8stride : SimdLevel → Trie → ℕ → ℕ
lookup_ipv4_8stride level t addr =
    if t.max_depth == ipv4_max_depth
    then lookup_ipv4_8stride_bytes level t (address_bytes addr)
    else invalid_next_hop

-- `lpm_lookup_ipv6_8stride`, for pointers that are not NULL
unfoldable pub lookup_ipv6_8stride : SimdLevel → Trie → Bytes → ℕ
lookup_ipv6_8stride level t addr =
    if t.max_depth == ipv6_max_depth
    then ipv6_8stride_single_resolver level t addr
    else invalid_next_hop
