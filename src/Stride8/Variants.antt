-- ===== src/Stride8/Variants.antt =====
-- The variants that the resolvers of src/4stride8/single.c and src/6stride8/single.c pick.
use liblpm.Base.{◌≡◌, refl}
use liblpm.Trie.{Bytes, Trie}
use liblpm.Simd.{
  SimdLevel, simd_scalar, simd_sse2, simd_sse4_2, simd_avx, simd_avx2, simd_avx512f, simd_other,
}
use liblpm.Stride8.Lookup.{
  or_default, lookup_ipv4_unrolled, lookup_ipv6_unrolled, lookup_ipv4_8stride_scalar,
  lookup_ipv4_8stride_sse2, lookup_ipv4_8stride_sse42, lookup_ipv4_8stride_avx,
  lookup_ipv4_8stride_avx2, lookup_ipv4_8stride_avx512, lookup_ipv6_8stride_scalar,
  lookup_ipv6_8stride_sse2, lookup_ipv6_8stride_sse42, lookup_ipv6_8stride_avx,
  lookup_ipv6_8stride_avx2, lookup_ipv6_8stride_avx512, ipv4_8stride_single_resolver,
  ipv6_8stride_single_resolver,
}

pub ipv4_8stride_lem :
    (level : SimdLevel) (t : Trie) (addr : Bytes)
    → ipv4_8stride_single_resolver level t addr
      ≡ or_default t (lookup_ipv4_unrolled t.node_pool t.root_idx addr)
unfolding ipv4_8stride_single_resolver lookup_ipv4_8stride_scalar lookup_ipv4_8stride_sse2
    lookup_ipv4_8stride_sse42 lookup_ipv4_8stride_avx lookup_ipv4_8stride_avx2
    lookup_ipv4_8stride_avx512
ipv4_8stride_lem simd_scalar t addr = refl
ipv4_8stride_lem simd_sse2 t addr = refl
ipv4_8stride_lem simd_sse4_2 t addr = refl
ipv4_8stride_lem simd_avx t addr = refl
ipv4_8stride_lem simd_avx2 t addr = refl
ipv4_8stride_lem simd_avx512f t addr = refl
ipv4_8stride_lem simd_other t addr = refl

pub ipv6_8stride_lem :
    (level : SimdLevel) (t : Trie) (addr : Bytes)
    → ipv6_8stride_single_resolver level t addr
      ≡ or_default t (lookup_ipv6_unrolled t.node_pool t.root_idx addr)
unfolding ipv6_8stride_single_resolver lookup_ipv6_8stride_scalar lookup_ipv6_8stride_sse2
    lookup_ipv6_8stride_sse42 lookup_ipv6_8stride_avx lookup_ipv6_8stride_avx2
    lookup_ipv6_8stride_avx512
ipv6_8stride_lem simd_scalar t addr = refl
ipv6_8stride_lem simd_sse2 t addr = refl
ipv6_8stride_lem simd_sse4_2 t addr = refl
ipv6_8stride_lem simd_avx t addr = refl
ipv6_8stride_lem simd_avx2 t addr = refl
ipv6_8stride_lem simd_avx512f t addr = refl
ipv6_8stride_lem simd_other t addr = refl
