-- ===== src/Wide16/Variants.antt =====
-- The variants that the resolver of src/wide16/single.c picks.
use liblpm.Base.{◌≡◌, refl}
use liblpm.Trie.{Bytes, Trie}
use liblpm.Simd.{
  SimdLevel, simd_scalar, simd_sse2, simd_sse4_2, simd_avx, simd_avx2, simd_avx512f, simd_other,
}
use liblpm.Wide16.Lookup.{
  lookup_wide16_internal, lookup_ipv6_wide16_scalar, lookup_ipv6_wide16_sse2,
  lookup_ipv6_wide16_avx2, lookup_ipv6_wide16_avx512, wide16_single_resolver,
}

pub wide16_lem :
    (level : SimdLevel) (t : Trie) (addr : Bytes)
    → wide16_single_resolver level t addr ≡ lookup_wide16_internal t addr
unfolding wide16_single_resolver lookup_ipv6_wide16_scalar lookup_ipv6_wide16_sse2
    lookup_ipv6_wide16_avx2 lookup_ipv6_wide16_avx512
wide16_lem simd_scalar t addr = refl
wide16_lem simd_sse2 t addr = refl
wide16_lem simd_sse4_2 t addr = refl
wide16_lem simd_avx t addr = refl
wide16_lem simd_avx2 t addr = refl
wide16_lem simd_avx512f t addr = refl
wide16_lem simd_other t addr = refl
