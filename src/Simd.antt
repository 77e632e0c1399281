-- ===== src/Simd.antt =====
-- The levels that LPM_DETECT_SIMD of the dynemit library gives to the resolvers of src/. The library
-- is not part of the repository: the level is an argument of what a resolver picks.

-- The names that the resolvers have a case for, and any other value, which their default takes.
pub data SimdLevel : Type 0 where
  simd_scalar : SimdLevel
  simd_sse2 : SimdLevel
  simd_sse4_2 : SimdLevel
  simd_avx : SimdLevel
  simd_avx2 : SimdLevel
  simd_avx512f : SimdLevel
  simd_other : SimdLevel
