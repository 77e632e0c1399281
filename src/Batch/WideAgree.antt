-- ===== src/Batch/WideAgree.antt =====
-- The batch lookups of src/wide16/batch.c against the lookup of one address of src/wide16/single.c.
use liblpm.Base.{
  ℕ, ◌+◌, ◌-◌, ◌*◌, ◌/◌, ◌<◌, ◌≡◌, refl, ap, sym, ◌∙◌, ltb, if◌then◌else◌, Bool-cases, inl, inr,
}
use liblpm.Trie.{Bytes, Table, Trie}
use liblpm.Simd.{
  SimdLevel, simd_scalar, simd_sse2, simd_sse4_2, simd_avx, simd_avx2, simd_avx512f, simd_other,
}
use liblpm.Wide16.Lookup.{lookup_wide16_internal, wide16_single_resolver}
use liblpm.Wide16.Variants.{wide16_lem}
use liblpm.Batch.{batched, batch_loop_lem}
use liblpm.Batch.Blocks.{block_loop, interleaved_lem, rest_lem, one_by_one_lem}
use liblpm.Batch.Wide16.{
  lookup_wide16_single, wide_block, one_of, lookup_batch_ipv6_wide16_scalar,
  lookup_batch_ipv6_wide16_sse2, lookup_batch_ipv6_wide16_avx2, lookup_batch_ipv6_wide16_avx512,
  wide16_batch_resolver,
}
use liblpm.Batch.WideLanes.{IsLastWide, wide_block_lem}

module _ (t : Trie) (narrow : IsLastWide t) where
  avx2_lem :
      (addrs : ℕ → Bytes) (next_hops : Table) (count j : ℕ)
      → lookup_batch_ipv6_wide16_avx2 t addrs next_hops count j
        ≡ batched (one_of t addrs) count next_hops j
  unfolding lookup_batch_ipv6_wide16_avx2
  avx2_lem addrs next_hops count j =
      interleaved_lem 8 _ (one_of t addrs) count next_hops j
        (λ i k h. wide_block_lem t addrs i 8 k narrow h)

  sse2_lem :
      (addrs : ℕ → Bytes) (next_hops : Table) (count j : ℕ)
      → lookup_batch_ipv6_wide16_sse2 t addrs next_hops count j
        ≡ batched (one_of t addrs) count next_hops j
  unfolding lookup_batch_ipv6_wide16_sse2
  sse2_lem addrs next_hops count j =
      interleaved_lem 4 _ (one_of t addrs) count next_hops j
        (λ i k h. wide_block_lem t addrs i 4 k narrow h)

  scalar_lem :
      (addrs : ℕ → Bytes) (next_hops : Table) (count j : ℕ)
      → lookup_batch_ipv6_wide16_scalar t addrs next_hops count j
        ≡ batched (one_of t addrs) count next_hops j
  unfolding lookup_batch_ipv6_wide16_scalar
  scalar_lem addrs next_hops count j = batch_loop_lem (one_of t addrs) count next_hops j

  avx512_lem :
      (addrs : ℕ → Bytes) (next_hops : Table) (count j : ℕ)
      → lookup_batch_ipv6_wide16_avx512 t addrs next_hops count j
        ≡ batched (one_of t addrs) count next_hops j
  unfolding lookup_batch_ipv6_wide16_avx512
  avx512_lem addrs next_hops count j =
      let lanes = λ (i k : ℕ) (h : k < 16). wide_block_lem t addrs i 16 k narrow h in
      elim (Bool-cases (ltb (count / 16 * 16 + 7) count)) [
        | inl many ↦ rw many (
            rest_lem 16 (λ i. wide_block t addrs i 16) (one_of t addrs) count next_hops lanes _
              (avx2_lem (λ m. addrs (count / 16 * 16 + m))
                (λ m.
                  block_loop 16 (λ i. wide_block t addrs i 16) (count / 16) 0 next_hops
                    (count / 16 * 16 + m))
                (count - count / 16 * 16))
              j)
        | inr few ↦ rw few (
            one_by_one_lem 16 (λ i. wide_block t addrs i 16) (one_of t addrs) count next_hops lanes
              j)
      ]

same_walk : (t : Trie) (a : Bytes) → lookup_wide16_single t a ≡ lookup_wide16_internal t a
unfolding lookup_wide16_single lookup_wide16_internal
same_walk t a = refl

-- If no entry of the wide root leads to a wide node, the batch lookup that the resolver picks for a
-- level writes, for each of the first `count` addresses, the answer of the single lookup that is
-- picked for that level, and leaves the rest of the output array alone.
pub batch_resolver_wide16-eq-lookup :
    (level : SimdLevel) (t : Trie) (addrs : ℕ → Bytes) (next_hops : Table) (count j : ℕ)
    → IsLastWide t
    → wide16_batch_resolver level t addrs next_hops count j
      ≡ batched (λ i. wide16_single_resolver level t (addrs i)) count next_hops j
unfolding wide16_batch_resolver
batch_resolver_wide16-eq-lookup level t addrs next_hops count j narrow =
    go level ∙ ap (λ (answer : ℕ). if ltb j count then answer else next_hops j) (one_lem (addrs j))
  where
    go :
        (l : SimdLevel)
        → wide16_batch_resolver l t addrs next_hops count j
          ≡ batched (one_of t addrs) count next_hops j
    go simd_avx512f = avx512_lem t narrow addrs next_hops count j
    go simd_avx2 = avx2_lem t narrow addrs next_hops count j
    go simd_avx = avx2_lem t narrow addrs next_hops count j
    go simd_sse4_2 = sse2_lem t narrow addrs next_hops count j
    go simd_sse2 = sse2_lem t narrow addrs next_hops count j
    go simd_scalar = scalar_lem t narrow addrs next_hops count j
    go simd_other = scalar_lem t narrow addrs next_hops count j

    one_lem : (a : Bytes) → lookup_wide16_single t a ≡ wide16_single_resolver level t a
    one_lem a = same_walk t a ∙ sym (wide16_lem level t a)
