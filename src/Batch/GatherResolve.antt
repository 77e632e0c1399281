-- ===== src/Batch/GatherResolve.antt =====
-- The batch lookup of src/dir24/batch.c that the resolver picks, against the lookup of one address.
use liblpm.Base.{ℕ, ◌+◌, ◌-◌, ◌*◌, ◌/◌, ◌^◌, ◌≤◌, ◌<◌, ◌≡◌, sym, ◌∙◌, leb, Bool-cases, inl, inr}
use liblpm.Trie.{Table, Trie}
use liblpm.Simd.{
  SimdLevel, simd_scalar, simd_sse2, simd_sse4_2, simd_avx, simd_avx2, simd_avx512f, simd_other,
}
use liblpm.Dir24.Valid.{IsValid}
use liblpm.Dir24.Lookup.{lookup_ipv4_dir24}
use liblpm.Batch.{batch_loop, batched, batch_loop_lem}
use liblpm.Batch.Blocks.{block_loop, interleaved_lem, rest_lem, one_by_one_lem}
use liblpm.Batch.Dir24.{lookup_batch_ipv4_dir24_scalar, lookup_batch-eq-lookup_ipv4}
use liblpm.Batch.Gather.{
  scalar_result, block_avx512, lookup_batch_ipv4_dir24_sse42, lookup_batch_ipv4_dir24_avx,
  lookup_batch_ipv4_dir24_avx2, lookup_batch_ipv4_dir24_avx512, lookup_batch_ipv4_dir24,
}
use liblpm.Batch.GatherAgree.{block_avx2_lem, block_avx512_lem}

module _ (stray : ℕ → ℕ) (t : Trie) (valid : IsValid t) (near : t.tbl8_groups_used ≤ 2 ^ 23) where
  avx2_lem :
      (ips next_hops : Table) (count j : ℕ)
      → ((i : ℕ) → ips i < 2 ^ 32)
      → lookup_batch_ipv4_dir24_avx2 stray t ips next_hops count j
        ≡ batched (scalar_result t ips) count next_hops j
  unfolding lookup_batch_ipv4_dir24_avx2
  avx2_lem ips next_hops count j small =
      interleaved_lem 8 _ (scalar_result t ips) count next_hops j
        (λ i k h. block_avx2_lem stray valid near ips i k (small (i + k)) h)

  avx512_lem :
      (ips next_hops : Table) (count j : ℕ)
      → ((i : ℕ) → ips i < 2 ^ 32)
      → lookup_batch_ipv4_dir24_avx512 stray t ips next_hops count j
        ≡ batched (scalar_result t ips) count next_hops j
  unfolding lookup_batch_ipv4_dir24_avx512
  avx512_lem ips next_hops count j small =
      let lanes =
        λ (i k : ℕ) (h : k < 16). block_avx512_lem stray valid near ips i k (small (i + k)) h in
      elim (Bool-cases (leb (count / 16 * 16 + 8) count)) [
        | inl many ↦ rw many (
            rest_lem 16 (block_avx512 stray t ips) (scalar_result t ips) count next_hops lanes _
              (λ k.
                avx2_lem (λ m. ips (count / 16 * 16 + m))
                  (λ m.
                    block_loop 16 (block_avx512 stray t ips) (count / 16) 0 next_hops
                      (count / 16 * 16 + m))
                  (count - count / 16 * 16) k (λ m. small (count / 16 * 16 + m)))
              j)
        | inr few ↦ rw few (
            one_by_one_lem 16 (block_avx512 stray t ips) (scalar_result t ips) count next_hops lanes
              j)
      ]

-- On a DIR-24-8 trie that satisfies the invariant and has at most 2^23 groups in use, the batch
-- lookup that the resolver picks for any level writes the answer of the single lookup for each of the
-- first `count` addresses, and leaves the rest of the output array alone. What stands in front of
-- the arrays that are gathered from does not matter.
pub batch_resolver_dir24-eq-lookup :
    (level : SimdLevel) (stray : ℕ → ℕ) (t : Trie) (ips next_hops : Table) (count j : ℕ)
    → IsValid t
    → t.tbl8_groups_used ≤ 2 ^ 23
    → ((i : ℕ) → ips i < 2 ^ 32)
    → lookup_batch_ipv4_dir24 stray t level ips next_hops count j
      ≡ batched (λ i. lookup_ipv4_dir24 t (ips i)) count next_hops j
unfolding lookup_batch_ipv4_dir24 lookup_batch_ipv4_dir24_avx lookup_batch_ipv4_dir24_sse42
    lookup_batch_ipv4_dir24_scalar
batch_resolver_dir24-eq-lookup level stray t ips next_hops count j valid near small = go level
  where
    scalar :
        batch_loop (scalar_result t ips) count 0 next_hops j
        ≡ batched (λ i. lookup_ipv4_dir24 t (ips i)) count next_hops j
    scalar =
        lookup_batch-eq-lookup_ipv4 t ips next_hops count j valid.in_use valid.present (small j)

    vector :
        batched (scalar_result t ips) count next_hops j
        ≡ batched (λ i. lookup_ipv4_dir24 t (ips i)) count next_hops j
    vector = sym (batch_loop_lem (scalar_result t ips) count next_hops j) ∙ scalar

    go :
        (l : SimdLevel)
        → lookup_batch_ipv4_dir24 stray t l ips next_hops count j
          ≡ batched (λ i. lookup_ipv4_dir24 t (ips i)) count next_hops j
    go simd_avx512f = avx512_lem stray t valid near ips next_hops count j small ∙ vector
    go simd_avx2 = avx2_lem stray t valid near ips next_hops count j small ∙ vector
    go simd_avx = scalar
    go simd_sse4_2 = scalar
    go simd_sse2 = scalar
    go simd_scalar = scalar
    go simd_other = scalar
