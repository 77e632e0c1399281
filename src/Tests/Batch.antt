-- ===== src/Tests/Batch.antt =====
-- The batch lookups on new tries.
use liblpm.Base.{
  ℕ, ◌*◌, ◌%◌, ◌^◌, ◌≡◌, refl, arith, true, ◌||◌, ◌&&◌, leb, if◌then◌else◌, some, none, inl,
}
use liblpm.Word.{test, u64}
use liblpm.Trie.{Allocator, Bytes, Table, Trie, zero_entry, zero_trie, write}
use liblpm.Simd.{simd_avx, simd_avx2, simd_avx512f}
use liblpm.Pool.{node_alloc, take_node, wide_node_alloc, take_wide_node}
use liblpm.Dir24.Create.{create_ipv4_dir24, create_ipv4_dir24-IsNew}
use liblpm.Dir24.Valid.{IsValid}
use liblpm.Dir24.Lookup.{lookup_ipv4_dir24, address_bytes}
use liblpm.Stride8.Create.{create_ipv4_8stride, create_ipv6_8stride}
use liblpm.Stride8.Lookup.{lookup_ipv4_8stride_bytes, lookup_ipv6_8stride}
use liblpm.Wide16.{create_ipv6_wide16}
use liblpm.Wide16.Lookup.{wide16_single_resolver}
use liblpm.Batch.{batched}
use liblpm.Batch.Variants.{ipv4_8stride_batch_resolver, ipv6_8stride_batch_resolver}
use liblpm.Batch.Agree.{batch_resolver_ipv4-eq-lookup, batch_resolver_ipv6-eq-lookup}
use liblpm.Batch.Wide16.{wide16_batch_resolver}
use liblpm.Batch.WideLanes.{IsLastWide}
use liblpm.Batch.WideAgree.{batch_resolver_wide16-eq-lookup}
use liblpm.Batch.Gather.{lookup_batch_ipv4_dir24}
use liblpm.Batch.GatherResolve.{batch_resolver_dir24-eq-lookup}
use liblpm.Batch.Public.{
  lookup_batch_ipv4_8stride, lookup_batch_ipv6_8stride, lookup_batch_ipv4_8stride-eq-lookup,
  lookup_batch_ipv6_8stride-eq-lookup,
}
use liblpm.Api.Lookup.{lookup}
use liblpm.Api.Batch.{lookup_batch, lookup_batch-lookup}

abbrev generous : Allocator
generous = record { grants = λ n. true; fresh = λ n i. zero_entry }

abbrev strides_ipv4 : Trie
unfolding create_ipv4_8stride node_alloc take_node
strides_ipv4 = elim (create_ipv4_8stride generous) [ some t ↦ t | none ↦ zero_trie ]

abbrev strides_ipv6 : Trie
unfolding create_ipv6_8stride node_alloc take_node
strides_ipv6 = elim (create_ipv6_8stride generous) [ some t ↦ t | none ↦ zero_trie ]

abbrev wide : Trie
unfolding create_ipv6_wide16 wide_node_alloc take_wide_node
wide = elim (create_ipv6_wide16 generous) [ some t ↦ t | none ↦ zero_trie ]

abbrev direct : Trie
unfolding create_ipv4_dir24
direct = elim (create_ipv4_dir24 generous) [ some t ↦ t | none ↦ zero_trie ]

-- The addresses, and the output array before the call.
abbrev rows : ℕ → Bytes
rows i = address_bytes (i * 65537)

abbrev ips : Table
ips i = i * 65537 % 2 ^ 32

abbrev output : Table
output i = 77

batch_resolver_ipv4-eq-lookup_example :
    ipv4_8stride_batch_resolver simd_avx512f strides_ipv4 rows output 20 3
    ≡ batched (λ i. lookup_ipv4_8stride_bytes simd_avx512f strides_ipv4 (rows i)) 20 output 3
unfolding strides_ipv4
batch_resolver_ipv4-eq-lookup_example =
    batch_resolver_ipv4-eq-lookup simd_avx512f strides_ipv4 rows output 20 3 refl

batch_resolver_ipv6-eq-lookup_example :
    ipv6_8stride_batch_resolver simd_avx strides_ipv6 rows output 20 3
    ≡ batched (λ i. lookup_ipv6_8stride simd_avx strides_ipv6 (rows i)) 20 output 3
unfolding strides_ipv6
batch_resolver_ipv6-eq-lookup_example =
    batch_resolver_ipv6-eq-lookup simd_avx strides_ipv6 rows output 20 3 refl refl

wide-IsLastWide : IsLastWide wide
unfolding wide write test
wide-IsLastWide index = refl

batch_resolver_wide16-eq-lookup_example :
    wide16_batch_resolver simd_avx512f wide rows output 28 25
    ≡ batched (λ i. wide16_single_resolver simd_avx512f wide (rows i)) 28 output 25
batch_resolver_wide16-eq-lookup_example =
    batch_resolver_wide16-eq-lookup simd_avx512f wide rows output 28 25 wide-IsLastWide

direct_lem : create_ipv4_dir24 generous ≡ some direct
unfolding create_ipv4_dir24 direct
direct_lem = refl

direct-IsValid : IsValid direct
direct-IsValid = (create_ipv4_dir24-IsNew generous direct_lem).valid

batch_resolver_dir24-eq-lookup_example :
    lookup_batch_ipv4_dir24 (λ i. 5) direct simd_avx2 ips output 20 3
    ≡ batched (λ i. lookup_ipv4_dir24 direct (ips i)) 20 output 3
unfolding direct
batch_resolver_dir24-eq-lookup_example =
    batch_resolver_dir24-eq-lookup simd_avx2 (λ i. 5) direct ips output 20 3 direct-IsValid
      (omega arith) (λ i. omega arith)

lookup_batch_ipv4_8stride-eq-lookup_example :
    lookup_batch_ipv4_8stride generous rows simd_avx2 strides_ipv4 ips output 300 299 ≡ (
      if leb 300 256 || generous.grants (u64 (300 * 4)) && generous.grants (u64 (300 * 8))
      then batched
          (λ i. lookup_ipv4_8stride_bytes simd_avx2 strides_ipv4 (address_bytes (ips i)))
          300
          output
          299
      else output 299)
unfolding strides_ipv4
lookup_batch_ipv4_8stride-eq-lookup_example =
    lookup_batch_ipv4_8stride-eq-lookup generous rows simd_avx2 strides_ipv4 ips output 300 299 refl

lookup_batch_ipv6_8stride-eq-lookup_example :
    lookup_batch_ipv6_8stride generous rows simd_avx2 strides_ipv6 rows output 300 299 ≡ (
      if leb 300 256 || generous.grants (u64 (300 * 8))
      then batched (λ i. lookup_ipv6_8stride simd_avx2 strides_ipv6 (rows i)) 300 output 299
      else output 299)
unfolding strides_ipv6
lookup_batch_ipv6_8stride-eq-lookup_example =
    lookup_batch_ipv6_8stride-eq-lookup generous rows simd_avx2 strides_ipv6 rows output 300 299
      refl refl

lookup_batch-lookup_example :
    lookup_batch simd_avx2 (some strides_ipv4) (some rows) output 20 3
    ≡ batched (λ i. lookup simd_avx2 (some strides_ipv4) (some (rows i))) 20 output 3
unfolding strides_ipv4
lookup_batch-lookup_example =
    lookup_batch-lookup simd_avx2 strides_ipv4 rows output 20 3 refl (inl refl)
