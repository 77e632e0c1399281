-- ===== src/Tests/Api.antt =====
-- The generic interface, the pools and the batch lookups on concrete arguments.
use liblpm.Base.{◌*◌, true, false, ◌≡◌, ◌⊎◌, refl, arith, ◌==◌, if◌then◌else◌, some, none}
use liblpm.Word.{ipv4_max_depth, invalid_next_hop, test}
use liblpm.Trie.{Allocator, Bytes, Trie, zero_entry, zero_trie, write}
use liblpm.Simd.{simd_scalar, simd_sse2, simd_avx2, simd_avx512f}
use liblpm.Pool.{node_alloc, take_node, node_bytes}
use liblpm.Pool.Alloc.{IsPool, IsNewNode, node_alloc-IsNewNode}
use liblpm.Stride8.{open_child, fill_partial, fill_node, direct_table_update, direct_loop}
use liblpm.Stride8.Create.{create_ipv4_8stride}
use liblpm.Stride8.Update.{add_ipv4_8stride, add_8stride, add_from}
use liblpm.Stride8.Lookup.{
  lookup_ipv4_8stride_bytes, ipv4_8stride_single_resolver, lookup_ipv4_8stride_sse2, lookup_levels,
}
use liblpm.Cache.{
  cache_probe, cache_store, cache_index, fast_hash, hash_loop, cache_probe-cache_store,
}
use liblpm.Api.Create.{Macros, create}
use liblpm.Api.Lookup.{lookup, lookup_ipv4}
use liblpm.Api.Agree.{lookup-eq-lookup_ipv4}
use liblpm.Api.Dispatch.{lookup-simd_scalar}
use liblpm.Api.Created.{lookup-create}

abbrev generous : Allocator
generous = record { grants = λ n. true; fresh = λ n i. zero_entry }

abbrev default_build : Macros
default_build = record {
  ipv4_default_dir24 = false;
  ipv4_default_stride8 = true;
  ipv6_default_wide16 = true;
  ipv6_default_stride8 = false;
}

-- 10.1.2.3
abbrev sample : Bytes
sample i = if i == 0 then 10 else if i == 1 then 1 else if i == 2 then 2 else 3

lookup-create_example :
    lookup simd_avx2 (create default_build generous ipv4_max_depth) (some sample) ≡ invalid_next_hop
lookup-create_example = lookup-create generous sample default_build simd_avx2 ipv4_max_depth

abbrev small_trie : Trie
unfolding create_ipv4_8stride node_alloc take_node add_ipv4_8stride add_8stride add_from open_child
    write fill_partial fill_node direct_table_update direct_loop
small_trie = elim (create_ipv4_8stride generous) [
  | none ↦ zero_trie
  | some t ↦ (add_ipv4_8stride generous t sample 24 7).1
]

lookup-simd_scalar_example :
    lookup simd_avx512f (some small_trie) (some sample)
    ≡ lookup simd_scalar (some small_trie) (some sample)
lookup-simd_scalar_example = lookup-simd_scalar simd_avx512f (some small_trie) (some sample)

found : lookup_ipv4_8stride_bytes simd_sse2 small_trie sample ≡ 7
unfolding small_trie ipv4_8stride_single_resolver lookup_ipv4_8stride_sse2 lookup_levels write test
found = refl

abbrev full_pool : Trie
full_pool = record zero_trie { pool_capacity = 4; pool_used = 4 }

full_pool-IsPool : IsPool full_pool
full_pool-IsPool = record {
  no_dir24 = refl;
  zero_taken = omega arith;
  in_array = omega arith;
  doubles = omega arith;
}

node_alloc-IsNewNode_example :
    IsNewNode full_pool (node_alloc generous full_pool)
    ⊎ ((node_alloc generous full_pool ≡ (0, full_pool))
        × (full_pool.pool_used ≡ full_pool.pool_capacity)
        × (generous.grants (4 * 2 * node_bytes) ≡ false))
node_alloc-IsNewNode_example = node_alloc-IsNewNode generous full_pool full_pool-IsPool

abbrev cached : Trie
cached = record zero_trie { has_hot_cache = true }

cache_probe-cache_store_example : cache_probe (cache_store cached sample 4 9) sample 4 ≡ (
    if cache_index (fast_hash sample 4) == cache_index (fast_hash sample 4)
    then (9, fast_hash sample 4 == fast_hash sample 4)
    else cache_probe cached sample 4)
cache_probe-cache_store_example = cache_probe-cache_store cached sample sample 4 4 9 refl

-- The FNV-1a hash of the bytes 10, 1, 2, 3, and a hit.
hit : cache_probe (cache_store cached sample 4 9) sample 4 ≡ (9, true)
unfolding cache_probe cache_store fast_hash hash_loop write
hit = refl

lookup-eq-lookup_ipv4_example :
    lookup simd_avx2 (some small_trie) (some sample)
    ≡ lookup_ipv4 simd_avx2 (some small_trie) 0x0a010203
unfolding small_trie
lookup-eq-lookup_ipv4_example =
    lookup-eq-lookup_ipv4 simd_avx2 small_trie sample (λ i. ground arith) refl
