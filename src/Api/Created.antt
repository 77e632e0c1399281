-- ===== src/Api/Created.antt =====
-- What the lookups of src/api.c answer on a trie that was just made.
use liblpm.Base.{
  ℕ, ◌*◌, ◌==◌, ◌≡◌, refl, ◌∙◌, Bool, true, false, ◌&&◌, if◌then◌else◌, Bool-cases, inl, inr, none,
  some,
}
use liblpm.Word.{invalid_next_hop, ipv4_max_depth, ipv6_max_depth, test}
use liblpm.Trie.{
  Bytes, DirectEntry, Trie, Allocator, write, trie_bytes, hot_cache_size, cache_entry_bytes,
  zero_cache,
}
use liblpm.Simd.{SimdLevel, simd_scalar}
use liblpm.Pool.{
  node_alloc, take_node, wide_node_alloc, take_wide_node, node_bytes, wide_node_bytes,
}
use liblpm.Dir24.{dir24_size, default_groups, group_entries}
use liblpm.Dir24.Create.{create_ipv4_dir24}
use liblpm.Dir24.Lookup.{lookup_ipv4_dir24_bytes, dir24_lookup, entry_next_hop, with_default}
use liblpm.Stride8.Create.{create_ipv4_8stride, create_ipv6_8stride, initial_pool_size}
use liblpm.Stride8.Lookup.{
  lookup_levels, lookup_ipv6_8stride, ipv4_8stride_single_resolver, ipv6_8stride_single_resolver,
  lookup_ipv4_8stride_scalar, lookup_ipv6_8stride_scalar,
}
use liblpm.Wide16.{create_ipv6_wide16}
use liblpm.Wide16.Lookup.{
  lookup_ipv6_wide16, lookup_wide16_internal, lookup_wide_levels, wide16_single_resolver,
  lookup_ipv6_wide16_scalar,
}
use liblpm.Api.Create.{Macros, create}
use liblpm.Api.Lookup.{lookup, dispatch_lookup, dispatch_ipv6}
use liblpm.Api.Dispatch.{lookup-simd_scalar}

-- No lookup reads the hot cache.
hot_cache_unread :
    (b : Bool) (t : Trie) (addr : Bytes)
    → dispatch_lookup simd_scalar
        (if b then record t { has_hot_cache = true; hot_cache = zero_cache } else t)
        addr
      ≡ dispatch_lookup simd_scalar t addr
unfolding dispatch_lookup dispatch_ipv6 lookup_ipv6_8stride lookup_ipv6_wide16
    lookup_ipv4_dir24_bytes lookup_wide16_internal lookup_wide_levels ipv4_8stride_single_resolver
    ipv6_8stride_single_resolver wide16_single_resolver lookup_ipv6_wide16_scalar with_default
    lookup_ipv4_8stride_scalar lookup_ipv6_8stride_scalar
hot_cache_unread true t addr = refl
hot_cache_unread false t addr = refl

direct_table_unread :
    (b : Bool) (table : ℕ → DirectEntry) (t : Trie) (addr : Bytes)
    → dispatch_lookup simd_scalar
        (if b then record t { has_direct_table = true; direct_table = table } else t)
        addr
      ≡ dispatch_lookup simd_scalar t addr
unfolding dispatch_lookup dispatch_ipv6 lookup_ipv6_8stride lookup_ipv6_wide16
    lookup_ipv4_dir24_bytes lookup_wide16_internal lookup_wide_levels ipv4_8stride_single_resolver
    ipv6_8stride_single_resolver wide16_single_resolver lookup_ipv6_wide16_scalar with_default
    lookup_ipv4_8stride_scalar lookup_ipv6_8stride_scalar
direct_table_unread true table t addr = refl
direct_table_unread false table t addr = refl

module _ (al : Allocator) (addr : Bytes) where
  ipv6_8stride-empty : lookup simd_scalar (create_ipv6_8stride al) (some addr) ≡ invalid_next_hop
  unfolding lookup create_ipv6_8stride node_alloc take_node dispatch_lookup dispatch_ipv6
      lookup_ipv6_8stride ipv6_8stride_single_resolver lookup_ipv6_8stride_scalar lookup_levels
      write test
  ipv6_8stride-empty =
      elim (Bool-cases (al.grants trie_bytes && al.grants (initial_pool_size * node_bytes))) [
        | inr refused ↦ rw refused refl
        | inl granted ↦
            rw granted (hot_cache_unread (al.grants (hot_cache_size * cache_entry_bytes)) _ addr)
      ]

  ipv4_8stride-empty : lookup simd_scalar (create_ipv4_8stride al) (some addr) ≡ invalid_next_hop
  unfolding lookup create_ipv4_8stride node_alloc take_node dispatch_lookup
      ipv4_8stride_single_resolver lookup_ipv4_8stride_scalar lookup_levels write test
  ipv4_8stride-empty =
      elim (Bool-cases (al.grants trie_bytes && al.grants (initial_pool_size * node_bytes))) [
        | inr refused ↦ rw refused refl
        | inl granted ↦ rw granted (
            hot_cache_unread (al.grants (hot_cache_size * cache_entry_bytes)) _ addr
            ∙ direct_table_unread (al.grants (65536 * 12)) _ _ addr)
      ]

  ipv6_wide16-empty : lookup simd_scalar (create_ipv6_wide16 al) (some addr) ≡ invalid_next_hop
  unfolding lookup create_ipv6_wide16 wide_node_alloc take_wide_node dispatch_lookup dispatch_ipv6
      lookup_ipv6_wide16 wide16_single_resolver lookup_ipv6_wide16_scalar lookup_wide16_internal
      lookup_wide_levels write test
  ipv6_wide16-empty =
      elim (Bool-cases (
        al.grants trie_bytes
        && al.grants (initial_pool_size * node_bytes)
        && al.grants (16 * wide_node_bytes))) [
          | inr refused ↦ rw refused refl
          | inl granted ↦
              rw granted (hot_cache_unread (al.grants (hot_cache_size * cache_entry_bytes)) _ addr)
        ]

  ipv4_dir24-empty : lookup simd_scalar (create_ipv4_dir24 al) (some addr) ≡ invalid_next_hop
  unfolding lookup create_ipv4_dir24 dispatch_lookup lookup_ipv4_dir24_bytes dir24_lookup
      entry_next_hop with_default test
  ipv4_dir24-empty = elim (Bool-cases (al.grants trie_bytes)) [
    | inr refused ↦ rw refused refl
    | inl one ↦ elim (Bool-cases (al.grants (dir24_size * 4))) [
      | inr refused ↦ rw (one, refused) refl
      | inl two ↦ elim (Bool-cases (al.grants (default_groups * group_entries * 4))) [
        | inr refused ↦ rw (one, two, refused) refl
        | inl three ↦ rw (one, two, three) refl
      ]
    ]
  ]

  each_choice :
      (ipv4 ipv6 dir24 wide16 : Bool)
      → lookup simd_scalar
          (if ipv4
            then (if dir24 then create_ipv4_dir24 al else create_ipv4_8stride al)
            else if ipv6
            then (if wide16 then create_ipv6_wide16 al else create_ipv6_8stride al)
            else none)
          (some addr)
        ≡ invalid_next_hop
  unfolding lookup
  each_choice true ipv6 true wide16 = ipv4_dir24-empty
  each_choice true ipv6 false wide16 = ipv4_8stride-empty
  each_choice false true dir24 true = ipv6_wide16-empty
  each_choice false true dir24 false = ipv6_8stride-empty
  each_choice false false dir24 wide16 = refl

  -- On every trie that `lpm_create` makes, for every build and processor and whatever malloc leaves
  -- in the memory, `lpm_lookup` finds no route for any address. The NULL of a failed creation gives
  -- the same answer.
  pub lookup-create :
      (macros : Macros) (level : SimdLevel) (max_depth : ℕ)
      → lookup level (create macros al max_depth) (some addr) ≡ invalid_next_hop
  unfolding create
  lookup-create macros level max_depth =
      lookup-simd_scalar level (create macros al max_depth) (some addr) ∙ empty
    where
      empty : lookup simd_scalar (create macros al max_depth) (some addr) ≡ invalid_next_hop
      empty =
          each_choice (max_depth == ipv4_max_depth) (max_depth == ipv6_max_depth)
            macros.ipv4_default_dir24 macros.ipv6_default_wide16
