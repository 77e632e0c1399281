-- ===== src/Tests/Stride8.antt =====
-- src/4stride8 and src/6stride8 on small routing tables.
use liblpm.Base.{ℕ, ◌^◌, ◌<◌, ◌≡◌, refl, arith, ◌==◌, ltb, if◌then◌else◌, List, [], ◌∷◌, some, none}
use liblpm.Word.{test}
use liblpm.Simd.{simd_scalar, simd_avx2, simd_avx512f}
use liblpm.Trie.{Trie, Bytes, Allocator, zero_trie, zero_entry, write}
use liblpm.Rib.{longest}
use liblpm.Prefix.Value.{value}
use liblpm.Dir24.Index.{IsBytes}
use liblpm.Dir24.Lpm.{hop_of}
use liblpm.Pool.{node_alloc, take_node}
use liblpm.Pool.Rest.{IsBounded}
use liblpm.Stride8.{open_child, fill_partial, fill_node, direct_table_update, direct_loop}
use liblpm.Stride8.Create.{create_ipv4_8stride, create_ipv6_8stride}
use liblpm.Stride8.Update.{
  add_ipv4_8stride, add_ipv6_8stride, add_8stride, add_from, delete_ipv4_8stride,
  delete_ipv6_8stride,
}
use liblpm.Stride8.Lookup.{
  lookup_ipv4_8stride_bytes, ipv4_8stride_single_resolver, lookup_ipv4_8stride_scalar,
  lookup_levels, ipv6_8stride_single_resolver,
}
use liblpm.Stride8.Valid.{IsTrie}
use liblpm.Stride8.Add.{Added, add_ipv4_8stride-Added, add_ipv6_8stride-Added}
use liblpm.Stride8.Remove.{Removed, delete_ipv4_8stride-Removed, delete_ipv6_8stride-Removed}
use liblpm.Stride8.Fresh.{fresh-IsTrie, create_ipv4_8stride-IsFresh, create_ipv6_8stride-IsFresh}
use liblpm.History.{ByteRoute, AllBytes, add_history, as_routes}
use liblpm.Stride8.Lpm.{lookup-add_ipv4_history, lookup-add_ipv6_history}
use liblpm.Batch.{batched}
use liblpm.Batch.Variants.{ipv4_8stride_batch_resolver}
use liblpm.Batch.Longest.{batch_resolver-add_ipv4_history}
use liblpm.History.Reach.{created, then_add, then_delete}
use liblpm.Stride8.Tree.{plain}
use liblpm.Stride8.Reach.{reached_ipv4-IsTrie, reached_ipv6-IsTrie}

-- Grants what is below 2 TiB.
abbrev bounded : Allocator
bounded = record { grants = λ n. ltb n (2 ^ 41); fresh = λ n i. zero_entry }

bounded-IsBounded : IsBounded bounded
bounded-IsBounded n granted = ground (arith, granted)

-- The bytes x, 1, 2, y and then 7.
abbrev address : ℕ → ℕ → Bytes
address x y i =
    if i == 0 then x else if i == 1 then 1 else if i == 2 then 2 else if i == 3 then y else 7

address-IsBytes : (x y : ℕ) → x < 256 → y < 256 → IsBytes (address x y)
address-IsBytes x y hx hy i = ground arith

-- The default route, 10.0.0.0/15, 10.1.2.0/24 and 10.1.2.192/27, in this order, as IPv4 prefixes.
abbrev history : List ByteRoute
history =
    record { bytes = address 10 192; len = 27; next_hop = 3 }
    ∷ record { bytes = address 10 0; len = 24; next_hop = 2 }
    ∷ record { bytes = address 10 0; len = 15; next_hop = 1 }
    ∷ record { bytes = address 0 0; len = 0; next_hop = 9 }
    ∷ []

abbrev new_ipv4 : Trie
unfolding create_ipv4_8stride node_alloc take_node write
new_ipv4 = elim (create_ipv4_8stride bounded) [ some t ↦ t | none ↦ zero_trie ]

abbrev new_ipv6 : Trie
unfolding create_ipv6_8stride node_alloc take_node write
new_ipv6 = elim (create_ipv6_8stride bounded) [ some t ↦ t | none ↦ zero_trie ]

new_ipv4_lem : create_ipv4_8stride bounded ≡ some new_ipv4
unfolding create_ipv4_8stride node_alloc take_node new_ipv4
new_ipv4_lem = refl

new_ipv6_lem : create_ipv6_8stride bounded ≡ some new_ipv6
unfolding create_ipv6_8stride node_alloc take_node new_ipv6
new_ipv6_lem = refl

abbrev built_ipv4 : Trie
unfolding add_history node_alloc take_node add_ipv4_8stride add_8stride add_from open_child write
    fill_partial fill_node direct_table_update direct_loop create_ipv4_8stride
built_ipv4 = elim (add_history (add_ipv4_8stride bounded) new_ipv4 history) [
  | some t ↦ t
  | none ↦ zero_trie
]

abbrev built_ipv6 : Trie
unfolding add_history node_alloc take_node add_ipv6_8stride add_8stride add_from open_child write
    fill_partial fill_node create_ipv6_8stride
built_ipv6 = elim (add_history (add_ipv6_8stride bounded) new_ipv6 history) [
  | some t ↦ t
  | none ↦ zero_trie
]

history_bytes : AllBytes history
history_bytes =
    let short : IsBytes (address 10 0) = address-IsBytes 10 0 (omega arith) (omega arith) in
    (
      address-IsBytes 10 192 (omega arith) (omega arith),
      omega arith,
      (
        short,
        omega arith,
        (short, omega arith, (address-IsBytes 0 0 (omega arith) (omega arith), omega arith, tt)),
      ),
    )

-- 10.1.2.200, as an IPv6 address 0a01:02c8:0707:...
abbrev host : Bytes
host = address 10 200

host-IsBytes : IsBytes host
host-IsBytes = address-IsBytes 10 200 (omega arith) (omega arith)

lookup-add_ipv4_history_example :
    lookup_ipv4_8stride_bytes simd_avx2 built_ipv4 host
    ≡ hop_of (longest 32 (as_routes 4 history) (value 4 host))
unfolding built_ipv4
lookup-add_ipv4_history_example =
    lookup-add_ipv4_history bounded new_ipv4 built_ipv4 history bounded-IsBounded new_ipv4_lem
      (omega arith) history_bytes refl simd_avx2 host host-IsBytes

lookup-add_ipv6_history_example :
    ipv6_8stride_single_resolver simd_avx512f built_ipv6 host
    ≡ hop_of (longest 128 (as_routes 16 history) (value 16 host))
unfolding built_ipv6
lookup-add_ipv6_history_example =
    lookup-add_ipv6_history bounded new_ipv6 built_ipv6 history bounded-IsBounded new_ipv6_lem
      (omega arith) history_bytes refl simd_avx512f host host-IsBytes

-- What the lookups answer for 10.1.2.200, 10.1.2.7, 10.1.9.7 and 11.1.2.7.
four_routes :
    (lookup_ipv4_8stride_bytes simd_scalar built_ipv4 host ≡ 3)
    × (lookup_ipv4_8stride_bytes simd_scalar built_ipv4 (address 10 7) ≡ 2)
    × (lookup_ipv4_8stride_bytes simd_scalar built_ipv4 (λ i. if i == 0 then 10 else 1) ≡ 1)
    × (lookup_ipv4_8stride_bytes simd_scalar built_ipv4 (address 11 7) ≡ 9)
unfolding built_ipv4 ipv4_8stride_single_resolver lookup_ipv4_8stride_scalar lookup_levels test
four_routes = (refl, refl, refl, refl)

reached_ipv4-IsTrie_example :
    IsTrie (delete_ipv4_8stride (add_ipv4_8stride bounded new_ipv4 host 27 3).1 host 20).1
reached_ipv4-IsTrie_example = reached_ipv4-IsTrie bounded bounded-IsBounded _ (
    then_delete _ host 20 host-IsBytes
      (then_add new_ipv4 host 27 3 host-IsBytes (created new_ipv4 new_ipv4_lem)))

reached_ipv6-IsTrie_example :
    IsTrie (delete_ipv6_8stride (add_ipv6_8stride bounded new_ipv6 host 129 3).1 host 0).1
reached_ipv6-IsTrie_example = reached_ipv6-IsTrie bounded bounded-IsBounded _ (
    then_delete _ host 0 host-IsBytes
      (then_add new_ipv6 host 129 3 host-IsBytes (created new_ipv6 new_ipv6_lem)))

new_ipv4-IsTrie : IsTrie new_ipv4
new_ipv4-IsTrie = fresh-IsTrie (create_ipv4_8stride-IsFresh bounded new_ipv4_lem)

new_ipv6-IsTrie : IsTrie new_ipv6
new_ipv6-IsTrie = fresh-IsTrie (create_ipv6_8stride-IsFresh bounded new_ipv6_lem)

add_ipv4_8stride-Added_example :
    Added
      (plain new_ipv4.root_idx)
      bounded
      new_ipv4
      host
      27
      3
      (add_ipv4_8stride bounded new_ipv4 host 27 3)
add_ipv4_8stride-Added_example =
    add_ipv4_8stride-Added bounded new_ipv4 host 27 3 bounded-IsBounded new_ipv4-IsTrie host-IsBytes
      (omega arith) (omega arith)

add_ipv6_8stride-Added_example :
    Added
      (plain new_ipv6.root_idx)
      bounded
      new_ipv6
      host
      61
      3
      (add_ipv6_8stride bounded new_ipv6 host 61 3)
add_ipv6_8stride-Added_example =
    add_ipv6_8stride-Added bounded new_ipv6 host 61 3 bounded-IsBounded new_ipv6-IsTrie host-IsBytes
      (omega arith) (omega arith)

with_host-IsTrie : IsTrie (add_ipv4_8stride bounded new_ipv4 host 27 3).1
with_host-IsTrie =
    reached_ipv4-IsTrie bounded bounded-IsBounded _
      (then_add new_ipv4 host 27 3 host-IsBytes (created new_ipv4 new_ipv4_lem))

delete_ipv4_8stride-Removed_example :
    Removed
      (plain (add_ipv4_8stride bounded new_ipv4 host 27 3).1.root_idx)
      (add_ipv4_8stride bounded new_ipv4 host 27 3).1
      host
      27
      (delete_ipv4_8stride (add_ipv4_8stride bounded new_ipv4 host 27 3).1 host 27)
delete_ipv4_8stride-Removed_example =
    delete_ipv4_8stride-Removed host 27 host-IsBytes _ with_host-IsTrie (omega arith) (omega arith)

delete_ipv6_8stride-Removed_example :
    Removed (plain new_ipv6.root_idx) new_ipv6 host 33 (delete_ipv6_8stride new_ipv6 host 33)
delete_ipv6_8stride-Removed_example =
    delete_ipv6_8stride-Removed host 33 host-IsBytes new_ipv6 new_ipv6-IsTrie (omega arith)
      (omega arith)

batch_resolver-add_ipv4_history_example :
    ipv4_8stride_batch_resolver simd_avx512f built_ipv4 (λ i. host) (λ i. 77) 17 16
    ≡ batched (λ i. hop_of (longest 32 (as_routes 4 history) (value 4 host))) 17 (λ i. 77) 16
unfolding built_ipv4
batch_resolver-add_ipv4_history_example =
    batch_resolver-add_ipv4_history bounded new_ipv4 built_ipv4 history bounded-IsBounded
      new_ipv4_lem (omega arith) history_bytes refl simd_avx512f (λ i. host) (λ i. 77) 17 16
      (λ i. host-IsBytes)
