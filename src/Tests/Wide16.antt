-- ===== src/Tests/Wide16.antt =====
-- src/wide16 on a small routing table.
use liblpm.Base.{ℕ, ◌^◌, ◌<◌, ◌≡◌, refl, arith, ◌==◌, ltb, if◌then◌else◌, List, [], ◌∷◌, some, none}
use liblpm.Word.{test}
use liblpm.Simd.{simd_scalar, simd_avx2, simd_avx512f}
use liblpm.Trie.{Trie, Bytes, Allocator, zero_trie, zero_entry, write}
use liblpm.Rib.{longest}
use liblpm.Prefix.Value.{value}
use liblpm.Dir24.Index.{IsBytes}
use liblpm.Dir24.Lpm.{hop_of}
use liblpm.Pool.{node_alloc, take_node, wide_node_alloc, take_wide_node}
use liblpm.Pool.Rest.{IsBounded}
use liblpm.History.{ByteRoute, AllBytes, add_history, as_routes}
use liblpm.History.Reach.{created, then_add, then_delete}
use liblpm.Stride8.{open_child, fill_partial, fill_node}
use liblpm.Stride8.Update.{add_from}
use liblpm.Batch.{batched}
use liblpm.Batch.Wide16.{wide16_batch_resolver}
use liblpm.Wide16.{
  create_ipv6_wide16, fill_wide_node, fill_wide_partial, next_node_alloc, link_flags,
  open_wide_child,
}
use liblpm.Wide16.Update.{add_levels, add_ipv6_wide16, delete_ipv6_wide16}
use liblpm.Wide16.Lookup.{
  lookup_bytes, lookup_wide_levels, lookup_ipv6_wide16_scalar, wide16_single_resolver,
  lookup_ipv6_wide16,
}
use liblpm.Wide16.Valid.{IsWide}
use liblpm.Wide16.Lpm.{lookup-add_wide16_history, batch_resolver-add_wide16_history}
use liblpm.Wide16.Reach.{reached_wide16-IsWide}
use liblpm.Wide16.Remove.{Erased, delete_ipv6_wide16-Erased}

-- Grants what is below 2 TiB.
abbrev bounded : Allocator
bounded = record { grants = λ n. ltb n (2 ^ 41); fresh = λ n i. zero_entry }

bounded-IsBounded : IsBounded bounded
bounded-IsBounded n granted = ground (arith, granted)

-- The bytes x, 1, y and then 7.
abbrev address : ℕ → ℕ → Bytes
address x y i = if i == 0 then x else if i == 1 then 1 else if i == 2 then y else 7

address-IsBytes : (x y : ℕ) → x < 256 → y < 256 → IsBytes (address x y)
address-IsBytes x y hx hy i = ground arith

-- The default route, 2001::/15, 2001::/16, 2001:a000::/20 and 2001:a707::/32, in this order.
abbrev history : List ByteRoute
history =
    record { bytes = address 32 167; len = 32; next_hop = 4 }
    ∷ record { bytes = address 32 160; len = 20; next_hop = 3 }
    ∷ record { bytes = address 32 0; len = 16; next_hop = 2 }
    ∷ record { bytes = address 32 0; len = 15; next_hop = 1 }
    ∷ record { bytes = address 0 0; len = 0; next_hop = 9 }
    ∷ []

abbrev new_wide : Trie
unfolding create_ipv6_wide16 wide_node_alloc take_wide_node write
new_wide = elim (create_ipv6_wide16 bounded) [ some t ↦ t | none ↦ zero_trie ]

new_wide_lem : create_ipv6_wide16 bounded ≡ some new_wide
unfolding create_ipv6_wide16 wide_node_alloc take_wide_node new_wide
new_wide_lem = refl

abbrev built_wide : Trie
unfolding add_history node_alloc take_node add_ipv6_wide16 add_levels add_from open_child write
    fill_partial fill_node fill_wide_node fill_wide_partial next_node_alloc link_flags
    open_wide_child create_ipv6_wide16
built_wide = elim (add_history (add_ipv6_wide16 bounded) new_wide history) [
  | some t ↦ t
  | none ↦ zero_trie
]

history_bytes : AllBytes history
history_bytes =
    let bytes : (x y : ℕ) → x < 256 → y < 256 → IsBytes (address x y) = address-IsBytes in
    (
      bytes 32 167 (omega arith) (omega arith),
      omega arith,
      (
        bytes 32 160 (omega arith) (omega arith),
        omega arith,
        (
          bytes 32 0 (omega arith) (omega arith),
          omega arith,
          (
            bytes 32 0 (omega arith) (omega arith),
            omega arith,
            (bytes 0 0 (omega arith) (omega arith), omega arith, tt),
          ),
        ),
      ),
    )

-- 2001:a707:0707:...
abbrev host : Bytes
host = address 32 167

host-IsBytes : IsBytes host
host-IsBytes = address-IsBytes 32 167 (omega arith) (omega arith)

lookup-add_wide16_history_example :
    lookup_ipv6_wide16 simd_avx2 built_wide host
    ≡ hop_of (longest 128 (as_routes 16 history) (value 16 host))
unfolding built_wide new_wide
lookup-add_wide16_history_example =
    lookup-add_wide16_history bounded new_wide built_wide history bounded-IsBounded new_wide_lem
      (omega arith) history_bytes refl simd_avx2 host host-IsBytes

batch_resolver-add_wide16_history_example :
    wide16_batch_resolver simd_avx512f built_wide (λ i. host) (λ i. 77) 17 16
    ≡ batched (λ i. hop_of (longest 128 (as_routes 16 history) (value 16 host))) 17 (λ i. 77) 16
unfolding built_wide new_wide
batch_resolver-add_wide16_history_example =
    batch_resolver-add_wide16_history bounded new_wide built_wide history bounded-IsBounded
      new_wide_lem (omega arith) history_bytes refl simd_avx512f (λ i. host) (λ i. 77) 17 16
      (λ i. host-IsBytes)

-- What the lookup answers for 2001:a707::, 2001:a007::, 2001:707:: and 2101:a707::.
four_routes :
    (lookup_ipv6_wide16 simd_scalar built_wide host ≡ 4)
    × (lookup_ipv6_wide16 simd_scalar built_wide (address 32 168) ≡ 3)
    × (lookup_ipv6_wide16 simd_scalar built_wide (address 32 7) ≡ 2)
    × (lookup_ipv6_wide16 simd_scalar built_wide (address 33 167) ≡ 9)
unfolding built_wide wide16_single_resolver lookup_ipv6_wide16_scalar lookup_ipv6_wide16
    lookup_wide_levels lookup_bytes test new_wide
four_routes = (refl, refl, refl, refl)

reached_wide16-IsWide_example :
    IsWide (delete_ipv6_wide16 (add_ipv6_wide16 bounded new_wide host 20 3).1 host 16).1
reached_wide16-IsWide_example = reached_wide16-IsWide bounded bounded-IsBounded _ (
    then_delete _ host 16 host-IsBytes
      (then_add new_wide host 20 3 host-IsBytes (created new_wide new_wide_lem)))

with_host-IsWide : IsWide (add_ipv6_wide16 bounded new_wide host 20 3).1
with_host-IsWide =
    reached_wide16-IsWide bounded bounded-IsBounded _
      (then_add new_wide host 20 3 host-IsBytes (created new_wide new_wide_lem))

delete_ipv6_wide16-Erased_example :
    Erased
      (add_ipv6_wide16 bounded new_wide host 20 3).1
      host
      20
      (delete_ipv6_wide16 (add_ipv6_wide16 bounded new_wide host 20 3).1 host 20)
delete_ipv6_wide16-Erased_example =
    delete_ipv6_wide16-Erased (add_ipv6_wide16 bounded new_wide host 20 3).1 host 20
      with_host-IsWide host-IsBytes (omega arith) (omega arith)
