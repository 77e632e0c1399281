-- ===== src/Tests/Php.antt =====
-- src/bindings/php on a small routing table. A stand-in for `inet_pton` takes each character of the
-- text for a byte.
use liblpm.Base.{ℕ, ◌-◌, ◌^◌, ◌≡◌, refl, ◌==◌, ltb, if◌then◌else◌, true, some, none, List, [], ◌∷◌}
use liblpm.Word.{u8, test}
use liblpm.Simd.{simd_scalar, simd_avx2}
use liblpm.Trie.{Bytes, Allocator, zero_entry, write}
use liblpm.Pool.{node_alloc, take_node, wide_node_alloc, take_wide_node}
use liblpm.History.{ByteRoute}
use liblpm.Stride8.{open_child, fill_partial, fill_node}
use liblpm.Stride8.Update.{add_from}
use liblpm.Wide16.{
  create_ipv6_wide16, fill_wide_node, fill_wide_partial, next_node_alloc, link_flags,
  open_wide_child,
}
use liblpm.Wide16.Update.{add_levels, add_ipv6_wide16}
use liblpm.Wide16.Lookup.{
  lookup_bytes, lookup_wide_levels, lookup_wide16_internal, lookup_ipv6_wide16_scalar,
  wide16_single_resolver, lookup_ipv6_wide16,
}
use liblpm.Api.{add, dispatch_add}
use liblpm.Api.Lookup.{lookup_ipv6, dispatch_ipv6}
use liblpm.Lua.Text.{Text, split_at, read_number, read_digits, skip_space}
use liblpm.Php.Prefix.{Pton, parse_prefix, prefix_length}
use liblpm.Php.Table.{
  PhpTable, plain, php_false, php_long, returned, construct, create_resource, insert, php_lookup,
  close,
}
use liblpm.Php.Methods.{table_ipv6_construct, table_ipv6_lookup, lpm_create_ipv4}
use liblpm.Php.Run.{
  resource, insert_call, lookup_call, size_call, close_call, run, refusals, run-close,
}
use liblpm.Php.Script.{PhpRoute, insert_history}

-- Grants what is below 2 TiB.
abbrev bounded : Allocator
bounded = record { grants = λ n. ltb n (2 ^ 41); fresh = λ n i. zero_entry }

abbrev spelled : Text → Bytes
spelled [] i = 0
spelled (c ∷ s) i = if i == 0 then u8 c else spelled s (i - 1)

abbrev pton : Pton
pton = record { ipv4 = λ s. none; ipv6 = λ s. some (spelled s) }

-- The bytes 32, 1 and `y`, a slash and the digits `d` and `e`.
abbrev prefix_text : ℕ → ℕ → ℕ → Text
prefix_text y d e = 32 ∷ 1 ∷ y ∷ 47 ∷ d ∷ e ∷ []

-- 2001:a700::/24, 2001:a000::/20 and 2001::/16, the newest first.
abbrev history : List PhpRoute
history =
    record { prefix = prefix_text 167 50 52; next_hop = plain 4 }
    ∷ record { prefix = prefix_text 160 50 48; next_hop = plain 3 }
    ∷ record { prefix = prefix_text 0 49 54; next_hop = plain 2 }
    ∷ []

abbrev address : ℕ → Bytes
address y = spelled (32 ∷ 1 ∷ y ∷ [])

abbrev routes : List ByteRoute
routes =
    record { bytes = address 167; len = 24; next_hop = 4 }
    ∷ record { bytes = address 160; len = 20; next_hop = 3 }
    ∷ record { bytes = address 0; len = 16; next_hop = 2 }
    ∷ []

abbrev new_table : PhpTable
unfolding construct create_ipv6_wide16 wide_node_alloc take_wide_node write
new_table = (table_ipv6_construct bounded (plain 0)).1

abbrev built : PhpTable
unfolding insert_history insert add dispatch_add node_alloc take_node add_ipv6_wide16 add_levels
    add_from open_child write fill_partial fill_node fill_wide_node fill_wide_partial
    next_node_alloc link_flags open_wide_child construct create_ipv6_wide16 parse_prefix split_at
    prefix_length read_number read_digits skip_space
built = elim (insert_history bounded pton (table_ipv6_construct bounded (plain 0)).1 history) [
  | some t ↦ t
  | none ↦ new_table
]

abbrev host : Text
host = 32 ∷ 1 ∷ 167 ∷ 9 ∷ []

-- What `lookup` returns for 2001:a709::, 2001:a009:: and 2101::.
three_answers :
    (table_ipv6_lookup simd_scalar pton built host ≡ returned (php_long (plain 4)))
    × (table_ipv6_lookup simd_scalar pton built (32 ∷ 1 ∷ 168 ∷ []) ≡ returned (php_long (plain 3)))
    × (table_ipv6_lookup simd_scalar pton built (33 ∷ 1 ∷ 167 ∷ []) ≡ returned php_false)
unfolding built php_lookup lookup_ipv6 dispatch_ipv6 lookup_ipv6_wide16 wide16_single_resolver
    lookup_ipv6_wide16_scalar lookup_wide16_internal lookup_wide_levels lookup_bytes test write
    wide_node_alloc take_wide_node
three_answers = (refl, refl, refl)

run-close_example :
    run bounded
      (λ i j. 0)
      (λ i. 0)
      simd_avx2
      pton
      resource
      (insert_call (prefix_text 0 49 54) (plain 2) ∷ lookup_call host ∷ size_call ∷ close_call ∷ [])
      (close built)
    ≡ (
      refusals resource (
          insert_call (prefix_text 0 49 54) (plain 2)
          ∷ lookup_call host
          ∷ size_call
          ∷ close_call
          ∷ []),
      close built,
    )
run-close_example =
    run-close bounded (λ i j. 0) (λ i. 0) simd_avx2 pton resource
      (insert_call (prefix_text 0 49 54) (plain 2) ∷ lookup_call host ∷ size_call ∷ close_call ∷ [])
      built

-- "x/" is a prefix of length 0.
no_length : parse_prefix pton true (120 ∷ 47 ∷ []) ≡ some (spelled (120 ∷ []), 0)
unfolding parse_prefix split_at prefix_length read_number skip_space
no_length = refl

-- An algorithm that is not known.
no_table : lpm_create_ipv4 bounded (plain 2) ≡ none
unfolding create_resource
no_table = refl
