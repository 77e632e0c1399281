-- ===== src/Wide16/Lpm.antt =====
-- The adds of src/wide16/core.c, applied to a history of prefixes, against the specification of Rib.
use liblpm.Base.{ℕ, Bool, true, ◌≡◌, ap, ◌∙◌, ltb, if◌then◌else◌, some, List}
use liblpm.Word.{invalid_next_hop}
use liblpm.Simd.{SimdLevel}
use liblpm.Trie.{Bytes, Trie, Table, Allocator}
use liblpm.Rib.{longest}
use liblpm.Rib.Sorted.{IsSorted}
use liblpm.Prefix.Value.{value}
use liblpm.Dir24.Index.{IsBytes}
use liblpm.Dir24.Lpm.{hop_of}
use liblpm.Pool.Rest.{IsBounded}
use liblpm.History.{
  ByteRoute, Built, add_history, as_routes, AllBytes, add_history-Built, new-Built,
}
use liblpm.Batch.{batched}
use liblpm.Batch.Wide16.{wide16_batch_resolver}
use liblpm.Batch.WideAgree.{batch_resolver_wide16-eq-lookup}
use liblpm.Wide16.{create_ipv6_wide16}
use liblpm.Wide16.Update.{add_ipv6_wide16}
use liblpm.Wide16.Lookup.{wide16_single_resolver, lookup_ipv6_wide16}
use liblpm.Wide16.Valid.{wide_kind}
use liblpm.Wide16.Fresh.{create_ipv6_wide16-IsNew}
use liblpm.Wide16.Add.{add_ipv6_wide16-IsAdd}
use liblpm.Wide16.Search.{wide16_single_resolver-answer}

module _ (al : Allocator) (t u : Trie) (h : List ByteRoute) (bounded : IsBounded al)
    (created : create_ipv6_wide16 al ≡ some t) (sorted : IsSorted (as_routes 16 h))
    (fit : AllBytes h) (accepted : add_history (add_ipv6_wide16 al) t h ≡ some u) where
  wide_history-Built : Built wide_kind h u
  wide_history-Built =
      let new = create_ipv6_wide16-IsNew al created in
      add_history-Built wide_kind (add_ipv6_wide16 al) (add_ipv6_wide16-IsAdd al bounded) t h u
        (new-Built wide_kind t new.wide new.no_default new.no_routes) sorted fit accepted

  single :
      (level : SimdLevel) (a : Bytes)
      → IsBytes a
      → wide16_single_resolver level u a ≡ hop_of (longest 128 (as_routes 16 h) (value 16 a))
  single level a bytes =
      let built = wide_history-Built in
      wide16_single_resolver-answer level u a built.sound bytes ∙ built.answers a bytes

strided_lookup :
    (level : SimdLevel) (t : Trie) (a : Bytes)
    → t.use_ipv6_wide_stride ≡ true
    → lookup_ipv6_wide16 level t a ≡ wide16_single_resolver level t a
unfolding lookup_ipv6_wide16
strided_lookup level t a strided =
    ap (λ (b : Bool). if b then wide16_single_resolver level t a else invalid_next_hop) strided

-- Let prefixes be added to a new IPv6 trie with a 16-bit root so that none is shorter than one
-- before it, each accepted; let the allocator grant no request of 2^41 bytes or more. Then
-- `lpm_lookup_ipv6_wide16` of any address, in every variant, answers the next hop of the longest
-- prefix that covers it, of the latest such, and the invalid next hop if none does.
pub lookup-add_wide16_history :
    (al : Allocator) (t u : Trie) (h : List ByteRoute)
    → IsBounded al
    → create_ipv6_wide16 al ≡ some t
    → IsSorted (as_routes 16 h)
    → AllBytes h
    → add_history (add_ipv6_wide16 al) t h ≡ some u
    → (level : SimdLevel) (a : Bytes) → IsBytes a
    → lookup_ipv6_wide16 level u a ≡ hop_of (longest 128 (as_routes 16 h) (value 16 a))
lookup-add_wide16_history al t u h bounded created sorted fit accepted level a bytes =
    let built = wide_history-Built al t u h bounded created sorted fit accepted in
    strided_lookup level u a built.sound.strided
    ∙ single al t u h bounded created sorted fit accepted level a bytes

-- Let prefixes be added to a new IPv6 trie with a 16-bit root so that none is shorter than one
-- before it, each accepted; let the allocator grant no request of 2^41 bytes or more. Then the batch
-- lookup that the resolver picks for any level writes, for each of the first `count` addresses, the
-- next hop of the longest prefix that covers it, of the latest such, and the invalid next hop if none
-- does; the rest of the output array is left alone.
pub batch_resolver-add_wide16_history :
    (al : Allocator) (t u : Trie) (h : List ByteRoute)
    → IsBounded al
    → create_ipv6_wide16 al ≡ some t
    → IsSorted (as_routes 16 h)
    → AllBytes h
    → add_history (add_ipv6_wide16 al) t h ≡ some u
    → (level : SimdLevel) (addrs : ℕ → Bytes) (next_hops : Table) (count j : ℕ)
    → ((i : ℕ) → IsBytes (addrs i))
    → wide16_batch_resolver level u addrs next_hops count j
      ≡ batched (λ i. hop_of (longest 128 (as_routes 16 h) (value 16 (addrs i)))) count next_hops j
batch_resolver-add_wide16_history al t u h bounded created sorted fit accepted level addrs next_hops
      count j bytes =
    let built = wide_history-Built al t u h bounded created sorted fit accepted in
    batch_resolver_wide16-eq-lookup level u addrs next_hops count j built.sound.narrow
    ∙ ap (λ (answer : ℕ). if ltb j count then answer else next_hops j)
        (single al t u h bounded created sorted fit accepted level (addrs j) (bytes j))
