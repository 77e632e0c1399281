-- ===== src/Batch/Longest.antt =====
-- The batch lookup of src/4stride8/batch.c on a trie that a history of prefixes was added to.
use liblpm.Base.{ℕ, ◌≡◌, refl, ap, ◌∙◌, arith, ltb, if◌then◌else◌, some, List}
use liblpm.Trie.{Bytes, Table, Trie, Allocator}
use liblpm.Simd.{SimdLevel}
use liblpm.Rib.{longest}
use liblpm.Rib.Sorted.{IsSorted}
use liblpm.Prefix.Value.{value}
use liblpm.Dir24.Index.{IsBytes}
use liblpm.Dir24.Lpm.{hop_of}
use liblpm.Pool.Rest.{IsBounded}
use liblpm.Stride8.Create.{create_ipv4_8stride}
use liblpm.Stride8.Update.{add_ipv4_8stride}
use liblpm.History.{ByteRoute, Built, AllBytes, add_history, as_routes}
use liblpm.Stride8.Lpm.{kind8, history_ipv4-Built, lookup-add_ipv4_history}
use liblpm.Batch.{batched}
use liblpm.Batch.Variants.{ipv4_8stride_batch_resolver}
use liblpm.Batch.Agree.{batch_resolver_ipv4-eq-lookup}

-- Let prefixes be added to a new IPv4 trie of 8-bit strides so that none is shorter than one before
-- it, each accepted; let the allocator grant no request of 2^41 bytes or more. Then the batch lookup
-- that the resolver picks for any level writes, for each of the first `count` addresses, the next hop
-- of the longest prefix that covers it, of the latest such, and the invalid next hop if none does; the
-- rest of the output array is left alone.
pub batch_resolver-add_ipv4_history :
    (al : Allocator) (t u : Trie) (h : List ByteRoute)
    → IsBounded al
    → create_ipv4_8stride al ≡ some t
    → IsSorted (as_routes 4 h)
    → AllBytes h
    → add_history (add_ipv4_8stride al) t h ≡ some u
    → (level : SimdLevel) (addrs : ℕ → Bytes) (next_hops : Table) (count j : ℕ)
    → ((i : ℕ) → IsBytes (addrs i))
    → ipv4_8stride_batch_resolver level u addrs next_hops count j
      ≡ batched (λ i. hop_of (longest 32 (as_routes 4 h) (value 4 (addrs i)))) count next_hops j
batch_resolver-add_ipv4_history al t u h bounded created sorted fit e level addrs next_hops count j
      bytes =
    let built : Built (kind8 4) h u = history_ipv4-Built al t u h bounded created sorted fit e in
    batch_resolver_ipv4-eq-lookup level u addrs next_hops count j
      (ground (arith, built.sound.tree.rooted (addrs j) refl))
    ∙ ap (λ (answer : ℕ). if ltb j count then answer else next_hops j)
        (lookup-add_ipv4_history al t u h bounded created sorted fit e level (addrs j) (bytes j))
