-- ===== src/Batch/Stride8.antt =====
-- src/4stride8/batch.c: the scalar batch lookup, beside the lookup of one address.
use liblpm.Base.{
  ℕ, zero, suc, ◌+◌, ◌≡◌, refl, ap, sym, ltb, ◌∙◌, true, false, ◌==◌, if◌then◌else◌, Bool-cases,
  inl, inr,
}
use liblpm.Word.{invalid_next_hop}
use liblpm.Trie.{Bytes, Pool, Table, Trie}
use liblpm.Stride8.{child_of}
use liblpm.Stride8.Lookup.{pick, lookup_levels, or_default, lookup_ipv4_8stride_bytes}
use liblpm.Simd.{SimdLevel}
use liblpm.Stride8.Variants.{ipv4_8stride_lem}
use liblpm.Batch.{batch_loop, batched, batch_loop_lem}

-- The loop over the bytes of an address: it ends at a node index of 0.
unfoldable pub walk_levels : ℕ → ℕ → Pool → ℕ → ℕ → Bytes → ℕ
walk_levels zero d pool n r addr = r
walk_levels (suc left) d pool n r addr =
    let rest =
      walk_levels left (d + 1) pool (child_of (pool n (addr d))) (pick (pool n (addr d)) r) addr in
    if n == 0 then r else rest

-- `lpm_lookup_batch_ipv4_8stride_scalar`
unfoldable pub lookup_batch_ipv4_8stride_scalar : Trie → (ℕ → Bytes) → Table → ℕ → Table
lookup_batch_ipv4_8stride_scalar t addrs next_hops count =
    batch_loop
      (λ i. or_default t (walk_levels 4 0 t.node_pool t.root_idx invalid_next_hop (addrs i))) count
      0 next_hops

pub walk_step :
    (left d : ℕ) (pool : Pool) (n r : ℕ) (addr : Bytes)
    → (n == 0) ≡ false
    → walk_levels (suc left) d pool n r addr
      ≡ walk_levels left (d + 1) pool (child_of (pool n (addr d))) (pick (pool n (addr d)) r) addr
unfolding walk_levels
walk_step left d pool n r addr h = rw h refl

pub walk_stop :
    (left d : ℕ) (pool : Pool) (n r : ℕ) (addr : Bytes)
    → (n == 0) ≡ true
    → walk_levels left d pool n r addr ≡ r
unfolding walk_levels
walk_stop zero d pool n r addr h = refl
walk_stop (suc left) d pool n r addr h = rw h refl

-- The two walks test the node index at different places.
pub walk_levels_lem :
    (left d : ℕ) (pool : Pool) (n r : ℕ) (addr : Bytes)
    → (n == 0) ≡ false
    → walk_levels (suc left) d pool n r addr ≡ lookup_levels (suc left) d pool n r addr
unfolding lookup_levels
walk_levels_lem zero d pool n r addr h =
    walk_step zero d pool n r addr h ∙ (unfold walk_levels in refl)
walk_levels_lem (suc left) d pool n r addr h =
    walk_step (suc left) d pool n r addr h ∙ elim (Bool-cases (child_of (pool n (addr d)) == 0)) [
      | inl leaf ↦ rw leaf (walk_stop (suc left) (d + 1) pool _ _ addr leaf)
      | inr inner ↦ rw inner (walk_levels_lem left (d + 1) pool _ _ addr inner)
    ]

-- With a root that is not index 0, the scalar batch lookup writes the answer of the single lookup,
-- whichever variant the resolver picks, for each of the first `count` addresses, and leaves the rest
-- of the output array alone.
lookup_batch-eq-lookup :
    (level : SimdLevel) (t : Trie) (addrs : ℕ → Bytes) (next_hops : Table) (count j : ℕ)
    → (t.root_idx == 0) ≡ false
    → lookup_batch_ipv4_8stride_scalar t addrs next_hops count j
      ≡ batched (λ i. lookup_ipv4_8stride_bytes level t (addrs i)) count next_hops j
unfolding lookup_batch_ipv4_8stride_scalar
lookup_batch-eq-lookup level t addrs next_hops count j root =
    batch_loop_lem _ count next_hops j
    ∙ ap (λ (answer : ℕ). if ltb j count then answer else next_hops j) same
  where
    same :
        or_default t (walk_levels 4 0 t.node_pool t.root_idx invalid_next_hop (addrs j))
        ≡ lookup_ipv4_8stride_bytes level t (addrs j)
    same =
        ap (or_default t)
          (walk_levels_lem 3 0 t.node_pool t.root_idx invalid_next_hop (addrs j) root)
        ∙ sym (ipv4_8stride_lem level t (addrs j))
