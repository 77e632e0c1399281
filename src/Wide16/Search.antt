-- ===== src/Wide16/Search.antt =====
-- The lookup of src/wide16/single.c by the routes of the trie.
use liblpm.Base.{
  ℕ, zero, suc, ◌+◌, ◌-◌, ◌≤◌, ◌≡◌, refl, arith, ap, sym, ◌∙◌, false, ◌==◌, Option, none,
  Bool-cases, inl, inr,
}
use liblpm.Trie.{Bytes, Entry, Trie}
use liblpm.Simd.{SimdLevel}
use liblpm.Dir24.Index.{IsBytes}
use liblpm.Stride8.{child_of}
use liblpm.Stride8.Entries.{is_valid}
use liblpm.Stride8.Lookup.{pick}
use liblpm.Stride8.Search.{or_else, deepest}
use liblpm.Stride8.Tree.{
  node_on, node_on-step, node_on-base, node_on-ended, step, route_in, route_at,
}
use liblpm.Stride8.Valid.{node_under}
use liblpm.History.{answer_of}
use liblpm.Wide16.{wide_index}
use liblpm.Wide16.Lookup.{
  lookup_bytes, lookup_wide_levels, lookup_wide16_internal, wide16_single_resolver,
}
use liblpm.Wide16.Variants.{wide16_lem}
use liblpm.Wide16.Valid.{IsWide, wide_head, wide_entry, wide_route, wide_answer, wide_kind}

-- Routes that are not there do not tell.
deepest-extend :
    (routes : ℕ → Option ℕ) (j k : ℕ)
    → ((i : ℕ) → k ≤ i → routes i ≡ none)
    → deepest routes (j + k) ≡ deepest routes k
unfolding deepest
deepest-extend routes zero k none_more = let same : 0 + k ≡ k = omega arith in rw same refl
deepest-extend routes (suc j) k none_more =
    let same : suc j + k ≡ suc (j + k) = omega arith in
    rw (same, none_more (j + k) (omega arith)) (deepest-extend routes j k none_more)

pick_lem :
    (t : Trie) (e : Entry) (r : Option ℕ)
    → pick e (wide_answer t r) ≡ wide_answer t (or_else (route_in e) r)
unfolding route_in
pick_lem t e r = elim (Bool-cases (is_valid e)) [ inl v ↦ rw v refl | inr v ↦ rw v refl ]

module _ (t : Trie) (a : Bytes) where
  abbrev found : ℕ → Option ℕ
  found = deepest (wide_route t a)

  abbrev node : ℕ → ℕ
  node = node_under (wide_head t) t a

  found_step : (k : ℕ) → found (suc k) ≡ or_else (wide_route t a k) (found k)
  unfolding deepest
  found_step k = refl

  found-ended : (j k : ℕ) → 2 ≤ k → node k ≡ 0 → found (j + k) ≡ found k
  found-ended j k deep ended = deepest-extend (wide_route t a) j k (λ i more. no_route i more)
    where
      no_route : (i : ℕ) → k ≤ i → wide_route t a i ≡ none
      no_route i more =
          let other : (i == 1) ≡ false = ground arith in
          let level : i - k + k ≡ i = omega arith in
          let stop : node i ≡ 0 =
            rw level at (node_on-ended t.node_pool (wide_head t) a k (i - k) deep ended) in
          rw (other, stop) (unfold route_at in refl)

  -- One level below the wide root.
  pick-found :
      (k : ℕ)
      → 2 ≤ k
      → (node k == 0) ≡ false
      → pick (t.node_pool (node k) (a k)) (wide_answer t (found k)) ≡ wide_answer t (found (suc k))
  unfolding route_at
  pick-found k deep inner =
      let other : (k == 1) ≡ false = ground arith in
      rw (found_step k, other, inner) (pick_lem t (t.node_pool (node k) (a k)) (found k))

  lookup_bytes-found :
      (left k n : ℕ)
      → 2 ≤ k
      → n ≡ node k
      → lookup_bytes left k t.node_pool n (wide_answer t (found k)) a
        ≡ wide_answer t (found (left + k))
  unfolding lookup_bytes step
  lookup_bytes-found zero k n deep e = let same : 0 + k ≡ k = omega arith in rw same refl
  lookup_bytes-found (suc left) k n deep e = elim (Bool-cases (node k == 0)) [
    | inl out ↦ rw (e, out, found-ended (suc left) k deep (ground arith)) refl
    | inr inner ↦
        let sum : suc left + k ≡ left + suc k = omega arith in
        let next : ℕ = child_of (t.node_pool (node k) (a k)) in
        let below : node (suc k) ≡ next =
          node_on-step t.node_pool (wide_head t) a k deep ∙ rw inner refl in
        elim (Bool-cases (next == 0)) [
          | inl leaf ↦
              let stop : node (suc k) ≡ 0 = ground (arith, below) in
              rw (e, inner, leaf, sum, found-ended left (suc k) (omega arith) stop)
                (pick-found k deep inner)
          | inr goes ↦
              let one : k + 1 ≡ suc k = omega arith in
              rw (e, inner, goes, sum, pick-found k deep inner, one)
                (lookup_bytes-found left (suc k) next (omega arith) (sym below))
        ]
  ]

  -- The wide root is at level 1, the first with routes.
  found_root : found 2 ≡ or_else (route_in (wide_entry t a)) none
  unfolding deepest route_at node_on
  found_root = refl

  lookup_wide16_internal-answer :
      IsWide t → IsBytes a → lookup_wide16_internal t a ≡ answer_of wide_kind t a
  unfolding lookup_wide16_internal lookup_wide_levels
  lookup_wide16_internal-answer wide bytes = elim (Bool-cases (child_of (wide_entry t a) == 0)) [
    | inl leaf ↦
        let stop : node 2 ≡ 0 = ground (arith, start) in
        rw (leaf, wide.narrow (wide_index a 0))
          (rw at_root (ap (wide_answer t) (sym (found-ended 14 2 (omega arith) stop))))
    | inr goes ↦
        rw goes (
          rw at_root
            (lookup_bytes-found 14 2 (child_of (wide_entry t a)) (omega arith) (sym start)))
  ]
    where
      start : node 2 ≡ child_of (wide_entry t a)
      start = node_on-base t.node_pool (wide_head t) a 2 refl ∙ ground (arith, bytes 0, bytes 1)

      at_root : pick (wide_entry t a) (wide_answer t none) ≡ wide_answer t (found 2)
      at_root = pick_lem t (wide_entry t a) none ∙ ap (wide_answer t) (sym found_root)

-- The lookup in every variant answers the route at the deepest of the levels, else the default route.
pub wide16_single_resolver-answer :
    (level : SimdLevel) (t : Trie) (a : Bytes)
    → IsWide t
    → IsBytes a
    → wide16_single_resolver level t a ≡ answer_of wide_kind t a
wide16_single_resolver-answer level t a wide bytes =
    wide16_lem level t a ∙ lookup_wide16_internal-answer t a wide bytes
