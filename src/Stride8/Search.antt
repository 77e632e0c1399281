-- ===== src/Stride8/Search.antt =====
-- The lookups of src/4stride8/single.c and src/6stride8/single.c by the routes of the trie.
use liblpm.Base.{
  ℕ, zero, suc, ◌+◌, ◌≤◌, ◌<◌, ◌≡◌, refl, arith, ap, sym, ◌∙◌, Bool, ◌&&◌, ◌==◌, if◌then◌else◌,
  Option, none, some, Bool-cases, inl, inr,
}
use liblpm.Word.{invalid_next_hop}
use liblpm.Trie.{Bytes, Pool, Trie}
use liblpm.Simd.{SimdLevel}
use liblpm.Dir24.Answer.{or_invalid}
use liblpm.Stride8.{child_of}
use liblpm.Stride8.Lookup.{
  pick, lookup_levels, or_default, lookup_ipv4_8stride_bytes, ipv6_8stride_single_resolver,
}
use liblpm.Stride8.Variants.{ipv4_8stride_lem, ipv6_8stride_lem}
use liblpm.Stride8.Tree.{
  Head, plain, node_on-step, base-le, step, node_on, route_in, route_at, route_on, node_on-ended,
}
use liblpm.Stride8.Valid.{IsTrie, route_of}

abbrev pub or_else : Option ℕ → Option ℕ → Option ℕ
or_else none r = r
or_else (some nh) r = some nh

-- The route at the deepest of the levels below `k`.
unfoldable pub deepest : (ℕ → Option ℕ) → ℕ → Option ℕ
deepest routes zero = none
deepest routes (suc k) = or_else (routes k) (deepest routes k)

module _ (pool : Pool) (head : Head) (a : Bytes) where
  abbrev found : ℕ → Option ℕ
  found = deepest (route_on pool head a)

  ended-none : (k : ℕ) → node_on pool head a k ≡ 0 → route_on pool head a k ≡ none
  unfolding route_at
  ended-none k e = rw e refl

  found_step : (k : ℕ) → found (suc k) ≡ or_else (route_on pool head a k) (found k)
  unfolding deepest
  found_step k = refl

  found-ended : (j k : ℕ) → head.base ≤ k → node_on pool head a k ≡ 0 → found (j + k) ≡ found k
  found-ended zero k h e = let same : 0 + k ≡ k = omega arith in rw same refl
  found-ended (suc j) k h e =
      let same : suc j + k ≡ suc (j + k) = omega arith in
      rw (same, found_step (j + k), ended-none (j + k) (node_on-ended pool head a k j h e))
        (found-ended j k h e)

  -- One level: the entry's route, if it has one, else the one found before.
  pick-found :
      (k d : ℕ)
      → d ≡ k
      → 0 < node_on pool head a k
      → pick (pool (node_on pool head a k) (a d)) (or_invalid (found k))
        ≡ or_invalid (found (suc k))
  unfolding deepest route_at route_in or_invalid
  pick-found k d e pos = rw e (ground arith)

  lookup_levels-found :
      (left k d n : ℕ)
      → d ≡ k
      → n ≡ node_on pool head a k
      → 0 < n
      → lookup_levels (suc left) d pool n (or_invalid (found k)) a
        ≡ or_invalid (found (suc left + k))
  unfolding lookup_levels step
  lookup_levels-found zero k d n e f pos =
      let one : 1 + k ≡ suc k = omega arith in rw (f, one) (pick-found k d e (omega arith))
  lookup_levels-found (suc left) k d n e f pos =
      let sum : suc (suc left) + k ≡ suc left + suc k = omega arith in
      let here = pick-found k d e (omega arith) in
      let starts : head.base ≤ k = base-le pool head a k (omega arith) in
      let below : node_on pool head a (suc k) ≡ step pool (node_on pool head a k) (a k) =
        node_on-step pool head a k starts in
      elim (Bool-cases (child_of (pool n (a d)) == 0)) [
        | inl leaf ↦
            let stop : node_on pool head a (suc k) ≡ 0 = below ∙ ground (arith, ap a e) in
            rw (leaf, f, sum, found-ended (suc left) (suc k) (omega (arith, starts)) stop) here
        | inr inner ↦
            let m : ℕ = node_on pool head a k in
            let next : child_of (pool m (a d)) ≡ node_on pool head a (suc k) =
              sym (below ∙ ground (arith, ap a e)) in
            rw (inner, f, sum, here)
              (lookup_levels-found left (suc k) (d + 1) (child_of (pool m (a d))) (omega arith) next
                (ground (arith, f)))
      ]

-- What the lookup of an address answers, by its routes: the one at the deepest level, else the
-- default route.
abbrev pub answer8 : ℕ → Trie → Bytes → ℕ
answer8 levels t a = or_default t (or_invalid (deepest (route_of t a) levels))

unrolled-found :
    (levels : ℕ) (t : Trie) (a : Bytes)
    → IsTrie t
    → or_default t (lookup_levels (suc levels) 0 t.node_pool t.root_idx invalid_next_hop a)
      ≡ answer8 (suc levels) t a
unfolding or_invalid deepest
unrolled-found levels t a trie =
    let sum : suc levels + 0 ≡ suc levels = omega arith in
    ap (or_default t) (
      rw sum at (
        lookup_levels-found t.node_pool (plain t.root_idx) a levels 0 0 t.root_idx refl
          (unfold node_on in refl) (trie.tree.rooted a refl)))

pub lookup_ipv4_8stride-answer :
    (level : SimdLevel) (t : Trie) (a : Bytes)
    → IsTrie t
    → lookup_ipv4_8stride_bytes level t a ≡ answer8 4 t a
lookup_ipv4_8stride-answer level t a trie = ipv4_8stride_lem level t a ∙ unrolled-found 3 t a trie

pub lookup_ipv6_8stride-answer :
    (level : SimdLevel) (t : Trie) (a : Bytes)
    → IsTrie t
    → ipv6_8stride_single_resolver level t a ≡ answer8 16 t a
lookup_ipv6_8stride-answer level t a trie = ipv6_8stride_lem level t a ∙ unrolled-found 15 t a trie

deepest-same :
    (f g : ℕ → Option ℕ) (levels : ℕ)
    → ((k : ℕ) → k < levels → f k ≡ g k)
    → deepest f levels ≡ deepest g levels
unfolding deepest
deepest-same f g zero same = refl
deepest-same f g (suc k) same =
    rw (same k (omega arith), deepest-same f g k (λ j h. same j (omega arith))) refl

pub deepest-none :
    (f : ℕ → Option ℕ) (levels : ℕ) → ((k : ℕ) → f k ≡ none) → deepest f levels ≡ none
unfolding deepest
deepest-none f zero all = refl
deepest-none f (suc k) all = rw (all k) (deepest-none f k all)

-- A route that is stored where none is deeper comes to the front.
pub deepest-stored :
    (routes after : ℕ → Option ℕ) (d levels nh : ℕ) (matches : Bool)
    → ((k : ℕ) → after k ≡ (if k == d && matches then some nh else routes k))
    → ((k : ℕ) → d < k → routes k ≡ none)
    → d < levels
    → deepest after levels ≡ (if matches then some nh else deepest routes levels)
unfolding deepest
deepest-stored routes after d zero nh matches stored top inside = absurd (omega arith)
deepest-stored routes after d (suc k) nh matches stored top inside = elim (Bool-cases (k == d)) [
  | inl e ↦
      let below : deepest after k ≡ deepest routes k =
        deepest-same after routes k (λ j h. stored j ∙ ground arith) in
      rw (stored k, e, below) (ground arith)
  | inr e ↦
      rw (stored k, e, top k (ground arith))
        (deepest-stored routes after d k nh matches stored top (ground arith))
]
