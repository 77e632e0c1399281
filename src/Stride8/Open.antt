-- ===== src/Stride8/Open.antt =====
-- `node_alloc` and the link to the new node, as the add functions of src/4stride8/core.c and
-- src/6stride8/core.c use them.
use liblpm.Base.{
  ℕ, suc, ◌^◌, ◌<◌, ◌≡◌, refl, arith, ap, sym, ◌∙◌, false, ◌&&◌, ◌==◌, if◌then◌else◌, ◌⊎◌,
  Bool-cases, inl, inr,
}
use liblpm.Word.{invalid_index}
use liblpm.Trie.{Bytes, Entry, Pool, Trie, Allocator, write}
use liblpm.Pool.{node_alloc}
use liblpm.Pool.Rest.{
  SameRest, SameRest-other, SameRest-trans, IsBounded, Allocated, NoRoom, node_alloc-Allocated,
}
use liblpm.Stride8.{child_of, open_child, set_entry}
use liblpm.Stride8.Tree.{Head, step, node_on-step, base-le}
use liblpm.Stride8.Link.{link, Linked, route_on-linked, linked-IsTree, node_on-new}
use liblpm.Stride8.Valid.{IsForest, node_under, route_under, IsForest-IsPool}

-- The prefix has a node at the next level, and no route has changed.
pub record Opened (head : Head) (t : Trie) (p : Bytes) (d : ℕ) (out : ℕ × Trie) : Type 0 where
  pub present : 0 < out.0
  pub next : node_under head out.1 p (suc d) ≡ out.0
  pub trie : IsForest head out.1
  pub rest : SameRest t out.1
  pub routes : (a : Bytes) (k : ℕ) → route_under head out.1 a k ≡ route_under head t a k

pub set_entry_lem :
    (pool : Pool) (n i m j : ℕ) (e : Entry)
    → write pool n (write (pool n) i e) m j ≡ (if m == n && j == i then e else pool m j)
unfolding write
set_entry_lem pool n i m j e = elim (Bool-cases (m == n)) [
  | inl x ↦ let same : m ≡ n = ground arith in rw (x, same) refl
  | inr x ↦ rw x refl
]

module _ (head : Head) (t : Trie) (trie : IsForest head t) (p : Bytes) (d : ℕ)
    (inner : 0 < node_under head t p d)
    (free : child_of (t.node_pool (node_under head t p d) (p d)) ≡ 0) where
  abbrev n : ℕ
  n = node_under head t p d

  abbrev with_link : ℕ × Trie → Trie
  with_link (c, u) = set_entry u n (p d) (link c (u.node_pool n (p d)))

  module _ (out : ℕ × Trie) (allocated : Allocated t out) where
    old : (m j : ℕ) → m < t.pool_used → out.1.node_pool m j ≡ t.node_pool m j
    old m j live = ap (λ (node : ℕ → Entry). node j) (allocated.node.kept m live)

    with_link-Linked : Linked t.node_pool (with_link out).node_pool t.pool_used n (p d)
    with_link-Linked = record {
      cleared = λ j.
          set_entry_lem out.1.node_pool n (p d) t.pool_used j _
          ∙ ground (
            arith,
            trie.tree.live p d,
            ap (λ (m : ℕ). out.1.node_pool m j) allocated.node.index,
            allocated.node.cleared j,
          );
      entries = λ m j live. set_entry_lem out.1.node_pool n (p d) m j _ ∙ linked_as m j live;
    }
      where
        linked_as :
            (m j : ℕ)
            → m < t.pool_used
            → (if m == n && j == p d
                then link out.0 (out.1.node_pool n (p d))
                else out.1.node_pool m j)
              ≡ (if m == n && j == p d then link t.pool_used (t.node_pool m j) else t.node_pool m j)
        linked_as m j live = elim (Bool-cases (m == n && j == p d)) [
          | inl e ↦
              let at_m : m ≡ n = ground arith in
              let at_j : j ≡ p d = ground arith in
              rw (at_m, at_j, old n (p d) (trie.tree.live p d), allocated.node.index) refl
          | inr e ↦ rw e (old m j live)
        ]

    with_link-Opened : Opened head t p d (out.0, with_link out)
    with_link-Opened = record {
      present = omega (arith, allocated.node.index, trie.tree.live p d);
      next =
          (node_on-new t.node_pool (with_link out).node_pool head t.pool_used d p trie.tree inner
              free fits with_link-Linked
            ∙ sym allocated.node.index);
      trie = record {
        tree = rw allocated.node.counted (
            linked-IsTree t.node_pool (with_link out).node_pool head t.pool_used d p trie.tree inner
              free fits with_link-Linked);
        no_dir24 = allocated.rest.dir24 ∙ trie.no_dir24;
        in_array =
            omega (arith, allocated.node.within, allocated.node.index, allocated.node.counted);
        small = allocated.small;
      };
      rest = SameRest-trans allocated.rest (SameRest-other out.1 _ _ _ _ _ _ _);
      routes = λ a k.
          (route_on-linked t.node_pool (with_link out).node_pool head t.pool_used d p trie.tree
            inner free fits with_link-Linked a k);
    }
      where
        fits : t.pool_used < 2 ^ 30
        fits = omega (arith, allocated.node.within, allocated.node.index, allocated.small)

-- The next node of a prefix is there or is made; if it cannot be made, it is missing, there is no
-- room for it, and nothing has changed.
pub open_child-Opened :
    (head : Head) (al : Allocator) (t : Trie) (p : Bytes) (d : ℕ)
    → IsBounded al
    → IsForest head t
    → 0 < node_under head t p d
    → Opened head t p d (open_child al (node_under head t p d) (p d) t)
      ⊎ ((open_child al (node_under head t p d) (p d) t ≡ (invalid_index, t))
          × (node_under head t p (suc d) ≡ 0)
          × NoRoom al t)
unfolding open_child
open_child-Opened head al t p d bounded trie inner =
    elim (Bool-cases (child_of (t.node_pool (node_under head t p d) (p d)) == invalid_index)) [
      | inr there ↦ rw there (
          inl (record {
            present = ground arith;
            next =
                unfold step in
                node_on-step t.node_pool head p d (base-le t.node_pool head p d inner)
                ∙ ground arith;
            trie = trie;
            rest = SameRest-other t _ _ _ _ _ _ _;
            routes = λ a k. refl;
          }))
      | inl free ↦
          rw free (elim (node_alloc-Allocated al t bounded (IsForest-IsPool trie) trie.small) [
            | inl allocated ↦
                let opened =
                  with_link-Opened head t trie p d inner (ground arith) (node_alloc al t)
                    allocated in
                let made : ((node_alloc al t).0 == invalid_index) ≡ false =
                  ground (arith, opened.present) in
                rw made (inl opened)
            | inr (unchanged, refused) ↦ inr (
              ap
                  (λ (out : ℕ × Trie). if out.0 == invalid_index then (out.0, out.1) else (
                    out.0,
                    set_entry out.1 (node_under head t p d) (p d)
                        (link out.0 (out.1.node_pool (node_under head t p d) (p d))),
                  ))
                  unchanged,
              unfold step in
                  node_on-step t.node_pool head p d (base-le t.node_pool head p d inner)
                  ∙ ground arith,
              refused,
            )
          ])
    ]
