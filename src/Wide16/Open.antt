-- ===== src/Wide16/Open.antt =====
-- The node under an entry of the wide root, as the add function of src/wide16/core.c finds or makes
-- it.
use liblpm.Base.{
  ℕ, ◌^◌, ◌<◌, ◌≡◌, refl, arith, ap, sym, ◌∙◌, true, false, ◌&&◌, ◌==◌, ltb, if◌then◌else◌, ◌⊎◌,
  Bool-cases, inl, inr, bit_or,
}
use liblpm.Word.{invalid_index}
use liblpm.Trie.{Bytes, Entry, Trie, Allocator}
use liblpm.Pool.{node_alloc}
use liblpm.Pool.Rest.{IsBounded, Allocated, NoRoom, node_alloc-Allocated}
use liblpm.Prefix.{agree_bytes}
use liblpm.Dir24.Index.{IsBytes}
use liblpm.Stride8.{child_of}
use liblpm.Stride8.Entries.{IsEntry, is_valid, linked_lem}
use liblpm.Stride8.Tree.{node_on-base, route_in}
use liblpm.Stride8.Link.{link}
use liblpm.Stride8.Open.{set_entry_lem}
use liblpm.Stride8.Valid.{IsForest-IsPool, node_under}
use liblpm.Wide16.{wide_index, set_wide_entry, next_node_alloc, link_flags, open_wide_child}
use liblpm.Wide16.Entries.{is_wide, link-narrow, wide_index_lem}
use liblpm.Wide16.Valid.{wide_head, IsWide, wide_route}
use liblpm.Wide16.Hook.{Hooked, hooked-IsTree, route_on-hooked, node_on-first}

-- The prefix has a node at level 2, and no route has changed.
pub record Entered (t : Trie) (p : Bytes) (out : ℕ × Trie) : Type 0 where
  pub present : 0 < out.0
  pub next : node_under (wide_head out.1) out.1 p 2 ≡ out.0
  pub wide : IsWide out.1
  pub default : out.1.has_default_route ≡ t.has_default_route
  pub hop : out.1.default_next_hop ≡ t.default_next_hop
  pub routes : (a : Bytes) (k : ℕ) → wide_route out.1 a k ≡ wide_route t a k

module _ (t : Trie) (p : Bytes) (wide : IsWide t) (bytes : IsBytes p) where
  abbrev index : ℕ
  index = wide_index p 0

  abbrev old : ℕ → Entry
  old = t.wide_nodes_pool t.root_idx

  -- Where the paths of the prefix start.
  pub enter_lem : (wide_head t).enter p ≡ child_of (old index)
  enter_lem = ground (arith, bytes 0, bytes 1)

  abbrev with_child : ℕ × Trie → Trie
  with_child (c, u) =
      set_wide_entry u t.root_idx index (record (u.wide_nodes_pool t.root_idx index) {
        child_and_valid = bit_or (link_flags 0 (old index).child_and_valid) c;
      })

  module _ (out : ℕ × Trie) (allocated : Allocated t out) (free : child_of (old index) ≡ 0) where
    abbrev after : Trie
    after = with_child out

    small : out.0 < 2 ^ 30
    small = omega (arith, allocated.node.within, allocated.small)

    entry_lem :
        (i : ℕ)
        → after.wide_nodes_pool after.root_idx i
          ≡ (if i == index then link out.0 (old i) else old i)
    unfolding link_flags
    entry_lem i =
        set_entry_lem out.1.wide_nodes_pool t.root_idx index out.1.root_idx i _
        ∙ rw (allocated.rest.wide_nodes, allocated.rest.root) (by_index (Bool-cases (i == index)))
      where
        by_index :
            ((i == index) ≡ true) ⊎ ((i == index) ≡ false)
            → (if t.root_idx == t.root_idx && i == index then link out.0 (old index) else old i)
              ≡ (if i == index then link out.0 (old i) else old i)
        by_index (inl e) = let same : i ≡ index = ground arith in rw same (ground arith)
        by_index (inr e) = rw e (ground arith)

    with_child-IsEntry :
        (i : ℕ)
        → IsEntry
            (after.wide_nodes_pool after.root_idx i)
            (if i == index then out.0 else child_of (old i))
            (is_valid (old i))
    with_child-IsEntry i = elim (Bool-cases (i == index)) [
      | inl e ↦ rw (entry_lem i, e) (linked_lem (old i) out.0 (wide.words i) small)
      | inr e ↦
          rw (entry_lem i, e) (record { word_sized = wide.words i; child = refl; valid = refl })
    ]

    same_hop : (i : ℕ) → (after.wide_nodes_pool after.root_idx i).next_hop ≡ (old i).next_hop
    same_hop i = elim (Bool-cases (i == index)) [
      | inl e ↦ rw (entry_lem i, e) refl
      | inr e ↦ rw (entry_lem i, e) refl
    ]

    route_kept : (i : ℕ) → route_in (after.wide_nodes_pool after.root_idx i) ≡ route_in (old i)
    unfolding route_in
    route_kept i = rw ((with_child-IsEntry i).valid, same_hop i) refl

    narrow_kept : (i : ℕ) → is_wide (after.wide_nodes_pool after.root_idx i) ≡ false
    narrow_kept i = elim (Bool-cases (i == index)) [
      | inl e ↦ rw (entry_lem i, e) (link-narrow out.0 (old i) (wide.words i) small)
      | inr e ↦ rw (entry_lem i, e) (wide.narrow i)
    ]

    starts_new :
        (a : Bytes)
        → (wide_head after).enter a
          ≡ (if agree_bytes 2 p a then t.pool_used else (wide_head t).enter a)
    unfolding agree_bytes
    starts_new a = elim (Bool-cases (ltb (a 0) 256 && ltb (a 1) 256)) [
      | inl e ↦
          let at_a = wide_index_lem a (ground arith) in
          let at_p = wide_index_lem p (bytes 1) in
          let child = (with_child-IsEntry (wide_index a 0)).child in
          rw (e, child) (ground (arith, at_a, at_p, allocated.node.index, bytes 0, bytes 1))
      | inr e ↦ rw e (ground (arith, bytes 0, bytes 1))
    ]

    after-Hooked :
        Hooked t.node_pool after.node_pool (wide_head t) t.pool_used p (wide_head after).enter
    after-Hooked = record {
      cleared = λ j.
          ap (λ (m : ℕ). out.1.node_pool m j) (sym allocated.node.index) ∙ allocated.node.cleared j;
      entries = λ m j live. ap (λ (node : ℕ → Entry). node j) (allocated.node.kept m live);
      starts = starts_new;
    }

    with_child-Entered : Entered t p (out.0, after)
    with_child-Entered = record {
      present = omega (arith, allocated.node.index, wide.forest.tree.live p 0);
      next =
          node_on-first t.node_pool after.node_pool (wide_head t) t.pool_used p
            (wide_head after).enter wide.forest.tree nothing after-Hooked
          ∙ sym allocated.node.index;
      wide = record {
        forest = record {
          tree = rw allocated.node.counted (
              hooked-IsTree t.node_pool after.node_pool (wide_head t) t.pool_used p
                (wide_head after).enter wide.forest.tree nothing after-Hooked);
          no_dir24 = allocated.rest.dir24 ∙ wide.forest.no_dir24;
          in_array =
              omega (arith, allocated.node.within, allocated.node.index, allocated.node.counted);
          small = allocated.small;
        };
        words = λ i. (with_child-IsEntry i).word_sized;
        narrow = narrow_kept;
        strided = allocated.rest.wide_stride ∙ wide.strided;
        present = allocated.rest.wide_present ∙ wide.present;
        depth = allocated.rest.depth ∙ wide.depth;
      };
      default = allocated.rest.default;
      hop = allocated.rest.hop;
      routes = routes;
    }
      where
        nothing : (wide_head t).enter p ≡ 0
        nothing = enter_lem ∙ free

        routes : (a : Bytes) (k : ℕ) → wide_route after a k ≡ wide_route t a k
        routes a k = elim (Bool-cases (k == 1)) [
          | inl e ↦ rw e (route_kept (wide_index a 0))
          | inr e ↦ rw e (
              route_on-hooked t.node_pool after.node_pool (wide_head t) t.pool_used p
                (wide_head after).enter wide.forest.tree nothing after-Hooked a k)
        ]

  -- The node at level 2 is there or is made; if it cannot be made, nothing has changed.
  pub open_wide_child-Entered :
      (al : Allocator)
      → IsBounded al
      → Entered t p (open_wide_child al 0 t.root_idx index t)
        ⊎ ((open_wide_child al 0 t.root_idx index t ≡ (invalid_index, t)) × NoRoom al t)
  unfolding open_wide_child next_node_alloc
  open_wide_child-Entered al bounded = elim (Bool-cases (child_of (old index) == invalid_index)) [
    | inr there ↦ rw there (
        inl (record {
          present = ground arith;
          next = node_on-base t.node_pool (wide_head t) p 2 refl ∙ enter_lem;
          wide = wide;
          default = refl;
          hop = refl;
          routes = λ a k. refl;
        }))
    | inl free ↦
        rw free
          (elim (node_alloc-Allocated al t bounded (IsForest-IsPool wide.forest)
            wide.forest.small) [
              | inl allocated ↦
                  let entered = with_child-Entered (node_alloc al t) allocated (ground arith) in
                  let made : ((node_alloc al t).0 == invalid_index) ≡ false =
                    ground (arith, entered.present) in
                  rw made (inl entered)
              | inr (unchanged, refused) ↦ inr (
                ap
                    (λ (out : ℕ × Trie).
                      if out.0 == invalid_index then (out.0, out.1) else (out.0, with_child out))
                    unchanged,
                refused,
              )
            ])
  ]
