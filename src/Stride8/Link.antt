-- ===== src/Stride8/Link.antt =====
-- Linking a new empty node below an entry with no child: what that does to the tree of a pool.
use liblpm.Base.{
  ℕ, zero, suc, ◌+◌, ◌^◌, ◌≤◌, ◌<◌, ◌≡◌, refl, arith, ap, sym, ◌∙◌, Bool, true, false, ◌&&◌, ◌==◌,
  if◌then◌else◌, none, Bool-cases, inl, inr, bit_or, bit_and,
}
use liblpm.Word.{valid_flag}
use liblpm.Trie.{Bytes, Entry, Pool}
use liblpm.Pool.{empty_entry}
use liblpm.Prefix.{
  agree_bytes, agree_bytes_refl, agree_bytes_symm, agree_bytes_trans, agree_bytes_step,
}
use liblpm.Stride8.{child_of}
use liblpm.Stride8.Entries.{is_valid, IsWord, IsEntry, linked_lem, empty_entry_lem}
use liblpm.Stride8.Tree.{
  Head, step, node_on, node_on-step, base-le, route_in, route_at, route_on, IsTree, node_on-agree,
  node_on-stop,
}

-- The entry with the child `c`, its route kept.
abbrev pub link : ℕ → Entry → Entry
link c e = record e { child_and_valid = bit_or (bit_and e.child_and_valid valid_flag) c }

-- The node `used` is new and hangs below the byte `i` of `n`.
pub record Linked (pool after : Pool) (used n i : ℕ) : Type 0 where
  pub cleared : (j : ℕ) → after used j ≡ empty_entry
  pub entries :
      (m j : ℕ)
      → m < used
      → after m j ≡ (if m == n && j == i then link used (pool m j) else pool m j)

module _ (pool after : Pool) (head : Head) (used d : ℕ) (p : Bytes) (tree : IsTree pool head used)
    (inner : 0 < node_on pool head p d) (free : child_of (pool (node_on pool head p d) (p d)) ≡ 0)
    (small : used < 2 ^ 30) (linked : Linked pool after used (node_on pool head p d) (p d)) where
  abbrev n : ℕ
  n = node_on pool head p d

  -- The address goes through the new link.
  abbrev below : Bytes → ℕ → Bool
  below a k = k == suc d && agree_bytes (suc d) p a

  linked-IsEntry :
      (m j : ℕ)
      → m < used
      → IsEntry
          (after m j)
          (if m == n && j == p d then used else child_of (pool m j))
          (is_valid (pool m j))
  linked-IsEntry m j live = elim (Bool-cases (m == n && j == p d)) [
    | inl e ↦
        rw (linked.entries m j live, e) (linked_lem (pool m j) used (tree.words m j live) small)
    | inr e ↦
        rw (linked.entries m j live, e)
          (record { word_sized = tree.words m j live; child = refl; valid = refl })
  ]

  -- Nothing is below the link yet.
  starts : head.base ≤ d
  starts = base-le pool head p d inner

  none_below : node_on pool head p (suc d) ≡ 0
  unfolding step
  none_below = ground (arith, free, node_on-step pool head p d starts)

  beyond : (a : Bytes) → agree_bytes (suc d) p a ≡ true → node_on pool head a (suc d) ≡ 0
  beyond a e = sym (node_on-agree pool head p a (suc d) tree.respects e) ∙ none_below

  passes : (a : Bytes) (k : ℕ) → (node_on pool head a k == n && a k == p d) ≡ below a (suc k)
  passes a k = elim (Bool-cases (node_on pool head a k == n && a k == p d)) [
    | inl e ↦
        let same : node_on pool head p d ≡ node_on pool head a k = ground arith in
        let found = tree.unique p a d k inner same in
        ground (arith, found.0, found.1, agree_bytes_step d p a)
    | inr e ↦ elim (Bool-cases (below a (suc k))) [
      | inl f ↦
          let level : k ≡ d = ground arith in
          let both : (agree_bytes d p a ≡ true) × (p d ≡ a d) =
            ground (arith, agree_bytes_step d p a) in
          let same : node_on pool head a k ≡ n =
            ap (node_on pool head a) level
            ∙ sym (node_on-agree pool head p a d tree.respects both.0) in
          let byte : a k ≡ a d = ap a level in ground (arith, same, byte, both.1)
      | inr f ↦ rw (e, f) refl
    ]
  ]

  below-end : (a : Bytes) (k : ℕ) → below a k ≡ true → node_on pool head a (suc k) ≡ 0
  below-end a k e =
      let level : k ≡ suc d = ground arith in
      let agree : agree_bytes (suc d) p a ≡ true = ground arith in
      node_on-stop pool head a k (omega (arith, starts))
        (ap (node_on pool head a) level ∙ beyond a agree)

  empty_child : (j : ℕ) → step after used j ≡ 0
  unfolding step
  empty_child j = ground (arith, ap child_of (linked.cleared j), empty_entry_lem.child)

  step-linked :
      (m j : ℕ) → m < used → step after m j ≡ (if m == n && j == p d then used else step pool m j)
  unfolding step
  step-linked m j live = ground (arith, (linked-IsEntry m j live).child)

  pub node_on-linked :
      (a : Bytes) (k : ℕ)
      → node_on after head a k ≡ (if below a k then used else node_on pool head a k)
  unfolding node_on
  node_on-linked a zero = ground arith
  node_on-linked a (suc k) = elim (Bool-cases (head.base == suc k)) [
    | inl here ↦
        let above : below a (suc k) ≡ false = ground (arith, starts) in rw (here, above) refl
    | inr later ↦ elim (Bool-cases (below a k)) [
      | inl e ↦
          let past : below a (suc k) ≡ false = ground arith in
          let level : k ≡ suc d = ground arith in
          rw (later, node_on-linked a k, e, past)
            (empty_child (a k)
              ∙ sym (sym (node_on-step pool head a k (omega (arith, starts))) ∙ below-end a k e))
      | inr e ↦
          rw
            (
              later,
              node_on-linked a k,
              e,
              step-linked (node_on pool head a k) (a k) (tree.live a k),
              passes a k,
            )
            refl
    ]
  ]

  same_hop : (m j : ℕ) → m < used → (after m j).next_hop ≡ (pool m j).next_hop
  same_hop m j live = elim (Bool-cases (m == n && j == p d)) [
    | inl e ↦ rw (linked.entries m j live, e) refl
    | inr e ↦ rw (linked.entries m j live, e) refl
  ]

  route_at-linked : (m j : ℕ) → m < used → route_at after m j ≡ route_at pool m j
  unfolding route_at route_in
  route_at-linked m j live = rw ((linked-IsEntry m j live).valid, same_hop m j live) refl

  empty_route : (j : ℕ) → route_at after used j ≡ none
  unfolding route_at route_in
  empty_route j = rw (linked.cleared j, empty_entry_lem.valid) (ground arith)

  pub route_on-linked : (a : Bytes) (k : ℕ) → route_on after head a k ≡ route_on pool head a k
  route_on-linked a k = elim (Bool-cases (below a k)) [
    | inl e ↦
        let level : k ≡ suc d = ground arith in
        let agree : agree_bytes (suc d) p a ≡ true = ground arith in
        let ended : node_on pool head a k ≡ 0 = ap (node_on pool head a) level ∙ beyond a agree in
        rw (node_on-linked a k, e, ended) (empty_route (a k) ∙ (unfold route_at in refl))
    | inr e ↦
        rw (node_on-linked a k, e) (route_at-linked (node_on pool head a k) (a k) (tree.live a k))
  ]

  linked_unique :
      (a b : Bytes) (k l : ℕ)
      → 0 < node_on after head a k
      → node_on after head a k ≡ node_on after head b l
      → (k ≡ l) × (agree_bytes k a b ≡ true)
  linked_unique a b k l pos e = elim (Bool-cases (below a k)) [
    | inl x ↦ elim (Bool-cases (below b l)) [
      | inl y ↦
          let level : k ≡ suc d = ground arith in
          let with_a : agree_bytes (suc d) a p ≡ true =
            ground (arith, agree_bytes_symm (suc d) a p) in
          let with_b : agree_bytes (suc d) p b ≡ true = ground arith in
          (ground arith, rw level (agree_bytes_trans (suc d) a p b with_a with_b))
      | inr y ↦ absurd (ground (arith, e, node_on-linked a k, node_on-linked b l, tree.live b l))
    ]
    | inr x ↦ elim (Bool-cases (below b l)) [
      | inl y ↦ absurd (ground (arith, e, node_on-linked a k, node_on-linked b l, tree.live a k))
      | inr y ↦
          let old_a : node_on after head a k ≡ node_on pool head a k =
            rw (node_on-linked a k, x) refl in
          let old_b : node_on after head b l ≡ node_on pool head b l =
            rw (node_on-linked b l, y) refl in
          tree.unique a b k l (rw old_a at pos) (sym old_a ∙ e ∙ old_b)
    ]
  ]

  linked-IsWord : (m j : ℕ) → m < used + 1 → IsWord (after m j)
  linked-IsWord m j h = elim (Bool-cases (m == used)) [
    | inl e ↦
        let new : m ≡ used = ground arith in rw (new, linked.cleared j) empty_entry_lem.word_sized
    | inr e ↦ (linked-IsEntry m j (ground arith)).word_sized
  ]

  pub linked-IsTree : IsTree after head (used + 1)
  linked-IsTree = record {
    rooted = tree.rooted;
    respects = tree.respects;
    live = λ a k. rw (node_on-linked a k) (ground (arith, tree.live a k));
    unique = linked_unique;
    words = linked-IsWord;
  }

  -- The new node is the one that the prefix meets next.
  pub node_on-new : node_on after head p (suc d) ≡ used
  node_on-new = ground (arith, node_on-linked p (suc d), agree_bytes_refl (suc d) p)
