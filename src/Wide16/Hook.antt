-- ===== src/Wide16/Hook.antt =====
-- A new empty node at the start of the paths that had none: what that does to the tree of a pool.
use liblpm.Base.{
  ℕ, zero, suc, ◌+◌, ◌≤◌, ◌<◌, ◌≡◌, refl, arith, ap, sym, ◌∙◌, Bool, true, false, ◌&&◌, ◌==◌,
  if◌then◌else◌, none, Bool-cases, inl, inr,
}
use liblpm.Trie.{Bytes, Pool}
use liblpm.Pool.{empty_entry}
use liblpm.Prefix.{agree_bytes, agree_bytes_refl, agree_bytes_symm, agree_bytes_trans}
use liblpm.Stride8.{child_of}
use liblpm.Stride8.Entries.{IsWord, empty_entry_lem}
use liblpm.Stride8.Tree.{
  Head, IsTree, node_on, node_on-base, node_on-stop, step, route_in, route_at, route_on,
}

-- The addresses that agree with `p` start at the new node `used`, which had no node before.
pub record Hooked (pool after : Pool) (head : Head) (used : ℕ) (p : Bytes) (enter : Bytes → ℕ)
    : Type 0 where
  pub cleared : (j : ℕ) → after used j ≡ empty_entry
  pub entries : (m j : ℕ) → m < used → after m j ≡ pool m j
  pub starts : (a : Bytes) → enter a ≡ (if agree_bytes head.base p a then used else head.enter a)

module _ (pool after : Pool) (head : Head) (used : ℕ) (p : Bytes) (enter : Bytes → ℕ)
    (tree : IsTree pool head used) (free : head.enter p ≡ 0)
    (hooked : Hooked pool after head used p enter) where
  abbrev new_head : Head
  new_head = record { base = head.base; enter = enter }

  -- The address starts at the new node.
  abbrev here : Bytes → ℕ → Bool
  here a k = k == head.base && agree_bytes head.base p a

  ended : (a : Bytes) (k : ℕ) → here a k ≡ true → node_on pool head a k ≡ 0
  ended a k e =
      let level : head.base ≡ k = ground arith in
      let agree : agree_bytes head.base p a ≡ true = ground arith in
      node_on-base pool head a k level ∙ sym (tree.respects p a agree) ∙ free

  empty_step : (j : ℕ) → step after used j ≡ 0
  unfolding step
  empty_step j = ground (arith, ap child_of (hooked.cleared j), empty_entry_lem.child)

  old_step : (m j : ℕ) → m < used → step after m j ≡ step pool m j
  unfolding step
  old_step m j live = rw (hooked.entries m j live) refl

  node_on-hooked :
      (a : Bytes) (k : ℕ)
      → node_on after new_head a k ≡ (if here a k then used else node_on pool head a k)
  unfolding node_on
  node_on-hooked a zero = ground (arith, hooked.starts a)
  node_on-hooked a (suc k) = elim (Bool-cases (head.base == suc k)) [
    | inl first ↦
        let level : (suc k == head.base) ≡ true = ground arith in
        rw (first, level) (hooked.starts a)
    | inr later ↦
        let level : (suc k == head.base) ≡ false = ground arith in
        elim (Bool-cases (here a k)) [
          | inl e ↦
              let starts : head.base ≤ k = ground arith in
              let stop = node_on-stop pool head a k starts (ended a k e) in
              let below : step pool (node_on pool head a k) (a k) ≡ 0 = rw later at stop in
              rw (later, level, node_on-hooked a k, e, below) (empty_step (a k))
          | inr e ↦
              rw (later, level, node_on-hooked a k, e)
                (old_step (node_on pool head a k) (a k) (tree.live a k))
        ]
  ]

  empty_route : (j : ℕ) → route_at after used j ≡ none
  unfolding route_at route_in
  empty_route j = rw (hooked.cleared j, empty_entry_lem.valid) (ground arith)

  old_route : (m j : ℕ) → m < used → route_at after m j ≡ route_at pool m j
  unfolding route_at
  old_route m j live = rw (hooked.entries m j live) refl

  pub route_on-hooked : (a : Bytes) (k : ℕ) → route_on after new_head a k ≡ route_on pool head a k
  route_on-hooked a k = elim (Bool-cases (here a k)) [
    | inl e ↦
        rw (node_on-hooked a k, e, ended a k e) (empty_route (a k) ∙ (unfold route_at in refl))
    | inr e ↦ rw (node_on-hooked a k, e) (old_route (node_on pool head a k) (a k) (tree.live a k))
  ]

  hooked_unique :
      (a b : Bytes) (k l : ℕ)
      → 0 < node_on after new_head a k
      → node_on after new_head a k ≡ node_on after new_head b l
      → (k ≡ l) × (agree_bytes k a b ≡ true)
  hooked_unique a b k l pos e = elim (Bool-cases (here a k)) [
    | inl x ↦ elim (Bool-cases (here b l)) [
      | inl y ↦
          let level : k ≡ head.base = ground arith in
          let with_a : agree_bytes head.base a p ≡ true =
            ground (arith, agree_bytes_symm head.base a p) in
          let with_b : agree_bytes head.base p b ≡ true = ground arith in
          (ground arith, rw level (agree_bytes_trans head.base a p b with_a with_b))
      | inr y ↦ absurd (ground (arith, e, node_on-hooked a k, node_on-hooked b l, tree.live b l))
    ]
    | inr x ↦ elim (Bool-cases (here b l)) [
      | inl y ↦ absurd (ground (arith, e, node_on-hooked a k, node_on-hooked b l, tree.live a k))
      | inr y ↦
          let old_a : node_on after new_head a k ≡ node_on pool head a k =
            rw (node_on-hooked a k, x) refl in
          let old_b : node_on after new_head b l ≡ node_on pool head b l =
            rw (node_on-hooked b l, y) refl in
          tree.unique a b k l (rw old_a at pos) (sym old_a ∙ e ∙ old_b)
    ]
  ]

  hooked_respects : (a b : Bytes) → agree_bytes head.base a b ≡ true → enter a ≡ enter b
  hooked_respects a b e =
      rw (hooked.starts a, hooked.starts b, tree.respects a b e, same_agree) refl
    where
      same_agree : agree_bytes head.base p a ≡ agree_bytes head.base p b
      same_agree = elim (Bool-cases (agree_bytes head.base p a)) [
        | inl f ↦ f ∙ sym (agree_bytes_trans head.base p a b f e)
        | inr f ↦ elim (Bool-cases (agree_bytes head.base p b)) [
          | inl g ↦
              let back : agree_bytes head.base b a ≡ true =
                ground (arith, agree_bytes_symm head.base a b) in
              absurd (ground (arith, agree_bytes_trans head.base p b a g back))
          | inr g ↦ rw (f, g) refl
        ]
      ]

  hooked-IsWord : (m j : ℕ) → m < used + 1 → IsWord (after m j)
  hooked-IsWord m j h = elim (Bool-cases (m == used)) [
    | inl e ↦
        let new : m ≡ used = ground arith in rw (new, hooked.cleared j) empty_entry_lem.word_sized
    | inr e ↦
        let live : m < used = ground arith in rw (hooked.entries m j live) (tree.words m j live)
  ]

  pub hooked-IsTree : IsTree after new_head (used + 1)
  hooked-IsTree = record {
    rooted = λ a e.
        ground (arith, hooked.starts a, tree.rooted a e, tree.live p 0, tree.rooted p e, free);
    respects = hooked_respects;
    live = λ a k. rw (node_on-hooked a k) (ground (arith, tree.live a k));
    unique = hooked_unique;
    words = hooked-IsWord;
  }

  pub node_on-first : node_on after new_head p head.base ≡ used
  node_on-first = ground (arith, node_on-hooked p head.base, agree_bytes_refl head.base p)
