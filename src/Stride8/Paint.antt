-- ===== src/Stride8/Paint.antt =====
-- Storing into entries of one node, children kept: what that does to the tree of a pool.
use liblpm.Base.{
  ℕ, zero, suc, ◌<◌, ◌≡◌, refl, arith, ap, sym, ◌∙◌, Bool, true, false, ◌&&◌, ◌==◌, if◌then◌else◌,
  Option, none, some, Bool-cases, inl, inr,
}
use liblpm.Trie.{Bytes, Entry, Pool}
use liblpm.Prefix.{agree_bytes, agree_bytes_symm}
use liblpm.Stride8.{child_of, make_valid, make_invalid, set_valid}
use liblpm.Stride8.Entries.{IsWord, make_valid_lem, make_invalid_lem, set_valid_lem}
use liblpm.Stride8.Tree.{Head, step, node_on, route_in, route_at, route_on, IsTree, node_on-agree}

-- `make` leaves the child of an entry alone and puts the route `r` in it.
pub record Stores (make : Entry → Entry) (r : Option ℕ) : Type 0 where
  pub word_sized : (e : Entry) → IsWord e → IsWord (make e)
  pub child : (e : Entry) → IsWord e → child_of (make e) ≡ child_of e
  pub route : (e : Entry) → IsWord e → route_in (make e) ≡ r

pub make_valid-Stores : (nh : ℕ) → Stores (make_valid nh) (some nh)
unfolding route_in
make_valid-Stores nh = record {
  word_sized = λ e h. (make_valid_lem nh e h).word_sized;
  child = λ e h. (make_valid_lem nh e h).child;
  route = λ e h. rw (make_valid_lem nh e h).valid refl;
}

pub set_valid-Stores : (nh : ℕ) → Stores (set_valid nh) (some nh)
unfolding route_in
set_valid-Stores nh = record {
  word_sized = λ e h. (set_valid_lem nh e h).word_sized;
  child = λ e h. (set_valid_lem nh e h).child;
  route = λ e h. rw (set_valid_lem nh e h).valid refl;
}

pub make_invalid-Stores : Stores make_invalid none
unfolding route_in
make_invalid-Stores = record {
  word_sized = λ e h. (make_invalid_lem e h).word_sized;
  child = λ e h. (make_invalid_lem e h).child;
  route = λ e h. rw (make_invalid_lem e h).valid refl;
}

-- The entries of `n` at which `inside` holds are made anew.
abbrev pub Painted : Pool → Pool → ℕ → (ℕ → Bool) → (Entry → Entry) → Type 0
Painted pool after n inside make =
    (m i : ℕ) → after m i ≡ (if m == n && inside i then make (pool m i) else pool m i)

module _ (pool after : Pool) (head : Head) (used n : ℕ) (tree : IsTree pool head used)
    (inside : ℕ → Bool) (make : Entry → Entry) (r : Option ℕ) (stores : Stores make r)
    (painted : Painted pool after n inside make) where
  child-painted : (m i : ℕ) → m < used → child_of (after m i) ≡ child_of (pool m i)
  child-painted m i live = elim (Bool-cases (m == n && inside i)) [
    | inl e ↦ rw (painted m i, e) (stores.child (pool m i) (tree.words m i live))
    | inr e ↦ rw (painted m i, e) refl
  ]

  pub node_on-painted : (a : Bytes) (k : ℕ) → node_on after head a k ≡ node_on pool head a k
  unfolding node_on step
  node_on-painted a zero = refl
  node_on-painted a (suc k) =
      rw (node_on-painted a k, child-painted (node_on pool head a k) (a k) (tree.live a k)) refl

  pub painted-IsTree : IsTree after head used
  painted-IsTree = record {
    rooted = tree.rooted;
    respects = tree.respects;
    live = λ a k. rw (node_on-painted a k) (tree.live a k);
    unique = λ a b k l pos e.
        tree.unique a b k l (rw (node_on-painted a k) at pos)
          (sym (node_on-painted a k) ∙ e ∙ node_on-painted b l);
    words = λ m i live. painted_word m i live;
  }
    where
      painted_word : (m i : ℕ) → m < used → IsWord (after m i)
      painted_word m i live = elim (Bool-cases (m == n && inside i)) [
        | inl e ↦ rw (painted m i, e) (stores.word_sized (pool m i) (tree.words m i live))
        | inr e ↦ rw (painted m i, e) (tree.words m i live)
      ]

  route_at-painted :
      (m i : ℕ)
      → m < used
      → 0 < n
      → route_at after m i ≡ (if m == n && inside i then r else route_at pool m i)
  unfolding route_at
  route_at-painted m i live inner = elim (Bool-cases (m == n && inside i)) [
    | inl e ↦
        let nonzero : (m == 0) ≡ false = ground arith in
        rw (painted m i, e, nonzero) (stores.route (pool m i) (tree.words m i live))
    | inr e ↦ rw (painted m i, e) refl
  ]

  -- The addresses that meet `n` at the level `d` are those that agree with `p` up to there.
  module _ (p : Bytes) (d : ℕ) (here : node_on pool head p d ≡ n) (inner : 0 < n) where
    meets : (a : Bytes) (k : ℕ) → (node_on pool head a k == n) ≡ (k == d && agree_bytes d p a)
    meets a k = elim (Bool-cases (node_on pool head a k == n)) [
      | inl e ↦
          let same : node_on pool head a k ≡ node_on pool head p d = ground (arith, here) in
          let found = tree.unique a p k d (ground arith) same in
          let level : agree_bytes d a p ≡ true = rw found.0 at found.1 in
          ground (arith, found.0, level, agree_bytes_symm d p a)
      | inr e ↦ elim (Bool-cases (k == d && agree_bytes d p a)) [
        | inl f ↦
            let level : k ≡ d = ground arith in
            let agree : agree_bytes d p a ≡ true = ground arith in
            let same : node_on pool head a k ≡ n =
              ap (node_on pool head a) level
              ∙ sym (node_on-agree pool head p a d tree.respects agree)
              ∙ here in
            ground (arith, same)
        | inr f ↦ rw (e, f) refl
      ]
    ]

    pub route_on-painted :
        (a : Bytes) (k : ℕ)
        → route_on after head a k
          ≡ (if k == d && (agree_bytes d p a && inside (a d)) then r else route_on pool head a k)
    route_on-painted a k = elim (Bool-cases (k == d)) [
      | inl e ↦
          let level : k ≡ d = ground arith in
          rw
            (
              node_on-painted a k,
              route_at-painted (node_on pool head a k) (a k) (tree.live a k) inner,
              meets a k,
              e,
              level,
            )
            refl
      | inr e ↦
          rw
            (
              node_on-painted a k,
              route_at-painted (node_on pool head a k) (a k) (tree.live a k) inner,
              meets a k,
              e,
            )
            refl
    ]
