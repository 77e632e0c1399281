-- ===== src/Stride8/Tree.antt =====
-- The nodes of a pool as a tree: the node and the route that an address meets at each level. The
-- levels are what the lookups of src/4stride8/single.c and src/6stride8/single.c go through.
use liblpm.Base.{
  ℕ, zero, suc, ◌+◌, ◌≤◌, ◌<◌, ◌≡◌, refl, arith, true, false, ◌==◌, if◌then◌else◌, Option, none,
  some, Bool-cases, inl, inr,
}
use native.Mathlib.Decide.{dec_le}
use liblpm.Trie.{Bytes, Entry, Pool}
use liblpm.Prefix.{agree_bytes, agree_bytes_step}
use liblpm.Stride8.{child_of}
use liblpm.Stride8.Entries.{is_valid, IsWord}

-- From a node to its child at a byte; 0 stands for no node.
unfoldable pub step : Pool → ℕ → ℕ → ℕ
step pool n i = if n == 0 then 0 else child_of (pool n i)

-- Where the paths start: the level, and the node there for an address.
pub record Head : Type 0 where
  pub base : ℕ
  pub enter : Bytes → ℕ

-- One root for all addresses.
abbrev pub plain : ℕ → Head
plain root = record { base = 0; enter = λ a. root }

-- The node that the address `a` meets at level `k`; none above the first level.
unfoldable pub node_on : Pool → Head → Bytes → ℕ → ℕ
node_on pool head a zero = if head.base == 0 then head.enter a else 0
node_on pool head a (suc k) =
    let next = step pool (node_on pool head a k) (a k) in
    if head.base == suc k then head.enter a else next

unfoldable pub route_in : Entry → Option ℕ
route_in e = if is_valid e then some e.next_hop else none

-- The route that the node `n` holds for the byte `i`.
unfoldable pub route_at : Pool → ℕ → ℕ → Option ℕ
route_at pool n i = if n == 0 then none else route_in (pool n i)

-- The route that `a` meets at level `k`.
abbrev pub route_on : Pool → Head → Bytes → ℕ → Option ℕ
route_on pool head a k = route_at pool (node_on pool head a k) (a k)

-- No node is met on two ways, and every node that is met is in use.
pub record IsTree (pool : Pool) (head : Head) (used : ℕ) : Type 0 where
  pub rooted : (a : Bytes) → head.base ≡ 0 → 0 < head.enter a
  pub respects : (a b : Bytes) → agree_bytes head.base a b ≡ true → head.enter a ≡ head.enter b
  pub live : (a : Bytes) (k : ℕ) → node_on pool head a k < used
  pub unique :
      (a b : Bytes) (k l : ℕ)
      → 0 < node_on pool head a k
      → node_on pool head a k ≡ node_on pool head b l
      → (k ≡ l) × (agree_bytes k a b ≡ true)
  pub words : (n i : ℕ) → n < used → IsWord (pool n i)

module _ (pool : Pool) (head : Head) where
  pub node_on-step :
      (a : Bytes) (k : ℕ)
      → head.base ≤ k
      → node_on pool head a (suc k) ≡ step pool (node_on pool head a k) (a k)
  unfolding node_on
  node_on-step a k h = let later : (head.base == suc k) ≡ false = ground arith in rw later refl

  pub node_on-base : (a : Bytes) (k : ℕ) → head.base ≡ k → node_on pool head a k ≡ head.enter a
  unfolding node_on
  node_on-base a zero e = rw e refl
  node_on-base a (suc k) e = let here : (head.base == suc k) ≡ true = ground arith in rw here refl

  -- Above the first level there are no nodes.
  node_on-above : (a : Bytes) (k : ℕ) → k < head.base → node_on pool head a k ≡ 0
  unfolding node_on step
  node_on-above a zero h = let later : (head.base == 0) ≡ false = ground arith in rw later refl
  node_on-above a (suc k) h =
      let later : (head.base == suc k) ≡ false = ground arith in
      rw (later, node_on-above a k (omega arith)) refl

  pub base-le : (a : Bytes) (k : ℕ) → 0 < node_on pool head a k → head.base ≤ k
  base-le a k pos = elim (dec_le head.base k) [
    | yes h ↦ h
    | no h ↦ absurd (omega (arith, node_on-above a k (omega arith)))
  ]

  -- Addresses with the same first bytes meet the same node.
  pub node_on-agree :
      (a b : Bytes) (k : ℕ)
      → ((a b : Bytes) → agree_bytes head.base a b ≡ true → head.enter a ≡ head.enter b)
      → agree_bytes k a b ≡ true
      → node_on pool head a k ≡ node_on pool head b k
  unfolding node_on
  node_on-agree a b zero respects e = elim (Bool-cases (head.base == 0)) [
    | inl here ↦ let level : head.base ≡ 0 = ground arith in rw here (respects a b (rw level e))
    | inr later ↦ rw later refl
  ]
  node_on-agree a b (suc k) respects e = elim (Bool-cases (head.base == suc k)) [
    | inl here ↦ let level : head.base ≡ suc k = ground arith in rw here (respects a b (rw level e))
    | inr later ↦
        let both : (agree_bytes k a b ≡ true) × (a k ≡ b k) =
          ground (arith, agree_bytes_step k a b) in
        rw (later, node_on-agree a b k respects both.0, both.1) refl
  ]

  -- Once the path has ended it stays ended.
  pub node_on-stop :
      (a : Bytes) (k : ℕ)
      → head.base ≤ k
      → node_on pool head a k ≡ 0
      → node_on pool head a (suc k) ≡ 0
  unfolding step
  node_on-stop a k h e = rw (node_on-step a k h, e) refl

  pub node_on-ended :
      (a : Bytes) (k j : ℕ)
      → head.base ≤ k
      → node_on pool head a k ≡ 0
      → node_on pool head a (j + k) ≡ 0
  node_on-ended a k zero h e = let same : 0 + k ≡ k = omega arith in rw same e
  node_on-ended a k (suc j) h e =
      let same : suc j + k ≡ suc (j + k) = omega arith in
      rw same (node_on-stop a (j + k) (omega arith) (node_on-ended a k j h e))
