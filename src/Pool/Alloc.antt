-- ===== src/Pool/Alloc.antt =====
-- What `node_alloc` of src/core.c gives, on a pool that is in order.
use liblpm.Base.{
  ℕ, ◌+◌, ◌*◌, ◌^◌, ◌≤◌, ◌<◌, ◌≡◌, refl, Bool, false, ◌==◌, leb, ltb, if◌then◌else◌, ◌⊎◌, inl, inr,
  arith, ap, sym, subst, ◌∙◌, ◌&&◌, Bool-cases, none, some,
}
use liblpm.Word.{u32, invalid_index}
use liblpm.Trie.{Trie, Entry, Pool, Allocator, write}
use liblpm.Pool.{node_alloc, take_node, clear_node, moved, pool_grow, node_bytes, empty_entry}

-- The pool of a trie of 8-bit or 16-bit strides: node 0 is never given out, the nodes in use are in
-- the array, and the array may still double.
pub record IsPool (t : Trie) : Type 0 where
  pub no_dir24 : t.use_ipv4_dir24 ≡ false
  pub zero_taken : 1 ≤ t.pool_used
  pub in_array : t.pool_used ≤ t.pool_capacity
  pub doubles : t.pool_capacity < 2 ^ 31

-- `out` holds a new node: it was not in use, it is in the array, all its entries are empty, and
-- the nodes that were in use keep their contents.
pub record IsNewNode (t : Trie) (out : ℕ × Trie) : Type 0 where
  pub index : out.0 ≡ t.pool_used
  pub counted : out.1.pool_used ≡ t.pool_used + 1
  pub within : out.0 < out.1.pool_capacity
  pub cleared : (i : ℕ) → out.1.node_pool out.0 i ≡ empty_entry
  pub kept : (n : ℕ) → n < t.pool_used → out.1.node_pool n ≡ t.node_pool n

written {ℓ} : {A : Type ℓ} (a : ℕ → A) (i : ℕ) (v : A) → write a i v i ≡ v
unfolding write
written a i v = ground arith

not_written {ℓ} : {A : Type ℓ} (a : ℕ → A) (i j : ℕ) (v : A) → j < i → write a i v j ≡ a j
unfolding write
not_written a i j v h = ground arith

-- No index is left out when the trie is not a DIR-24-8 one.
pub plain_take :
    (t : Trie)
    → t.use_ipv4_dir24 ≡ false
    → take_node t ≡ clear_node t.pool_used (record t { pool_used = u32 (t.pool_used + 1) })
unfolding take_node
plain_take t no_dir24 =
    ap
      (λ (b : Bool).
        if b && t.pool_used == 0 && ltb (u32 (t.pool_used + 1)) t.pool_capacity
        then clear_node (u32 (t.pool_used + 1))
            (record t { pool_used = u32 (u32 (t.pool_used + 1) + 1) })
        else clear_node t.pool_used (record t { pool_used = u32 (t.pool_used + 1) }))
      no_dir24

pub take_node-IsNewNode :
    (t : Trie)
    → t.use_ipv4_dir24 ≡ false
    → t.pool_used < t.pool_capacity
    → t.pool_capacity < 2 ^ 32
    → IsNewNode t (take_node t)
take_node-IsNewNode t no_dir24 room fits =
    subst (IsNewNode t) (sym (plain_take t no_dir24)) (record {
      index = refl;
      counted = omega arith;
      within = room;
      cleared = λ i.
          ap (λ (node : ℕ → Entry). node i) (written t.node_pool t.pool_used (λ i. empty_entry));
      kept = λ n h. not_written t.node_pool t.pool_used n (λ i. empty_entry) h;
    })

-- The pool with the array doubled.
abbrev pub doubled : Allocator → Trie → Trie
doubled al t = record t {
  node_pool = moved t.node_pool t.pool_used al.fresh;
  pool_capacity = t.pool_capacity * 2;
}

moved-kept : (a b : Pool) (used n : ℕ) → n < used → moved a used b n ≡ a n
moved-kept a b used n h = ground arith

pub doubled-IsNewNode :
    (al : Allocator) (t : Trie) → IsPool t → IsNewNode t (take_node (doubled al t))
doubled-IsNewNode al t pool = record {
  index = new.index;
  counted = new.counted;
  within = new.within;
  cleared = new.cleared;
  kept = λ n h. new.kept n h ∙ moved-kept t.node_pool al.fresh t.pool_used n h;
}
  where
    new : IsNewNode (doubled al t) (take_node (doubled al t))
    new =
        take_node-IsNewNode (doubled al t) pool.no_dir24
          (omega (arith, pool.zero_taken, pool.in_array)) (omega (arith, pool.doubles))

pub pool_grow_lem :
    (al : Allocator) (t : Trie)
    → IsPool t
    → pool_grow al t
      ≡ (if al.grants (t.pool_capacity * 2 * node_bytes) then some (doubled al t) else none)
unfolding pool_grow
pool_grow_lem al t pool =
    ap
      (λ (cap : ℕ).
        if al.grants (cap * node_bytes)
        then some
            (record t { node_pool = moved t.node_pool t.pool_used al.fresh; pool_capacity = cap })
        else none)
      (omega (arith, pool.doubles))

-- `node_alloc` gives a new node, or index 0 with the trie as it was. It gives 0 only when the array
-- is full and the allocator refuses the doubled one.
pub node_alloc-IsNewNode :
    (al : Allocator) (t : Trie)
    → IsPool t
    → IsNewNode t (node_alloc al t)
      ⊎ ((node_alloc al t ≡ (invalid_index, t))
          × (t.pool_used ≡ t.pool_capacity)
          × (al.grants (t.pool_capacity * 2 * node_bytes) ≡ false))
unfolding node_alloc
node_alloc-IsNewNode al t pool = elim (Bool-cases (leb t.pool_capacity t.pool_used)) [
  | inr room ↦
      rw room
        (inl (take_node-IsNewNode t pool.no_dir24 (ground arith) (omega (arith, pool.doubles))))
  | inl full ↦
      rw (full, pool_grow_lem al t pool)
        (elim (Bool-cases (al.grants (t.pool_capacity * 2 * node_bytes))) [
          | inl granted ↦ rw granted (inl (doubled-IsNewNode al t pool))
          | inr refused ↦ rw refused (inr (refl, ground (arith, pool.in_array), refl))
        ])
]
