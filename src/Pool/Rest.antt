-- ===== src/Pool/Rest.antt =====
-- What `node_alloc` of src/core.c leaves alone, and how far the array of nodes grows.
use liblpm.Base.{
  ℕ, ◌*◌, ◌^◌, ◌<◌, ◌≡◌, refl, true, false, ◌⊎◌, inl, inr, arith, sym, subst, ◌∙◌, Bool-cases, leb,
}
use liblpm.Word.{invalid_index}
use liblpm.Trie.{Trie, Pool, CacheEntry, DirectEntry, Allocator}
use liblpm.Pool.{node_alloc, take_node, node_bytes}
use liblpm.Pool.Alloc.{
  IsPool, IsNewNode, plain_take, take_node-IsNewNode, doubled, doubled-IsNewNode, pool_grow_lem,
}

-- The fields that say what the trie is and where its routes are, but for the nodes.
pub record SameRest (t u : Trie) : Type 0 where
  pub root : u.root_idx ≡ t.root_idx
  pub default : u.has_default_route ≡ t.has_default_route
  pub hop : u.default_next_hop ≡ t.default_next_hop
  pub depth : u.max_depth ≡ t.max_depth
  pub dir24 : u.use_ipv4_dir24 ≡ t.use_ipv4_dir24
  pub wide_stride : u.use_ipv6_wide_stride ≡ t.use_ipv6_wide_stride
  pub wide_present : u.has_wide_nodes_pool ≡ t.has_wide_nodes_pool
  pub wide_nodes : u.wide_nodes_pool ≡ t.wide_nodes_pool

-- Any other fields may change.
pub SameRest-other :
    (t : Trie) (node_pool : Pool) (pool_capacity pool_used num_nodes num_prefixes : ℕ)
    (hot_cache : ℕ → CacheEntry) (direct_table : ℕ → DirectEntry)
    → SameRest t (record t {
      node_pool = node_pool;
      pool_capacity = pool_capacity;
      pool_used = pool_used;
      num_nodes = num_nodes;
      num_prefixes = num_prefixes;
      hot_cache = hot_cache;
      direct_table = direct_table;
    })
SameRest-other t node_pool cap used nodes prefixes cache table = record {
  root = refl;
  default = refl;
  hop = refl;
  depth = refl;
  dir24 = refl;
  wide_stride = refl;
  wide_present = refl;
  wide_nodes = refl;
}

pub SameRest-trans : {t u v : Trie} → SameRest t u → SameRest u v → SameRest t v
SameRest-trans r s = record {
  root = s.root ∙ r.root;
  default = s.default ∙ r.default;
  hop = s.hop ∙ r.hop;
  depth = s.depth ∙ r.depth;
  dir24 = s.dir24 ∙ r.dir24;
  wide_stride = s.wide_stride ∙ r.wide_stride;
  wide_present = s.wide_present ∙ r.wide_present;
  wide_nodes = s.wide_nodes ∙ r.wide_nodes;
}

-- No request of 2 TiB or more is granted.
abbrev pub IsBounded : Allocator → Type 0
IsBounded al = (n : ℕ) → al.grants n ≡ true → n < 2 ^ 41

-- A new node, all else but the nodes as before, and the array still small enough for an index to
-- fit in the 30 bits of an entry.
pub record Allocated (t : Trie) (out : ℕ × Trie) : Type 0 where
  pub node : IsNewNode t out
  pub rest : SameRest t out.1
  pub small : out.1.pool_capacity < 2 ^ 30

take_node-Allocated :
    (t : Trie)
    → t.use_ipv4_dir24 ≡ false
    → t.pool_used < t.pool_capacity
    → t.pool_capacity < 2 ^ 30
    → Allocated t (take_node t)
take_node-Allocated t no_dir24 room fits = record {
  node = take_node-IsNewNode t no_dir24 room (omega arith);
  rest =
      subst (λ (out : ℕ × Trie). SameRest t out.1) (sym (plain_take t no_dir24))
        (SameRest-other t _ _ _ _ _ _ _);
  small =
      subst (λ (out : ℕ × Trie). out.1.pool_capacity < 2 ^ 30) (sym (plain_take t no_dir24)) fits;
}

-- The array is full and the allocator refuses to double it.
pub record NoRoom (al : Allocator) (t : Trie) : Type 0 where
  pub full : t.pool_used ≡ t.pool_capacity
  pub not_granted : al.grants (t.pool_capacity * 2 * node_bytes) ≡ false

-- `node_alloc` on a pool in order: a new node, or 0 with nothing changed, and then for want of
-- room.
pub node_alloc-Allocated :
    (al : Allocator) (t : Trie)
    → IsBounded al
    → IsPool t
    → t.pool_capacity < 2 ^ 30
    → Allocated t (node_alloc al t) ⊎ ((node_alloc al t ≡ (invalid_index, t)) × NoRoom al t)
unfolding node_alloc
node_alloc-Allocated al t bounded pool fits = elim (Bool-cases (leb t.pool_capacity t.pool_used)) [
  | inr room ↦ rw room (inl (take_node-Allocated t pool.no_dir24 (ground arith) fits))
  | inl full ↦
      rw (full, pool_grow_lem al t pool)
        (elim (Bool-cases (al.grants (t.pool_capacity * 2 * node_bytes))) [
          | inl granted ↦
              let grown =
                take_node-Allocated (doubled al t) pool.no_dir24
                  (omega (arith, pool.zero_taken, pool.in_array))
                  (omega (arith, bounded (t.pool_capacity * 2 * node_bytes) granted)) in
              rw granted (
                inl (record {
                  node = doubled-IsNewNode al t pool;
                  rest = SameRest-trans (doubled_rest al t) grown.rest;
                  small = grown.small;
                }))
          | inr refused ↦
              rw refused
                (inr (refl, record { full = ground (arith, pool.in_array); not_granted = refused }))
        ])
]
  where
    doubled_rest : (al : Allocator) (t : Trie) → SameRest t (doubled al t)
    doubled_rest al t = SameRest-other t _ _ _ _ _ _ _
