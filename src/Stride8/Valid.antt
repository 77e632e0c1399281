-- ===== src/Stride8/Valid.antt =====
-- The invariant of the tries that src/4stride8/core.c and src/6stride8/core.c keep.
use liblpm.Base.{ℕ, ◌^◌, ◌≤◌, ◌<◌, ◌≡◌, Option, false, arith}
use liblpm.Trie.{Bytes, Trie}
use liblpm.Pool.Alloc.{IsPool}
use liblpm.Stride8.Tree.{Head, plain, IsTree, node_on, route_on}

-- The nodes below a head are a tree, and the array holds those in use; an index fits in an entry.
pub record IsForest (head : Head) (t : Trie) : Type 0 where
  pub tree : IsTree t.node_pool head t.pool_used
  pub no_dir24 : t.use_ipv4_dir24 ≡ false
  pub in_array : t.pool_used ≤ t.pool_capacity
  pub small : t.pool_capacity < 2 ^ 30

-- The node and the route that `a` meets at level `k`.
abbrev pub node_under : Head → Trie → Bytes → ℕ → ℕ
node_under head t a k = node_on t.node_pool head a k

abbrev pub route_under : Head → Trie → Bytes → ℕ → Option ℕ
route_under head t a k = route_on t.node_pool head a k

-- The same for a trie with one root.
abbrev pub IsTrie : Trie → Type 0
IsTrie t = IsForest (plain t.root_idx) t

abbrev pub node_of : Trie → Bytes → ℕ → ℕ
node_of t = node_under (plain t.root_idx) t

abbrev pub route_of : Trie → Bytes → ℕ → Option ℕ
route_of t = route_under (plain t.root_idx) t

pub IsForest-IsPool : {head : Head} {t : Trie} → IsForest head t → IsPool t
IsForest-IsPool {head} {t} trie = record {
  no_dir24 = trie.no_dir24;
  zero_taken = omega (arith, trie.tree.live (λ i. 0) 0);
  in_array = trie.in_array;
  doubles = omega (arith, trie.small);
}
