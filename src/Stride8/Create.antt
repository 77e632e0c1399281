-- ===== src/Stride8/Create.antt =====
-- `lpm_create_ipv4_8stride` and `lpm_create_ipv6_8stride`.
use liblpm.Base.{ℕ, ◌*◌, true, ◌&&◌, ◌==◌, if◌then◌else◌, Option, none, some}
use liblpm.Word.{ipv4_max_depth, ipv6_max_depth, invalid_index, invalid_next_hop}
use liblpm.Trie.{
  Trie, Pool, Allocator, zero_trie, zero_entry, zero_cache, trie_bytes, hot_cache_size,
  cache_entry_bytes, write,
}
use liblpm.Pool.{node_alloc, node_bytes}

abbrev pub initial_pool_size : ℕ
initial_pool_size = 4096

abbrev pub direct_size : ℕ
direct_size = 65536

abbrev pub direct_entry_bytes : ℕ
direct_entry_bytes = 12

-- The node pool as it is after malloc and the memset of node 0.
abbrev pub first_pool : Allocator → Pool
first_pool al = write al.fresh 0 (λ i. zero_entry)

-- The trie before its root: the fields set, the node pool allocated.
abbrev pub pooled : Allocator → ℕ → Trie
pooled al depth = record zero_trie {
  max_depth = depth;
  default_next_hop = invalid_next_hop;
  node_pool = first_pool al;
  pool_capacity = initial_pool_size;
  pool_used = 1;
}

-- The root is an index that `node_alloc` gave.
abbrev pub rooted : ℕ × Trie → Option Trie
rooted (root, t) = if root == invalid_index then none else some (record t { root_idx = root })

-- The direct table is there when its memory is granted; every entry points at the root.
abbrev pub with_direct_table : Allocator → Trie → Trie
with_direct_table al t =
    if al.grants (direct_size * direct_entry_bytes)
    then record t {
      has_direct_table = true;
      direct_table =
          λ i. record { next_hop = invalid_next_hop; node_idx = t.root_idx; prefix_len = 0 };
    }
    else t

abbrev pub with_hot_cache : Allocator → Trie → Trie
with_hot_cache al t =
    if al.grants (hot_cache_size * cache_entry_bytes)
    then record t { has_hot_cache = true; hot_cache = zero_cache }
    else t

unfoldable pub create_ipv4_8stride : Allocator → Option Trie
create_ipv4_8stride al =
    if al.grants trie_bytes && al.grants (initial_pool_size * node_bytes)
    then elim (rooted (node_alloc al (pooled al ipv4_max_depth))) [
      | none ↦ none
      | some t ↦ some (with_hot_cache al (with_direct_table al t))
    ]
    else none

unfoldable pub create_ipv6_8stride : Allocator → Option Trie
create_ipv6_8stride al =
    if al.grants trie_bytes && al.grants (initial_pool_size * node_bytes)
    then elim (rooted (node_alloc al (pooled al ipv6_max_depth))) [
      | none ↦ none
      | some t ↦ some (with_hot_cache al t)
    ]
    else none
