-- ===== src/Pool.antt =====
-- src/core.c: the pools of 8-bit and 16-bit nodes, and how a node is taken from them.
pub mod Alloc
pub mod Rest
use liblpm.Base.{ℕ, ◌+◌, ◌*◌, true, ◌&&◌, ◌==◌, ltb, leb, if◌then◌else◌, Option, none, some}
use liblpm.Word.{u32, u64, invalid_index, invalid_next_hop}
use liblpm.Trie.{Entry, Pool, Trie, Allocator, write}

abbrev pub node_bytes : ℕ
node_bytes = 256 * 8

abbrev pub wide_node_bytes : ℕ
wide_node_bytes = 65536 * 8

-- An entry of a new node: no child, not valid.
abbrev pub empty_entry : Entry
empty_entry = record { child_and_valid = 0; next_hop = invalid_next_hop }

-- `malloc` and `memcpy` of the nodes in use: what stands behind them is what malloc left there.
abbrev pub moved : Pool → ℕ → Pool → Pool
moved pool used fresh n = if ltb n used then pool n else fresh n

-- `pool_grow`; none is -1.
unfoldable pub pool_grow : Allocator → Trie → Option Trie
pool_grow al t =
    if al.grants (new_cap * node_bytes)
    then some
        (record t { node_pool = moved t.node_pool t.pool_used al.fresh; pool_capacity = new_cap })
    else none
  where
    new_cap : ℕ
    new_cap = u32 (t.pool_capacity * 2)

-- `wide_pool_grow`
unfoldable pub wide_pool_grow : Allocator → Trie → Option Trie
wide_pool_grow al t =
    if al.grants (new_cap * wide_node_bytes)
    then some (record t {
      wide_nodes_pool =
          if t.has_wide_nodes_pool
          then moved t.wide_nodes_pool t.wide_pool_used al.fresh
          else al.fresh;
      has_wide_nodes_pool = true;
      wide_pool_capacity = new_cap;
    })
    else none
  where
    new_cap : ℕ
    new_cap = if t.wide_pool_capacity == 0 then 16 else u32 (t.wide_pool_capacity * 2)

-- The node at `idx` is cleared and counted.
abbrev pub clear_node : ℕ → Trie → ℕ × Trie
clear_node idx t = (
  idx,
  record t {
    node_pool = write t.node_pool idx (λ i. empty_entry);
    num_nodes = u64 (t.num_nodes + 1);
  },
)

-- The next node of a pool with room. A DIR-24-8 trie leaves index 0 out.
unfoldable pub take_node : Trie → ℕ × Trie
take_node t =
    if t.use_ipv4_dir24 && t.pool_used == 0 && ltb next t.pool_capacity
    then clear_node next (record t { pool_used = u32 (next + 1) })
    else clear_node t.pool_used (record t { pool_used = next })
  where
    next : ℕ
    next = u32 (t.pool_used + 1)

abbrev pub take_grown : Trie → Option Trie → ℕ × Trie
take_grown t none = (invalid_index, t)
take_grown t (some u) = take_node u

-- `node_alloc`: the index of the new node, or 0.
unfoldable pub node_alloc : Allocator → Trie → ℕ × Trie
node_alloc al t =
    if leb t.pool_capacity t.pool_used then take_grown t (pool_grow al t) else take_node t

unfoldable pub take_wide_node : Trie → ℕ × Trie
take_wide_node t = (
  t.wide_pool_used,
  record t {
    wide_pool_used = u32 (t.wide_pool_used + 1);
    wide_nodes_pool = write t.wide_nodes_pool t.wide_pool_used (λ i. empty_entry);
    num_wide_nodes = u64 (t.num_wide_nodes + 1);
  },
)

abbrev pub take_wide_grown : Trie → Option Trie → ℕ × Trie
take_wide_grown t none = (invalid_index, t)
take_wide_grown t (some u) = take_wide_node u

-- `wide_node_alloc`: index 0 is a node, and also what a failure gives.
unfoldable pub wide_node_alloc : Allocator → Trie → ℕ × Trie
wide_node_alloc al t =
    if leb t.wide_pool_capacity t.wide_pool_used
    then take_wide_grown t (wide_pool_grow al t)
    else take_wide_node t
