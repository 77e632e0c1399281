-- ===== src/Stride8.antt =====
-- src/4stride8/core.c and src/6stride8/core.c: the tries of 8-bit strides. The two files hold the
-- same loops; the IPv4 one also keeps the direct table.
pub mod Create
pub mod Lookup
pub mod Variants
pub mod Update
pub mod Entries
pub mod Tree
pub mod Paint
pub mod Link
pub mod Valid
pub mod Open
pub mod Fill
pub mod Effect
pub mod Store
pub mod Add
pub mod Remove
pub mod Search
pub mod Fresh
pub mod Lpm
pub mod Reach
use liblpm.Base.{
  ℕ, zero, suc, ◌+◌, ◌-◌, ◌*◌, ◌/◌, Bool, true, false, ◌&&◌, ◌==◌, ltb, leb, not, if◌then◌else◌,
  bit_and, bit_or,
}
use liblpm.Word.{
  u8, u32, u64, not32, ◌<<<◌, ◌>>>◌, test, valid_flag, child_mask, invalid_index, invalid_next_hop,
  ipv4_max_depth, ipv6_max_depth,
}
use liblpm.Trie.{
  Bytes, Entry, DirectEntry, Pool, Trie, Allocator, Status, ok, failed, write, zero_cache,
}
use liblpm.Pool.{node_alloc}

-- `pool[n].entries[i] = e`
abbrev pub set_entry : Trie → ℕ → ℕ → Entry → Trie
set_entry t n i e = record t { node_pool = write t.node_pool n (write (t.node_pool n) i e) }

abbrev pub child_of : Entry → ℕ
child_of e = bit_and e.child_and_valid child_mask

-- `memset` of the hot cache, if there is one.
abbrev pub clear_cache : Trie → Trie
clear_cache t = record t { hot_cache = if t.has_hot_cache then zero_cache else t.hot_cache }

abbrev pub count_added : Trie → Status × Trie
count_added t = (ok, record t { num_prefixes = u64 (t.num_prefixes + 1) })

abbrev pub count_deleted : Trie → Status × Trie
count_deleted t =
    (ok, record t { num_prefixes = if ltb 0 t.num_prefixes then t.num_prefixes - 1 else 0 })

-- The loop of `direct_table_update`: `left` rounds from `i` on.
unfoldable pub direct_loop : ℕ → ℕ → ℕ → ℕ → ℕ → (ℕ → DirectEntry) → ℕ → DirectEntry
unfolding write
direct_loop zero i base len next_hop table = table
direct_loop (suc left) i base len next_hop table = direct_loop left (i + 1) base len next_hop (
    if leb (table (u32 (base + i))).prefix_len len
    then write table (u32 (base + i))
        (record (table (u32 (base + i))) { next_hop = next_hop; prefix_len = len })
    else table)

-- `direct_table_update`
unfoldable pub direct_table_update : Bytes → ℕ → ℕ → Trie → Trie
unfolding direct_loop
direct_table_update p len next_hop t =
    if t.has_direct_table && t.max_depth == ipv4_max_depth && leb len 16
    then record t {
      direct_table =
          direct_loop (1 <<< (16 - len)) 0
            (if ltb len 16 then bit_and base (not32 ((1 <<< (16 - len)) - 1)) else base) len
            next_hop t.direct_table;
    }
    else t
  where
    base : ℕ
    base = bit_or (p 0 <<< 8) (p 1)

-- The child under an entry, made if need be; 0 if that fails.
unfoldable pub open_child : Allocator → ℕ → ℕ → Trie → ℕ × Trie
open_child al node index t =
    if child_of (t.node_pool node index) == invalid_index
    then (if c == invalid_index then (c, u) else (c, linked))
    else (child_of (t.node_pool node index), t)
  where
    c : ℕ
    c = (node_alloc al t).0

    u : Trie
    u = (node_alloc al t).1

    linked : Trie
    linked = set_entry u node index (record (u.node_pool node index) {
      child_and_valid = bit_or (bit_and (u.node_pool node index).child_and_valid valid_flag) c;
    })

-- The loop over the entries of a partial byte. `make` gives the new entry from the old one.
unfoldable pub fill_node : ℕ → ℕ → ℕ → ℕ → (Entry → Entry) → Trie → Trie
fill_node zero i base node make t = t
fill_node (suc left) i base node make t =
    fill_node left (i + 1) base node make
      (set_entry t node (u8 (base + i)) (make (t.node_pool node (u8 (base + i)))))

-- The entries of a partial byte, `remaining` bits of it.
unfoldable pub fill_partial : Bytes → ℕ → ℕ → ℕ → (Entry → Entry) → Trie → Trie
fill_partial p len depth node make t =
    fill_node (1 <<< (8 - remaining)) 0 (bit_and (p (depth >>> 3)) mask) node make t
  where
    remaining : ℕ
    remaining = u8 (len - depth)

    mask : ℕ
    mask = u8 (not32 ((1 <<< (8 - remaining)) - 1))

-- `child_and_valid |= VALID` with the next hop, and `&= ~VALID` without one.
abbrev pub make_valid : ℕ → Entry → Entry
make_valid nh e = record { child_and_valid = bit_or e.child_and_valid valid_flag; next_hop = nh }

abbrev pub make_invalid : Entry → Entry
make_invalid e = record {
  child_and_valid = bit_and e.child_and_valid (not32 valid_flag);
  next_hop = invalid_next_hop;
}

-- The entry of a complete last byte.
abbrev pub set_valid : ℕ → Entry → Entry
set_valid nh e = record {
  child_and_valid = bit_or (bit_and e.child_and_valid child_mask) valid_flag;
  next_hop = nh;
}
