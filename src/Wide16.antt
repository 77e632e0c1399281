-- ===== src/Wide16.antt =====
-- src/wide16/core.c: the IPv6 trie whose first level has a stride of 16 bits. Below it the
-- code has the loops of the tries of 8-bit strides.
pub mod Lookup
pub mod Variants
pub mod Update
pub mod Hook
pub mod Entries
pub mod Valid
pub mod Paint
pub mod Open
pub mod Fill
pub mod Effect
pub mod Add
pub mod Remove
pub mod Search
pub mod Fresh
pub mod Lpm
pub mod Reach
use liblpm.Base.{
  ℕ, zero, suc, ◌+◌, ◌-◌, ◌*◌, true, false, ◌&&◌, ltb, ◌==◌, if◌then◌else◌, bit_and, bit_or, Option,
  none, some,
}
use liblpm.Word.{u8, u16, not32, ◌<<<◌, valid_flag, wide_node_flag, invalid_index, ipv6_max_depth}
use liblpm.Trie.{Bytes, Entry, Trie, Allocator, write, trie_bytes}
use liblpm.Pool.{node_alloc, wide_node_alloc, node_bytes, wide_node_bytes}
use liblpm.Stride8.{child_of}
use liblpm.Stride8.Create.{initial_pool_size, pooled, with_hot_cache}

-- `LPM_IPV6_WIDE_STRIDE_LEVELS`
abbrev pub wide_stride_levels : ℕ
wide_stride_levels = 1

abbrev with_wide_root : ℕ × Trie → Trie
with_wide_root (root, t) = record t { root_idx = root }

-- `lpm_create_ipv6_wide16`
unfoldable pub create_ipv6_wide16 : Allocator → Option Trie
create_ipv6_wide16 al =
    if al.grants trie_bytes
      && al.grants (initial_pool_size * node_bytes)
      && al.grants (16 * wide_node_bytes)
    then some (
        with_hot_cache al (
          with_wide_root (
            wide_node_alloc al (record (pooled al ipv6_max_depth) {
              use_ipv6_wide_stride = true;
              has_wide_nodes_pool = true;
              wide_nodes_pool = al.fresh;
              wide_pool_capacity = 16;
              wide_pool_used = 0;
            }))))
    else none

-- The 16-bit index of a level.
abbrev pub wide_index : Bytes → ℕ → ℕ
wide_index p level = bit_or (p (level * 2) <<< 8) (p (level * 2 + 1))

-- `wide_nodes_pool[n].entries[i] = e`
abbrev pub set_wide_entry : Trie → ℕ → ℕ → Entry → Trie
set_wide_entry t n i e = record t {
  wide_nodes_pool = write t.wide_nodes_pool n (write (t.wide_nodes_pool n) i e);
}

-- The loop over the entries of a partial level.
unfoldable pub fill_wide_node : ℕ → ℕ → ℕ → ℕ → (Entry → Entry) → Trie → Trie
fill_wide_node zero i base node make t = t
fill_wide_node (suc left) i base node make t =
    fill_wide_node left (i + 1) base node make
      (set_wide_entry t node (u16 (base + i)) (make (t.wide_nodes_pool node (u16 (base + i)))))

-- The entries of a partial level, `remaining` bits of it.
unfoldable pub fill_wide_partial : Bytes → ℕ → ℕ → ℕ → ℕ → (Entry → Entry) → Trie → Trie
fill_wide_partial p len level depth node make t =
    fill_wide_node (1 <<< (16 - remaining)) 0
      (u16 (bit_and (wide_index p level) (not32 ((1 <<< (16 - remaining)) - 1)))) node make t
  where
    remaining : ℕ
    remaining = u8 (len - depth)

-- The node for the next level: wide if that level is, else of 256 entries.
unfoldable pub next_node_alloc : Allocator → ℕ → Trie → ℕ × Trie
next_node_alloc al level t =
    if ltb (level + 1) wide_stride_levels then wide_node_alloc al t else node_alloc al t

-- The flags of the new link, from the word that stood there before.
unfoldable pub link_flags : ℕ → ℕ → ℕ
link_flags level word =
    if ltb (level + 1) wide_stride_levels
    then bit_or (bit_and word valid_flag) wide_node_flag
    else bit_and word valid_flag

-- The child under an entry of a wide node, made if need be; 0 if that fails.
unfoldable pub open_wide_child : Allocator → ℕ → ℕ → ℕ → Trie → ℕ × Trie
open_wide_child al level node index t =
    if child_of (t.wide_nodes_pool node index) == invalid_index
    then (if c == invalid_index then (c, u) else (c, linked))
    else (child_of (t.wide_nodes_pool node index), t)
  where
    c : ℕ
    c = (next_node_alloc al level t).0

    u : Trie
    u = (next_node_alloc al level t).1

    linked : Trie
    linked = set_wide_entry u node index (record (u.wide_nodes_pool node index) {
      child_and_valid = bit_or (link_flags level (t.wide_nodes_pool node index).child_and_valid) c;
    })
