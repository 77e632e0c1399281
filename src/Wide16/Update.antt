-- ===== src/Wide16/Update.antt =====
-- src/wide16/core.c: adding and deleting a prefix.
use liblpm.Base.{
  ℕ, zero, suc, ◌+◌, ◌-◌, ◌/◌, Bool, true, false, not, ◌||◌, ◌==◌, ltb, if◌then◌else◌,
}
use liblpm.Word.{test, wide_node_flag, invalid_index, invalid_next_hop, ipv6_max_depth}
use liblpm.Trie.{Bytes, Entry, Trie, Allocator, Status, failed}
use liblpm.Stride8.{child_of, count_added, count_deleted, make_valid, make_invalid}
use liblpm.Stride8.Update.{add_from, delete_from}
use liblpm.Wide16.{
  wide_stride_levels, wide_index, set_wide_entry, fill_wide_partial, open_wide_child,
}

abbrev pub no_update : Trie → Trie
no_update t = t

-- The levels of 16 bits, `left` of them to go, and the loop over the bytes after them.
module _ (al : Allocator) (p : Bytes) (len nh : ℕ) where
  unfoldable pub add_levels : ℕ → ℕ → ℕ → ℕ → Trie → Status × Trie
  unfolding add_from
  add_levels zero level depth node t =
      add_from al (make_valid nh) p len nh no_update ((len - depth) / 8) depth node t
  add_levels (suc left) level depth node t =
      let rest =
        add_levels left (level + 1) (depth + 16)
          (open_wide_child al level node (wide_index p level) t).0
          (open_wide_child al level node (wide_index p level) t).1 in
      let bytes = add_from al (make_valid nh) p len nh no_update ((len - depth) / 8) depth node t in
      if not (ltb depth len)
      then bytes
      else if ltb len (depth + 16)
      then count_added (fill_wide_partial p len level depth node (make_valid nh) t)
      else if depth + 16 == len
      then count_added (
          set_wide_entry t node (wide_index p level)
            (make_valid nh (t.wide_nodes_pool node (wide_index p level))))
      else if (open_wide_child al level node (wide_index p level) t).0 == invalid_index
      then (failed, (open_wide_child al level node (wide_index p level) t).1)
      else rest

-- `lpm_add_ipv6_wide16`
unfoldable pub add_ipv6_wide16 : Allocator → Trie → Bytes → ℕ → ℕ → Status × Trie
unfolding add_levels
add_ipv6_wide16 al t p len nh =
    if ltb ipv6_max_depth len
    then (failed, t)
    else if len == 0
    then count_added (record t { has_default_route = true; default_next_hop = nh })
    else add_levels al p len nh wide_stride_levels 0 0 t.root_idx t

-- An entry with a child. A wide child may have index 0.
abbrev pub has_child : Entry → Bool
has_child e = not (child_of e == 0) || test e.child_and_valid wide_node_flag

module _ (p : Bytes) (len : ℕ) where
  unfoldable pub delete_levels : ℕ → ℕ → ℕ → ℕ → Trie → Status × Trie
  unfolding delete_from
  delete_levels zero level depth node t = delete_from p len ((len - depth) / 8) depth node t
  delete_levels (suc left) level depth node t =
      let rest =
        delete_levels left (level + 1) (depth + 16)
          (child_of (t.wide_nodes_pool node (wide_index p level))) t in
      let bytes = delete_from p len ((len - depth) / 8) depth node t in
      if not (ltb depth len)
      then bytes
      else if ltb len (depth + 16)
      then count_deleted (fill_wide_partial p len level depth node make_invalid t)
      else if depth + 16 == len
      then count_deleted (
          set_wide_entry t node (wide_index p level)
            (make_invalid (t.wide_nodes_pool node (wide_index p level))))
      else if not (has_child (t.wide_nodes_pool node (wide_index p level)))
      then (failed, t)
      else rest

-- `lpm_delete_ipv6_wide16`
unfoldable pub delete_ipv6_wide16 : Trie → Bytes → ℕ → Status × Trie
unfolding delete_levels
delete_ipv6_wide16 t p len =
    if ltb ipv6_max_depth len
    then (failed, t)
    else if len == 0
    then count_deleted (record t { has_default_route = false; default_next_hop = invalid_next_hop })
    else delete_levels p len wide_stride_levels 0 0 t.root_idx t
