-- ===== src/Stride8/Update.antt =====
-- src/4stride8/core.c and src/6stride8/core.c: adding and deleting a prefix.
use liblpm.Base.{ℕ, zero, suc, ◌+◌, ◌/◌, true, false, ◌==◌, ltb, if◌then◌else◌}
use liblpm.Word.{◌>>>◌, invalid_index, invalid_next_hop, ipv4_max_depth, ipv6_max_depth}
use liblpm.Trie.{Bytes, Entry, Trie, Allocator, Status, failed}
use liblpm.Stride8.{
  set_entry, child_of, clear_cache, count_added, count_deleted, direct_table_update, open_child,
  fill_partial, make_valid, make_invalid, set_valid,
}

-- The body of an add below the default route. `rounds` complete bytes of the prefix are left, so
-- that the loop's test `depth + 8 <= prefix_len` holds while `rounds` is not 0.
-- `finish` sets the entry of a complete last byte.
module _ (al : Allocator) (finish : Entry → Entry) (p : Bytes) (len nh : ℕ)
    (update : Trie → Trie) where
  unfoldable pub add_from : ℕ → ℕ → ℕ → Trie → Status × Trie
  add_from zero depth node t =
      if ltb depth len
      then count_added (update (fill_partial p len depth node (make_valid nh) t))
      else count_added t
  add_from (suc rounds) depth node t =
      let rest =
        add_from rounds (depth + 8) (open_child al node (p (depth >>> 3)) t).0
          (open_child al node (p (depth >>> 3)) t).1 in
      if depth + 8 == len
      then count_added (
          update (set_entry t node (p (depth >>> 3)) (finish (t.node_pool node (p (depth >>> 3))))))
      else if (open_child al node (p (depth >>> 3)) t).0 == invalid_index
      then (failed, (open_child al node (p (depth >>> 3)) t).1)
      else rest

-- `lpm_add_ipv4_8stride` and `lpm_add_ipv6_8stride`, by the greatest length and the direct table.
unfoldable pub add_8stride :
    ℕ → (Bytes → ℕ → ℕ → Trie → Trie) → Allocator → Trie → Bytes → ℕ → ℕ → Status × Trie
add_8stride max_len direct al t p len nh =
    if ltb max_len len
    then (failed, t)
    else if len == 0
    then count_added (record (clear_cache t) { default_next_hop = nh; has_default_route = true })
    else add_from al (set_valid nh) p len nh (direct p len nh) (len / 8) 0 t.root_idx
        (clear_cache t)

abbrev pub no_direct_table : Bytes → ℕ → ℕ → Trie → Trie
no_direct_table p len nh t = t

unfoldable pub add_ipv4_8stride : Allocator → Trie → Bytes → ℕ → ℕ → Status × Trie
unfolding add_8stride
add_ipv4_8stride = add_8stride ipv4_max_depth direct_table_update

unfoldable pub add_ipv6_8stride : Allocator → Trie → Bytes → ℕ → ℕ → Status × Trie
unfolding add_8stride
add_ipv6_8stride = add_8stride ipv6_max_depth no_direct_table

-- The body of a delete below the default route, with `rounds` complete bytes left.
module _ (p : Bytes) (len : ℕ) where
  unfoldable pub delete_from : ℕ → ℕ → ℕ → Trie → Status × Trie
  delete_from zero depth node t =
      if ltb depth len
      then count_deleted (fill_partial p len depth node make_invalid t)
      else count_deleted t
  delete_from (suc rounds) depth node t =
      let rest = delete_from rounds (depth + 8) (child_of (t.node_pool node (p (depth >>> 3)))) t in
      if depth + 8 == len
      then count_deleted
          (set_entry t node (p (depth >>> 3)) (make_invalid (t.node_pool node (p (depth >>> 3)))))
      else if child_of (t.node_pool node (p (depth >>> 3))) == invalid_index
      then (failed, t)
      else rest

-- `lpm_delete_ipv4_8stride` and `lpm_delete_ipv6_8stride`, by the greatest length.
unfoldable pub delete_8stride : ℕ → Trie → Bytes → ℕ → Status × Trie
delete_8stride max_len t p len =
    if ltb max_len len
    then (failed, t)
    else if len == 0
    then count_deleted
        (record (clear_cache t) { has_default_route = false; default_next_hop = invalid_next_hop })
    else delete_from p len (len / 8) 0 t.root_idx (clear_cache t)

unfoldable pub delete_ipv4_8stride : Trie → Bytes → ℕ → Status × Trie
unfolding delete_8stride
delete_ipv4_8stride = delete_8stride ipv4_max_depth

unfoldable pub delete_ipv6_8stride : Trie → Bytes → ℕ → Status × Trie
unfolding delete_8stride
delete_ipv6_8stride = delete_8stride ipv6_max_depth
