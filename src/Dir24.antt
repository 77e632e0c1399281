-- ===== src/Dir24.antt =====
-- src/dir24/core.c and src/dir24/single.c: the IPv4 table of 2^24 entries, with groups of 256
-- entries (tbl8) for the prefixes longer than 24 bits.
pub mod Lookup
pub mod Index
pub mod Store
pub mod Valid
pub mod Answer
pub mod Cover
pub mod Short
pub mod Long
pub mod Extend
pub mod Extended
pub mod Add
pub mod Create
pub mod Correct
pub mod Lpm
pub mod Delete
pub mod Effects
pub mod Refusal
pub mod Reach
use liblpm.Base.{
  ℕ, zero, suc, ◌+◌, ◌-◌, ◌*◌, true, false, ◌&&◌, bit_and, bit_or, ltb, leb, ◌==◌, if◌then◌else◌,
  Option, none, some,
}
use liblpm.Word.{u8, u32, u64, not32, ◌<<<◌, test, invalid_next_hop, valid_flag, ext_flag, nh_mask}
use liblpm.Trie.{Table, Bytes, write, Status, ok, failed, Trie, Allocator}

abbrev pub dir24_size : ℕ
dir24_size = 1 <<< 24

abbrev pub default_groups : ℕ
default_groups = 256

abbrev pub group_entries : ℕ
group_entries = 256

-- The groups after `realloc` and the `memset` of the new ones.
unfoldable pub grown_groups : Trie → ℕ → Table
grown_groups t new_groups j =
    if leb (t.tbl8_num_groups * group_entries) j && ltb j (new_groups * group_entries)
    then 0
    else t.tbl8_groups j

-- `tbl8_group_alloc`: the group, or none for -1, and the trie with the array grown.
unfoldable pub tbl8_group_alloc : Allocator → Trie → Option ℕ × Trie
tbl8_group_alloc al t =
    if leb t.tbl8_num_groups t.tbl8_groups_used
    then grow
    else (some t.tbl8_groups_used, record t { tbl8_groups_used = u32 (t.tbl8_groups_used + 1) })
  where
    new_groups : ℕ
    new_groups = u32 (t.tbl8_num_groups * 2)

    grow : Option ℕ × Trie
    grow =
        if al.grants (new_groups * group_entries * 4)
        then (
          some t.tbl8_groups_used,
          record t {
            tbl8_groups = grown_groups t new_groups;
            tbl8_num_groups = new_groups;
            tbl8_groups_used = u32 (t.tbl8_groups_used + 1);
          },
        )
        else (none, t)

-- The index of the dir24 entry of an address.
unfoldable pub dir24_index : Bytes → ℕ
dir24_index p = bit_or (bit_or (p 0 <<< 16) (p 1 <<< 8)) (p 2)

-- The first dir24 entry that a prefix of at most 24 bits covers.
unfoldable pub base_index : Bytes → ℕ → ℕ
base_index p len = if ltb len 24 then bit_and joined (not32 ((1 <<< (24 - len)) - 1)) else joined
  where
    upper : ℕ
    upper = bit_or (p 0 <<< 16) (p 1 <<< 8)

    joined : ℕ
    joined = if leb 16 len then bit_or upper (p 2) else upper

-- The loop over the entries of a prefix of at most 24 bits: `left` rounds from `i` on. An entry
-- that is extended to a group stays.
unfoldable pub fill_entries : ℕ → ℕ → ℕ → ℕ → Table → Table
fill_entries zero i base v table = table
fill_entries (suc left) i base v table = fill_entries left (i + 1) base v stored
  where
    idx : ℕ
    idx = u32 (base + i)

    stored : Table
    stored = if test (table idx) ext_flag then table else write table idx v

-- `for (i = 0; i < count; i++) tbl8[i] = v`, over the group whose first entry is `start`.
unfoldable pub fill_group : ℕ → ℕ → ℕ → ℕ → Table → Table
fill_group zero i start v groups = groups
fill_group (suc left) i start v groups =
    fill_group left (i + 1) start v (write groups (start + i) v)

-- The loop over the entries of a partial last byte: the index is a `uint8_t`.
unfoldable pub fill_partial : ℕ → ℕ → ℕ → ℕ → ℕ → Table → Table
fill_partial zero i start base v groups = groups
fill_partial (suc left) i start base v groups =
    fill_partial left (i + 1) start base v (write groups (start + u8 (base + i)) v)

-- What stands in a group for a prefix longer than 24 bits: `v` is stored into each entry.
unfoldable pub store_in_group : ℕ → Bytes → ℕ → ℕ → Table → Table
store_in_group group p len v groups =
    if remaining == 8
    then write groups (start + p 3) v
    else fill_partial (1 <<< (8 - remaining)) 0 start (bit_and (p 3) mask) v groups
  where
    start : ℕ
    start = group * group_entries

    remaining : ℕ
    remaining = u8 (len - 24)

    mask : ℕ
    mask = u8 (not32 ((1 <<< (8 - remaining)) - 1))

-- `num_prefixes++` and the success of the caller.
unfoldable pub count_added : Trie → Status × Trie
count_added t = (ok, record t { num_prefixes = u64 (t.num_prefixes + 1) })

-- `if (num_prefixes > 0) num_prefixes--`
unfoldable pub count_deleted : Trie → Status × Trie
count_deleted t =
    (ok, if ltb 0 t.num_prefixes then record t { num_prefixes = t.num_prefixes - 1 } else t)

-- A new group takes over the next hop of its dir24 entry.
unfoldable pub inherit : ℕ → ℕ → Table → Table
inherit data_word group groups =
    if test data_word valid_flag
    then fill_group group_entries 0 (group * group_entries) (bit_or valid_flag parent_nh) groups
    else groups
  where
    parent_nh : ℕ
    parent_nh = bit_and data_word nh_mask

-- The route of a prefix longer than 24 bits, stored into its group.
unfoldable pub store_long : Bytes → ℕ → ℕ → ℕ → Trie → Status × Trie
store_long p len next_hop group t = count_added (record t {
  tbl8_groups = store_in_group group p len (bit_or valid_flag next_hop) t.tbl8_groups;
})

-- The dir24 entry at `idx`, which held `data_word`, is extended to a new group.
abbrev pub extend_entry : ℕ → ℕ → ℕ → Trie → Trie
extend_entry idx data_word group t = record t {
  tbl8_groups = inherit data_word group t.tbl8_groups;
  dir24_table = write t.dir24_table idx (bit_or (bit_or valid_flag ext_flag) group);
}

unfoldable pub add_new_group : Bytes → ℕ → ℕ → ℕ → Option ℕ × Trie → Status × Trie
add_new_group p len next_hop data_word (none, t) = (failed, t)
add_new_group p len next_hop data_word (some group, t) =
    store_long p len next_hop group (extend_entry (dir24_index p) data_word group t)

-- A prefix longer than 24 bits goes to the group of its dir24 entry, which is made if need be.
unfoldable pub add_long : Allocator → Trie → Bytes → ℕ → ℕ → Status × Trie
add_long al t p len next_hop =
    if test data_word ext_flag
    then store_long p len next_hop (bit_and data_word nh_mask) t
    else add_new_group p len next_hop data_word (tbl8_group_alloc al t)
  where
    data_word : ℕ
    data_word = t.dir24_table (dir24_index p)

unfoldable pub add_short : Trie → Bytes → ℕ → ℕ → Status × Trie
add_short t p len next_hop = count_added (record t {
  dir24_table =
      fill_entries (1 <<< (24 - len)) 0 (base_index p len) (bit_or valid_flag next_hop)
        t.dir24_table;
})

-- `lpm_add_ipv4_dir24`
unfoldable pub add_ipv4_dir24 : Allocator → Trie → Bytes → ℕ → ℕ → Status × Trie
add_ipv4_dir24 al t p len next_hop =
    if ltb 32 len then (failed, t) else if t.has_dir24_table then accepted else (failed, t)
  where
    default_route : Status × Trie
    default_route = count_added (record t { has_default_route = true; default_next_hop = next_hop })

    accepted : Status × Trie
    accepted =
        if test next_hop 0xc000_0000
        then (failed, t)
        else if len == 0
        then default_route
        else if leb len 24
        then add_short t p len next_hop
        else add_long al t p len next_hop

unfoldable pub delete_long : Trie → Bytes → ℕ → Status × Trie
delete_long t p len =
    if test data_word ext_flag
    then count_deleted (record t {
      tbl8_groups = store_in_group (bit_and data_word nh_mask) p len 0 t.tbl8_groups;
    })
    else count_deleted (record t { dir24_table = write t.dir24_table idx 0 })
  where
    idx : ℕ
    idx = dir24_index p

    data_word : ℕ
    data_word = t.dir24_table idx

-- `lpm_delete_ipv4_dir24`
unfoldable pub delete_ipv4_dir24 : Trie → Bytes → ℕ → Status × Trie
delete_ipv4_dir24 t p len =
    if ltb 32 len then (failed, t) else if t.has_dir24_table then accepted else (failed, t)
  where
    accepted : Status × Trie
    accepted =
        if len == 0
        then count_deleted
            (record t { has_default_route = false; default_next_hop = invalid_next_hop })
        else if leb len 24
        then count_deleted (record t {
          dir24_table = fill_entries (1 <<< (24 - len)) 0 (base_index p len) 0 t.dir24_table;
        })
        else delete_long t p len
