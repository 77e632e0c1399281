-- ===== src/Api.antt =====
-- src/api.c, and `lpm_create` and `lpm_cache_invalidate` of src/core.c: the functions that call the
-- algorithm a trie was made for. A pointer that may be NULL is an Option here.
pub mod Create
pub mod Lookup
pub mod Batch
pub mod Dispatch
pub mod Created
pub mod Agree
use liblpm.Base.{ℕ, true, false, ◌&&◌, ltb, ◌==◌, if◌then◌else◌, Option, none, some}
use liblpm.Word.{ipv4_max_depth, ipv6_max_depth}
use liblpm.Trie.{Bytes, Trie, Allocator, Status, failed}
use liblpm.Dir24.{add_ipv4_dir24, delete_ipv4_dir24}
use liblpm.Stride8.{clear_cache}
use liblpm.Stride8.Update.{
  add_ipv4_8stride, add_ipv6_8stride, delete_ipv4_8stride, delete_ipv6_8stride,
}
use liblpm.Wide16.Update.{add_ipv6_wide16, delete_ipv6_wide16}

-- `lpm_add` once its arguments are there.
unfoldable pub dispatch_add : Allocator → Trie → Bytes → ℕ → ℕ → Status × Trie
dispatch_add al t p len nh =
    if ltb t.max_depth len
    then (failed, t)
    else if t.max_depth == ipv4_max_depth
    then (if t.use_ipv4_dir24 && t.has_dir24_table
        then add_ipv4_dir24 al t p len nh
        else add_ipv4_8stride al t p len nh)
    else if t.max_depth == ipv6_max_depth
    then (if t.use_ipv6_wide_stride && t.has_wide_nodes_pool
        then add_ipv6_wide16 al t p len nh
        else add_ipv6_8stride al t p len nh)
    else (failed, t)

-- `lpm_delete` once its arguments are there.
unfoldable pub dispatch_delete : Trie → Bytes → ℕ → Status × Trie
dispatch_delete t p len =
    if ltb t.max_depth len
    then (failed, t)
    else if t.max_depth == ipv4_max_depth
    then (if t.use_ipv4_dir24 && t.has_dir24_table
        then delete_ipv4_dir24 t p len
        else delete_ipv4_8stride t p len)
    else if t.max_depth == ipv6_max_depth
    then (if t.use_ipv6_wide_stride && t.has_wide_nodes_pool
        then delete_ipv6_wide16 t p len
        else delete_ipv6_8stride t p len)
    else (failed, t)

abbrev stored : Status × Trie → Status × Option Trie
stored (status, t) = (status, some t)

-- `lpm_add`: its status, and the trie that the caller's pointer shows afterwards.
unfoldable pub add : Allocator → Option Trie → Option Bytes → ℕ → ℕ → Status × Option Trie
unfolding dispatch_add
add al none p len nh = (failed, none)
add al (some t) none len nh = (failed, some t)
add al (some t) (some p) len nh = stored (dispatch_add al t p len nh)

-- `lpm_delete`
unfoldable pub delete : Option Trie → Option Bytes → ℕ → Status × Option Trie
unfolding dispatch_delete
delete none p len = (failed, none)
delete (some t) none len = (failed, some t)
delete (some t) (some p) len = stored (dispatch_delete t p len)

-- `lpm_cache_invalidate`
unfoldable pub cache_invalidate : Option Trie → Option Trie
cache_invalidate none = none
cache_invalidate (some t) = some (clear_cache t)
