-- ===== src/Php/Methods.antt =====
-- src/bindings/php/liblpm.c: the methods of the two classes, and the functions on a resource, which
-- is taken to be one of the extension.
use liblpm.Base.{ℕ, true, false, Option, List}
use liblpm.Simd.{SimdLevel}
use liblpm.Trie.{Bytes, Table, Allocator}
use liblpm.Lua.Text.{Text}
use liblpm.Php.Prefix.{Pton}
use liblpm.Php.Table.{
  PhpTable, ZendLong, Reply, returned, returned_array, returned_nothing, operation_error,
  prefix_error, warned, construct, create_resource, insert, remove, php_lookup, php_lookup_batch,
}

-- The functions on a resource do not throw.
abbrev pub as_warning : Reply → Reply
as_warning operation_error = warned
as_warning prefix_error = warned
as_warning (returned v) = returned v
as_warning (returned_array vs) = returned_array vs
as_warning returned_nothing = returned_nothing
as_warning warned = warned

module _ (al : Allocator) where
  abbrev pub table_ipv4_construct : ZendLong → Reply × PhpTable
  table_ipv4_construct = construct al false

  abbrev pub table_ipv6_construct : ZendLong → Reply × PhpTable
  table_ipv6_construct = construct al true

  abbrev pub lpm_create_ipv4 : ZendLong → Option PhpTable
  lpm_create_ipv4 = create_resource al false

  abbrev pub lpm_create_ipv6 : ZendLong → Option PhpTable
  lpm_create_ipv6 = create_resource al true

module _ (al : Allocator) (pton : Pton) where
  abbrev pub table_ipv4_insert : PhpTable → Text → ZendLong → Reply × PhpTable
  table_ipv4_insert = insert al pton false

  abbrev pub table_ipv6_insert : PhpTable → Text → ZendLong → Reply × PhpTable
  table_ipv6_insert = insert al pton true

  abbrev pub lpm_insert : PhpTable → Text → ZendLong → Reply × PhpTable
  lpm_insert table prefix next_hop = (
    as_warning (insert al pton table.is_ipv6 table prefix next_hop).0,
    (insert al pton table.is_ipv6 table prefix next_hop).1,
  )

module _ (pton : Pton) where
  abbrev pub table_ipv4_delete : PhpTable → Text → Reply × PhpTable
  table_ipv4_delete = remove pton false

  abbrev pub table_ipv6_delete : PhpTable → Text → Reply × PhpTable
  table_ipv6_delete = remove pton true

  abbrev pub lpm_delete : PhpTable → Text → Reply × PhpTable
  lpm_delete table prefix = (
    as_warning (remove pton table.is_ipv6 table prefix).0,
    (remove pton table.is_ipv6 table prefix).1,
  )

module _ (level : SimdLevel) (pton : Pton) where
  abbrev pub table_ipv4_lookup : PhpTable → Text → Reply
  table_ipv4_lookup = php_lookup level pton false

  abbrev pub table_ipv6_lookup : PhpTable → Text → Reply
  table_ipv6_lookup = php_lookup level pton true

  abbrev pub lpm_lookup : PhpTable → Text → Reply
  lpm_lookup table text = as_warning (php_lookup level pton table.is_ipv6 table text)

module _ (al : Allocator) (stale : ℕ → Bytes) (stray : ℕ → ℕ) (level : SimdLevel)
    (pton : Pton) where
  abbrev pub table_ipv4_lookup_batch : Table → PhpTable → List Text → Reply
  table_ipv4_lookup_batch = php_lookup_batch al stale stray level pton false

  abbrev pub table_ipv6_lookup_batch : Table → PhpTable → List Text → Reply
  table_ipv6_lookup_batch = php_lookup_batch al stale stray level pton true

  abbrev pub lpm_lookup_batch : Table → PhpTable → List Text → Reply
  lpm_lookup_batch results table texts =
      as_warning (php_lookup_batch al stale stray level pton table.is_ipv6 results table texts)
