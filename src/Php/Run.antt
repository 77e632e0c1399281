-- ===== src/Php/Run.antt =====
-- Sequences of calls on one table of the PHP extension.
use liblpm.Base.{ℕ, ◌≡◌, refl, Option-cases, none, some, List, [], ◌∷◌, ◌⊎◌, inl, inr}
use liblpm.Simd.{SimdLevel}
use liblpm.Trie.{Bytes, Table, Trie, Allocator}
use liblpm.Lua.Text.{Text}
use liblpm.Php.Prefix.{Pton}
use liblpm.Php.Table.{
  PhpTable, ZendLong, plain, php_long, Reply, operation_error, returned, returned_nothing, warned,
  open_trie, insert, remove, php_lookup, php_lookup_batch, php_size, close,
}
use liblpm.Php.Methods.{
  table_ipv4_insert, table_ipv6_insert, lpm_insert, table_ipv4_delete, table_ipv6_delete,
  lpm_delete, table_ipv4_lookup, table_ipv6_lookup, lpm_lookup, table_ipv4_lookup_batch,
  table_ipv6_lookup_batch, lpm_lookup_batch,
}

-- The calls that a script can make.
pub data Call : Type 0 where
  insert_call : Text → ZendLong → Call
  remove_call : Text → Call
  lookup_call : Text → Call
  batch_call : Table → List Text → Call
  size_call : Call
  close_call : Call

-- How the table is used: as an object of one of the classes, or as a resource.
pub data Face : Type 0 where
  table_ipv4 : Face
  table_ipv6 : Face
  resource : Face

abbrev pub complaint : Face → Reply
complaint table_ipv4 = operation_error
complaint table_ipv6 = operation_error
complaint resource = warned

-- What a call replies on a table without a trie.
abbrev pub refusal : Face → Call → Reply
refusal face size_call = returned (php_long (plain 0))
refusal face close_call = returned_nothing
refusal face (insert_call prefix next_hop) = complaint face
refusal face (remove_call prefix) = complaint face
refusal face (lookup_call text) = complaint face
refusal face (batch_call results texts) = complaint face

abbrev pub refusals : Face → List Call → List Reply
refusals face [] = []
refusals face (c ∷ calls) = refusal face c ∷ refusals face calls

-- Once closed, or never made.
no_trie :
    (table : PhpTable)
    → (open_trie table ≡ none) ⊎ ((t : Trie) × (open_trie table ≡ some t))
    → open_trie (close table) ≡ none
unfolding close
no_trie table (inl e) = rw (close, e) e
no_trie table (inr (t, e)) = rw (close, e) refl

module _ (al : Allocator) (stale : ℕ → Bytes) (stray : ℕ → ℕ) (level : SimdLevel)
    (pton : Pton) where
  abbrev insert_by : Face → PhpTable → Text → ZendLong → Reply × PhpTable
  insert_by table_ipv4 = table_ipv4_insert al pton
  insert_by table_ipv6 = table_ipv6_insert al pton
  insert_by resource = lpm_insert al pton

  abbrev delete_by : Face → PhpTable → Text → Reply × PhpTable
  delete_by table_ipv4 = table_ipv4_delete pton
  delete_by table_ipv6 = table_ipv6_delete pton
  delete_by resource = lpm_delete pton

  abbrev lookup_by : Face → PhpTable → Text → Reply
  lookup_by table_ipv4 = table_ipv4_lookup level pton
  lookup_by table_ipv6 = table_ipv6_lookup level pton
  lookup_by resource = lpm_lookup level pton

  abbrev batch_by : Face → Table → PhpTable → List Text → Reply
  batch_by table_ipv4 = table_ipv4_lookup_batch al stale stray level pton
  batch_by table_ipv6 = table_ipv6_lookup_batch al stale stray level pton
  batch_by resource = lpm_lookup_batch al stale stray level pton

  unfoldable pub call : Face → Call → PhpTable → Reply × PhpTable
  call face (insert_call prefix next_hop) table = insert_by face table prefix next_hop
  call face (remove_call prefix) table = delete_by face table prefix
  call face (lookup_call text) table = (lookup_by face table text, table)
  call face (batch_call results texts) table = (batch_by face results table texts, table)
  call face size_call table = (returned (php_size table), table)
  call face close_call table = (returned_nothing, close table)

  -- The replies, and the table in the end.
  unfoldable pub run : Face → List Call → PhpTable → List Reply × PhpTable
  unfolding call
  run face [] table = ([], table)
  run face (c ∷ calls) table =
      let (replies, last) = run face calls (call face c table).1 in
      ((call face c table).0 ∷ replies, last)

  call-refused :
      (face : Face) (c : Call) (table : PhpTable)
      → open_trie table ≡ none
      → call face c table ≡ (refusal face c, table)
  unfolding call insert remove php_lookup php_lookup_batch php_size close
  call-refused table_ipv4 (insert_call prefix next_hop) table e = rw (call, insert, e) refl
  call-refused table_ipv6 (insert_call prefix next_hop) table e = rw (call, insert, e) refl
  call-refused resource (insert_call prefix next_hop) table e = rw (call, insert, e) refl
  call-refused table_ipv4 (remove_call prefix) table e = rw (call, remove, e) refl
  call-refused table_ipv6 (remove_call prefix) table e = rw (call, remove, e) refl
  call-refused resource (remove_call prefix) table e = rw (call, remove, e) refl
  call-refused table_ipv4 (lookup_call text) table e = rw (call, php_lookup, e) refl
  call-refused table_ipv6 (lookup_call text) table e = rw (call, php_lookup, e) refl
  call-refused resource (lookup_call text) table e = rw (call, php_lookup, e) refl
  call-refused table_ipv4 (batch_call results texts) table e = rw (call, php_lookup_batch, e) refl
  call-refused table_ipv6 (batch_call results texts) table e = rw (call, php_lookup_batch, e) refl
  call-refused resource (batch_call results texts) table e = rw (call, php_lookup_batch, e) refl
  call-refused face size_call table e = rw (call, php_size, e) refl
  call-refused face close_call table e = rw (call, close, e) refl

  run-refused :
      (face : Face) (calls : List Call) (table : PhpTable)
      → open_trie table ≡ none
      → run face calls table ≡ (refusals face calls, table)
  unfolding run
  run-refused face [] table e = refl
  run-refused face (c ∷ calls) table e =
      rw (call-refused face c table e) (rw (run-refused face calls table e) refl)

  -- After `close`, whatever the table was before, and whether it is an object or a resource, no
  -- sequence of calls gets at a trie: each insert, delete and lookup is refused, the size is 0, a
  -- second close does nothing, and the table stays as it is.
  pub run-close :
      (face : Face) (calls : List Call) (table : PhpTable)
      → run face calls (close table) ≡ (refusals face calls, close table)
  run-close face calls table =
      run-refused face calls (close table) (no_trie table (Option-cases (open_trie table)))
