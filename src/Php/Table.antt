-- ===== src/Php/Table.antt =====
-- src/bindings/php/liblpm.c: the methods of LpmTableIPv4 and LpmTableIPv6, and the functions on a
-- resource, by the kind of the addresses. They do the same, but that a method throws where the
-- function on a resource warns and returns false; see Methods.
use liblpm.Base.{
  ℕ, zero, suc, ◌+◌, ◌-◌, ◌^◌, Bool, true, false, ◌==◌, ltb, if◌then◌else◌, Option, none, some,
  List, [], ◌∷◌, length,
}
use liblpm.Word.{invalid_next_hop}
use liblpm.Simd.{SimdLevel}
use liblpm.Trie.{Bytes, Table, Trie, Allocator, Status, ok, failed}
use liblpm.Dir24.Index.{word}
use liblpm.Dir24.Create.{create_ipv4_dir24}
use liblpm.Stride8.Create.{create_ipv4_8stride, create_ipv6_8stride}
use liblpm.Wide16.{create_ipv6_wide16}
use liblpm.Api.{add, delete}
use liblpm.Api.Lookup.{lookup_ipv4, lookup_ipv6}
use liblpm.Api.Batch.{lookup_batch_ipv4, lookup_batch_ipv6}
use liblpm.Lua.Text.{Text}
use liblpm.Php.Prefix.{Pton, parse_addr, parse_prefix}

-- `liblpm_table_object` and `liblpm_resource`
pub record PhpTable : Type 0 where
  pub trie : Option Trie
  pub is_ipv6 : Bool
  pub closed : Bool

-- A `zend_long`: a number, or the negative of one.
pub data ZendLong : Type 0 where
  plain : ℕ → ZendLong
  negated : ℕ → ZendLong

pub data Value : Type 0 where
  php_false : Value
  php_true : Value
  php_long : ZendLong → Value

-- What a call gives: a value, an array, nothing, an exception of one of the two classes, or false
-- with a warning.
pub data Reply : Type 0 where
  returned : Value → Reply
  returned_array : List Value → Reply
  returned_nothing : Reply
  operation_error : Reply
  prefix_error : Reply
  warned : Reply

-- `(zend_long)` of an unsigned number of 64 bits.
abbrev pub to_zend_long : ℕ → ZendLong
to_zend_long n = if ltb n (2 ^ 63) then plain n else negated (2 ^ 64 - n)

abbrev pub return_bool : Status → Value
return_bool ok = php_true
return_bool failed = php_false

-- A next hop, or false where there is none.
abbrev pub hop_value : ℕ → Value
hop_value r = if r == invalid_next_hop then php_false else php_long (plain r)

-- `closed || !trie`
abbrev pub open_trie : PhpTable → Option Trie
open_trie table = if table.closed then none else table.trie

-- The trie that the constructor of a class makes for an algorithm; none for an unknown one.
abbrev pub create_for : Allocator → Bool → ZendLong → Option (Option Trie)
create_for al is_ipv6 (plain n) =
    if n == 0
    then some (if is_ipv6 then create_ipv6_wide16 al else create_ipv4_dir24 al)
    else if n == 1
    then some (if is_ipv6 then create_ipv6_8stride al else create_ipv4_8stride al)
    else none
create_for al is_ipv6 (negated zero) =
    some (if is_ipv6 then create_ipv6_wide16 al else create_ipv4_dir24 al)
create_for al is_ipv6 (negated (suc n)) = none

-- `__construct`, by the algorithm and the class.
unfoldable pub construct : Allocator → Bool → ZendLong → Reply × PhpTable
construct al is_ipv6 algorithm = elim (create_for al is_ipv6 algorithm) [
  | none ↦ (operation_error, record { trie = none; is_ipv6 = is_ipv6; closed = false })
  | some none ↦ (operation_error, record { trie = none; is_ipv6 = is_ipv6; closed = false })
  | some (some t) ↦ (returned_nothing, record { trie = some t; is_ipv6 = is_ipv6; closed = false })
]

-- A next hop that fits in 32 bits.
abbrev pub hop_in_range : ZendLong → Option ℕ
hop_in_range (plain n) = if ltb (2 ^ 32 - 1) n then none else some n
hop_in_range (negated zero) = some 0
hop_in_range (negated (suc n)) = none

module _ (al : Allocator) (pton : Pton) (is_ipv6 : Bool) where
  -- `insert` of the class, and `lpm_insert` of a resource of that kind
  unfoldable pub insert : PhpTable → Text → ZendLong → Reply × PhpTable
  insert table prefix next_hop = elim (open_trie table) [
    | none ↦ (operation_error, table)
    | some t ↦ elim (parse_prefix pton is_ipv6 prefix) [
      | none ↦ (prefix_error, table)
      | some (addr, len) ↦ elim (hop_in_range next_hop) [
        | none ↦ (prefix_error, table)
        | some nh ↦ (
          returned (return_bool (add al (some t) (some addr) len nh).0),
          record table { trie = (add al (some t) (some addr) len nh).1 },
        )
      ]
    ]
  ]

module _ (pton : Pton) (is_ipv6 : Bool) where
  -- `delete` and `lpm_delete`
  unfoldable pub remove : PhpTable → Text → Reply × PhpTable
  remove table prefix = elim (open_trie table) [
    | none ↦ (operation_error, table)
    | some t ↦ elim (parse_prefix pton is_ipv6 prefix) [
      | none ↦ (prefix_error, table)
      | some (addr, len) ↦ (
        returned (return_bool (delete (some t) (some addr) len).0),
        record table { trie = (delete (some t) (some addr) len).1 },
      )
    ]
  ]

module _ (level : SimdLevel) (pton : Pton) (is_ipv6 : Bool) where
  -- `lookup` and `lpm_lookup`
  unfoldable pub php_lookup : PhpTable → Text → Reply
  php_lookup table text = elim (open_trie table) [
    | none ↦ operation_error
    | some t ↦ elim (parse_addr pton is_ipv6 text) [
      | none ↦ prefix_error
      | some addr ↦ returned (
          hop_value (
            if is_ipv6
            then lookup_ipv6 level (some t) (some addr)
            else lookup_ipv4 level (some t) (word addr)))
    ]
  ]

-- The addresses of a batch, up to the first that is none.
unfoldable pub parse_all : (Text → Option Bytes) → List Text → Option (List Bytes)
parse_all parse [] = some []
parse_all parse (s ∷ texts) = elim (parse s) [
  | none ↦ none
  | some addr ↦ elim (parse_all parse texts) [ none ↦ none | some addrs ↦ some (addr ∷ addrs) ]
]

-- An array of addresses as the library gets it; what stands behind it is `behind`.
abbrev pub as_array : Bytes → List Bytes → ℕ → Bytes
as_array behind [] i = behind
as_array behind (a ∷ addrs) i = if i == 0 then a else as_array behind addrs (i - 1)

-- The loop that fills in the array of results: `left` of them from `i` on.
unfoldable pub result_values : ℕ → ℕ → Table → List Value
result_values zero i results = []
result_values (suc left) i results = hop_value (results i) ∷ result_values left (i + 1) results

module _ (al : Allocator) (stale : ℕ → Bytes) (stray : ℕ → ℕ) (level : SimdLevel) (pton : Pton)
    (is_ipv6 : Bool) where
  -- `lookupBatch` and `lpm_lookup_batch`; `results` is what emalloc leaves in the array of results.
  unfoldable pub php_lookup_batch : Table → PhpTable → List Text → Reply
  unfolding parse_all result_values
  php_lookup_batch results table texts = elim (open_trie table) [
    | none ↦ operation_error
    | some t ↦
        if length texts == 0
        then returned_array []
        else elim (parse_all (parse_addr pton is_ipv6) texts) [
          | none ↦ prefix_error
          | some addrs ↦ returned_array (
              result_values (length texts) 0 (
                if is_ipv6
                then lookup_batch_ipv6 al stale stray level (some t)
                    (some (as_array (stale 0) addrs)) results (length texts)
                else lookup_batch_ipv4 al stale stray level (some t)
                    (some (λ i. word (as_array (stale 0) addrs i))) results (length texts)))
        ]
  ]

-- `size` and `lpm_size`
unfoldable pub php_size : PhpTable → Value
php_size table = elim (open_trie table) [
  | none ↦ php_long (plain 0)
  | some t ↦ php_long (to_zend_long t.num_prefixes)
]

-- `close` and `lpm_close`
unfoldable pub close : PhpTable → PhpTable
close table = elim (open_trie table) [
  | none ↦ table
  | some t ↦ record table { trie = none; closed = true }
]

-- `lpm_create_ipv4` and `lpm_create_ipv6`: a resource, or false with a warning.
unfoldable pub create_resource : Allocator → Bool → ZendLong → Option PhpTable
create_resource al is_ipv6 algorithm = elim (create_for al is_ipv6 algorithm) [
  | none ↦ none
  | some none ↦ none
  | some (some t) ↦ some (record { trie = some t; is_ipv6 = is_ipv6; closed = false })
]
