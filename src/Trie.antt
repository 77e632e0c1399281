-- ===== src/Trie.antt =====
-- `struct lpm_trie` of include/lpm.h with the arrays that it points to, and the allocator.
use liblpm.Base.{ℕ, Bool, false, ◌==◌, if◌then◌else◌}

-- An array of C by its contents; a `uint8_t` array is such a function into numbers below 256.
abbrev pub Table : Type 0
Table = ℕ → ℕ

abbrev pub Bytes : Type 0
Bytes = ℕ → ℕ

-- `a[i] = v`
unfoldable pub write {ℓ} : {A : Type ℓ} → (ℕ → A) → ℕ → A → ℕ → A
write a i v j = if j == i then v else a j

-- The int that the functions return: 0, or -1.
pub data Status : Type 0 where
  ok : Status
  failed : Status

pub record Entry : Type 0 where
  pub child_and_valid : ℕ
  pub next_hop : ℕ

-- A pool of nodes: the entry at a node's index and an index in the node.
abbrev pub Pool : Type 0
Pool = ℕ → ℕ → Entry

pub record DirectEntry : Type 0 where
  pub next_hop : ℕ
  pub node_idx : ℕ
  pub prefix_len : ℕ

pub record CacheEntry : Type 0 where
  pub addr_hash : ℕ
  pub next_hop : ℕ

-- `has_x` says that the pointer `x` is not NULL, for the pointers that the code tests.
pub record Trie : Type 0 where
  pub node_pool : Pool
  pub pool_capacity : ℕ
  pub pool_used : ℕ
  pub has_direct_table : Bool
  pub direct_table : ℕ → DirectEntry
  pub has_hot_cache : Bool
  pub hot_cache : ℕ → CacheEntry
  pub has_wide_nodes_pool : Bool
  pub wide_nodes_pool : Pool
  pub wide_pool_capacity : ℕ
  pub wide_pool_used : ℕ
  pub has_dir24_table : Bool
  pub dir24_table : Table
  pub tbl8_groups : Table
  pub tbl8_num_groups : ℕ
  pub tbl8_groups_used : ℕ
  pub root_idx : ℕ
  pub num_prefixes : ℕ
  pub num_nodes : ℕ
  pub num_wide_nodes : ℕ
  pub max_depth : ℕ
  pub has_default_route : Bool
  pub use_ipv6_wide_stride : Bool
  pub use_ipv4_dir24 : Bool
  pub default_next_hop : ℕ

-- malloc, aligned_alloc and realloc: whether a request of that many bytes is granted, and what
-- stands in the memory that malloc hands out.
pub record Allocator : Type 0 where
  pub grants : ℕ → Bool
  pub fresh : Pool

-- `sizeof(lpm_trie_t)` with 64-bit pointers, and the arrays' sizes in bytes.
abbrev pub trie_bytes : ℕ
trie_bytes = 192

abbrev pub hot_cache_size : ℕ
hot_cache_size = 8192

abbrev pub cache_entry_bytes : ℕ
cache_entry_bytes = 16

abbrev pub zero_entry : Entry
zero_entry = record { child_and_valid = 0; next_hop = 0 }

abbrev pub zero_cache : ℕ → CacheEntry
zero_cache i = record { addr_hash = 0; next_hop = 0 }

-- A trie after `memset(t, 0, sizeof(lpm_trie_t))`: no array is there.
abbrev pub zero_trie : Trie
zero_trie = record {
  node_pool = λ n i. zero_entry;
  pool_capacity = 0;
  pool_used = 0;
  has_direct_table = false;
  direct_table = λ i. record { next_hop = 0; node_idx = 0; prefix_len = 0 };
  has_hot_cache = false;
  hot_cache = zero_cache;
  has_wide_nodes_pool = false;
  wide_nodes_pool = λ n i. zero_entry;
  wide_pool_capacity = 0;
  wide_pool_used = 0;
  has_dir24_table = false;
  dir24_table = λ i. 0;
  tbl8_groups = λ i. 0;
  tbl8_num_groups = 0;
  tbl8_groups_used = 0;
  root_idx = 0;
  num_prefixes = 0;
  num_nodes = 0;
  num_wide_nodes = 0;
  max_depth = 0;
  has_default_route = false;
  use_ipv6_wide_stride = false;
  use_ipv4_dir24 = false;
  default_next_hop = 0;
}
