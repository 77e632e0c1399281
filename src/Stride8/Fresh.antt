-- ===== src/Stride8/Fresh.antt =====
-- The tries of 8-bit strides as `lpm_create_ipv4_8stride` and `lpm_create_ipv6_8stride` leave them.
use liblpm.Base.{
  ℕ, zero, suc, ◌*◌, ◌<◌, ◌≡◌, refl, arith, subst, Bool, true, false, none, some, Bool-cases, inl,
  inr,
}
use liblpm.Word.{test}
use liblpm.Prefix.{agree_bytes}
use liblpm.Trie.{
  Bytes, Trie, Allocator, CacheEntry, DirectEntry, zero_entry, write, hot_cache_size,
  cache_entry_bytes,
}
use liblpm.Pool.{node_alloc, take_node, empty_entry}
use liblpm.Stride8.Create.{
  create_ipv4_8stride, create_ipv6_8stride, pooled, rooted, with_hot_cache, with_direct_table,
  direct_size, direct_entry_bytes,
}
use liblpm.Stride8.Entries.{IsWord}
use liblpm.Stride8.Tree.{plain, node_on, step, node_on-stop, route_at, route_in}
use liblpm.Stride8.Valid.{IsTrie, route_of, node_of}

-- The nodes 0 and 1, both without children and routes; the root is 1.
pub record IsFresh (t : Trie) : Type 0 where
  pub root : t.root_idx ≡ 1
  pub used : t.pool_used ≡ 2
  pub capacity : t.pool_capacity ≡ 4096
  pub no_dir24 : t.use_ipv4_dir24 ≡ false
  pub no_default : t.has_default_route ≡ false
  pub at_root : (i : ℕ) → t.node_pool 1 i ≡ empty_entry
  pub at_zero : (i : ℕ) → t.node_pool 0 i ≡ zero_entry

-- What `rooted` gives of a new pool.
first : Allocator → ℕ → Trie
first al depth = record (node_alloc al (pooled al depth)).1 { root_idx = 1 }

rooted-first :
    (al : Allocator) (depth : ℕ) → rooted (node_alloc al (pooled al depth)) ≡ some (first al depth)
unfolding node_alloc take_node first
rooted-first al depth = refl

first-IsFresh : (al : Allocator) (depth : ℕ) → IsFresh (first al depth)
unfolding node_alloc take_node first write
first-IsFresh al depth = record {
  root = refl;
  used = refl;
  capacity = refl;
  no_dir24 = refl;
  no_default = refl;
  at_root = λ i. refl;
  at_zero = λ i. refl;
}

-- The direct table and the hot cache may be there or not.
IsFresh-tables :
    {t : Trie} (has_direct_table has_hot_cache : Bool) (direct_table : ℕ → DirectEntry)
    (hot_cache : ℕ → CacheEntry)
    → IsFresh t
    → IsFresh (record t {
      has_direct_table = has_direct_table;
      direct_table = direct_table;
      has_hot_cache = has_hot_cache;
      hot_cache = hot_cache;
    })
IsFresh-tables hd hc d c f = record {
  root = f.root;
  used = f.used;
  capacity = f.capacity;
  no_dir24 = f.no_dir24;
  no_default = f.no_default;
  at_root = f.at_root;
  at_zero = f.at_zero;
}

with_hot_cache-IsFresh : (al : Allocator) {t : Trie} → IsFresh t → IsFresh (with_hot_cache al t)
with_hot_cache-IsFresh al f = elim (Bool-cases (al.grants (hot_cache_size * cache_entry_bytes))) [
  | inl e ↦ rw e (IsFresh-tables _ _ _ _ f)
  | inr e ↦ rw e f
]

with_direct_table-IsFresh :
    (al : Allocator) {t : Trie} → IsFresh t → IsFresh (with_direct_table al t)
with_direct_table-IsFresh al f = elim (Bool-cases (al.grants (direct_size * direct_entry_bytes))) [
  | inl e ↦ rw e (IsFresh-tables _ _ _ _ f)
  | inr e ↦ rw e f
]

pub create_ipv4_8stride-IsFresh :
    (al : Allocator) {t : Trie} → create_ipv4_8stride al ≡ some t → IsFresh t
unfolding create_ipv4_8stride
create_ipv4_8stride-IsFresh al {t} e =
    subst IsFresh same
      (with_hot_cache-IsFresh al (with_direct_table-IsFresh al (first-IsFresh al 32)))
  where
    same : with_hot_cache al (with_direct_table al (first al 32)) ≡ t
    same = ground (arith, rooted-first al 32)

pub create_ipv6_8stride-IsFresh :
    (al : Allocator) {t : Trie} → create_ipv6_8stride al ≡ some t → IsFresh t
unfolding create_ipv6_8stride
create_ipv6_8stride-IsFresh al {t} e =
    subst IsFresh same (with_hot_cache-IsFresh al (first-IsFresh al 128))
  where
    same : with_hot_cache al (first al 128) ≡ t
    same = ground (arith, rooted-first al 128)

module _ {t : Trie} (fresh : IsFresh t) where
  node_on-fresh : (a : Bytes) (k : ℕ) → node_of t a (suc k) ≡ 0
  unfolding node_on step
  node_on-fresh a zero = rw (fresh.root, fresh.at_root (a 0)) refl
  node_on-fresh a (suc k) =
      node_on-stop t.node_pool (plain t.root_idx) a (suc k) (omega arith) (node_on-fresh a k)

  pub route_of-fresh : (a : Bytes) (k : ℕ) → route_of t a k ≡ none
  unfolding route_at route_in node_on test
  route_of-fresh a zero = rw (fresh.root, fresh.at_root (a 0)) refl
  route_of-fresh a (suc k) = rw (node_on-fresh a k) refl

  live : (a : Bytes) (k : ℕ) → node_of t a k < 2
  unfolding node_on
  live a zero = omega (arith, fresh.root)
  live a (suc k) = omega (arith, node_on-fresh a k)

  unique :
      (a b : Bytes) (k l : ℕ)
      → 0 < node_of t a k
      → node_of t a k ≡ node_of t b l
      → (k ≡ l) × (agree_bytes k a b ≡ true)
  unfolding agree_bytes
  unique a b zero zero pos same = (refl, refl)
  unique a b zero (suc l) pos same = absurd (omega (arith, same, node_on-fresh b l))
  unique a b (suc k) l pos same = absurd (omega (arith, node_on-fresh a k))

  words : (n i : ℕ) → n < t.pool_used → IsWord (t.node_pool n i)
  words zero i h = rw (fresh.at_zero i) (omega arith)
  words (suc zero) i h = rw (fresh.at_root i) (omega arith)
  words (suc (suc n)) i h = absurd (omega (arith, fresh.used))

  pub fresh-IsTrie : IsTrie t
  fresh-IsTrie = record {
    tree = record {
      rooted = λ a e. omega (arith, fresh.root);
      respects = λ a b e. refl;
      live = λ a k. rw fresh.used (live a k);
      unique = unique;
      words = words;
    };
    no_dir24 = fresh.no_dir24;
    in_array = omega (arith, fresh.used, fresh.capacity);
    small = omega (arith, fresh.capacity);
  }
