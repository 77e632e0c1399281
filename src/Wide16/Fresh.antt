-- ===== src/Wide16/Fresh.antt =====
-- The trie as `lpm_create_ipv6_wide16` leaves it.
use liblpm.Base.{
  ℕ, zero, suc, ◌*◌, ◌<◌, ◌≡◌, refl, arith, sym, subst, ◌∙◌, Bool, true, false, ◌==◌, ◌⊎◌, none,
  some, Bool-cases, inl, inr,
}
use liblpm.Word.{test, ipv6_max_depth}
use liblpm.Trie.{Bytes, Pool, Trie, Allocator, CacheEntry, write, hot_cache_size, cache_entry_bytes}
use liblpm.Pool.{wide_node_alloc, take_wide_node}
use liblpm.Stride8.Create.{pooled, with_hot_cache}
use liblpm.Stride8.Entries.{IsWord}
use liblpm.Stride8.Tree.{Head, node_on, step, route_at, route_in}
use liblpm.Stride8.Valid.{node_under}
use liblpm.Wide16.{create_ipv6_wide16}
use liblpm.Wide16.Valid.{IsWide, wide_head, wide_route}

-- No route is set.
pub record IsNew (t : Trie) : Type 0 where
  pub wide : IsWide t
  pub no_default : t.has_default_route ≡ false
  pub no_routes : (a : Bytes) (k : ℕ) → wide_route t a k ≡ none

-- What the wide root is taken from.
abbrev before_root : Allocator → Trie
before_root al = record (pooled al ipv6_max_depth) {
  use_ipv6_wide_stride = true;
  has_wide_nodes_pool = true;
  wide_nodes_pool = al.fresh;
  wide_pool_capacity = 16;
  wide_pool_used = 0;
}

first : Allocator → Trie
first al = record (wide_node_alloc al (before_root al)).1 { root_idx = 0 }

created :
    (al : Allocator) {t : Trie} → create_ipv6_wide16 al ≡ some t → with_hot_cache al (first al) ≡ t
unfolding create_ipv6_wide16 first wide_node_alloc take_wide_node
created al e = ground arith

-- Without a start there are no nodes.
node_on-nothing :
    (pool : Pool) (head : Head)
    → ((a : Bytes) → head.enter a ≡ 0)
    → (a : Bytes) (k : ℕ) → node_on pool head a k ≡ 0
unfolding node_on step
node_on-nothing pool head nothing a zero = ground (arith, nothing a)
node_on-nothing pool head nothing a (suc k) =
    rw (node_on-nothing pool head nothing a k) (ground (arith, nothing a))

module _ (al : Allocator) where
  nothing : (a : Bytes) → (wide_head (first al)).enter a ≡ 0
  unfolding first wide_node_alloc take_wide_node write
  nothing a = ground arith

  no_node : (a : Bytes) (k : ℕ) → node_under (wide_head (first al)) (first al) a k ≡ 0
  no_node a k = node_on-nothing (first al).node_pool (wide_head (first al)) nothing a k

  first-IsWord : (n i : ℕ) → n < (first al).pool_used → IsWord ((first al).node_pool n i)
  unfolding first wide_node_alloc take_wide_node write
  first-IsWord n i h = let at_zero : n ≡ 0 = omega arith in rw at_zero (omega arith)

  first-IsNew : IsNew (first al)
  unfolding first wide_node_alloc take_wide_node write test route_at route_in
  first-IsNew = record {
    wide = record {
      forest = record {
        tree = record {
          rooted = λ a e. absurd (omega (arith, e));
          respects = λ a b e. nothing a ∙ sym (nothing b);
          live = λ a k. omega (arith, no_node a k);
          unique = λ a b k l pos e. absurd (omega (arith, no_node a k, pos));
          words = first-IsWord;
        };
        no_dir24 = refl;
        in_array = omega arith;
        small = omega arith;
      };
      words = λ i. omega arith;
      narrow = λ i. refl;
      strided = refl;
      present = refl;
      depth = refl;
    };
    no_default = refl;
    no_routes = no_routes;
  }
    where
      no_routes : (a : Bytes) (k : ℕ) → wide_route (first al) a k ≡ none
      no_routes a k = elim (Bool-cases (k == 1)) [
        | inl e ↦ rw e refl
        | inr e ↦ rw (e, no_node a k) refl
      ]

-- The hot cache may be there or not.
IsNew-cache :
    {t : Trie} (has_hot_cache : Bool) (hot_cache : ℕ → CacheEntry)
    → IsNew t
    → IsNew (record t { has_hot_cache = has_hot_cache; hot_cache = hot_cache })
IsNew-cache {t} has cache new = record {
  wide = record {
    forest = record {
      tree = new.wide.forest.tree;
      no_dir24 = new.wide.forest.no_dir24;
      in_array = new.wide.forest.in_array;
      small = new.wide.forest.small;
    };
    words = new.wide.words;
    narrow = new.wide.narrow;
    strided = new.wide.strided;
    present = new.wide.present;
    depth = new.wide.depth;
  };
  no_default = new.no_default;
  no_routes = new.no_routes;
}

pub create_ipv6_wide16-IsNew :
    (al : Allocator) {t : Trie} → create_ipv6_wide16 al ≡ some t → IsNew t
create_ipv6_wide16-IsNew al {t} e = subst IsNew (created al e) (cached (Bool-cases _))
  where
    cached :
        (al.grants (hot_cache_size * cache_entry_bytes) ≡ true)
          ⊎ (al.grants (hot_cache_size * cache_entry_bytes) ≡ false)
        → IsNew (with_hot_cache al (first al))
    cached (inl granted) = rw granted (IsNew-cache _ _ (first-IsNew al))
    cached (inr refused) = rw refused (first-IsNew al)
