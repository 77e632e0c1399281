-- ===== src/Stride8/Effect.antt =====
-- The effect that storing a prefix has on the routes of a trie.
use liblpm.Base.{ℕ, ◌<◌, ◌≡◌, refl, sym, subst, Bool, ◌&&◌, ◌==◌, if◌then◌else◌, Option}
use liblpm.Trie.{Bytes, Entry, CacheEntry, DirectEntry, Trie}
use liblpm.Prefix.{agree_bytes}
use liblpm.Pool.Rest.{SameRest, SameRest-other, SameRest-trans}
use liblpm.Stride8.Paint.{Painted, Stores, painted-IsTree, route_on-painted}
use liblpm.Stride8.Valid.{IsForest, node_under, route_under}
use liblpm.Stride8.Tree.{Head}

-- The fields that neither the lookups nor the invariant read.
abbrev pub other_fields : Trie → ℕ → (ℕ → CacheEntry) → (ℕ → DirectEntry) → Trie
other_fields t num_prefixes hot_cache direct_table = record t {
  num_prefixes = num_prefixes;
  hot_cache = hot_cache;
  direct_table = direct_table;
}

pub IsForest-other :
    {head : Head} {t : Trie} (n : ℕ) (c : ℕ → CacheEntry) (d : ℕ → DirectEntry)
    → IsForest head t
    → IsForest head (other_fields t n c d)
IsForest-other n c d trie = record {
  tree = trie.tree;
  no_dir24 = trie.no_dir24;
  in_array = trie.in_array;
  small = trie.small;
}

-- In `u` the addresses that `matches` have the route `r` at level `d`; all other routes of `t` are
-- there too.
pub record Stored (head : Head) (t : Trie) (d : ℕ) (matches : Bytes → Bool) (r : Option ℕ)
    (u : Trie) : Type 0 where
  pub trie : IsForest head u
  pub rest : SameRest t u
  pub routes :
      (a : Bytes) (k : ℕ)
      → route_under head u a k ≡ (if k == d && matches a then r else route_under head t a k)

pub Stored-other :
    {head : Head} {t u : Trie} {d : ℕ} {matches : Bytes → Bool} {r : Option ℕ} (n : ℕ)
    (c : ℕ → CacheEntry) (e : ℕ → DirectEntry)
    → Stored head t d matches r u
    → Stored head t d matches r (other_fields u n c e)
Stored-other {u = u} n c e stored = record {
  trie = IsForest-other n c e stored.trie;
  rest = SameRest-trans stored.rest (SameRest-other u _ _ _ _ _ _ _);
  routes = λ a k. stored.routes a k;
}

-- Storing into one node of the prefix, and then leaving all but other fields alone.
pub Painted-Stored :
    (head : Head) (t u : Trie) (p : Bytes) (d : ℕ) (inside : ℕ → Bool) (make : Entry → Entry)
    (r : Option ℕ)
    → IsForest head t
    → 0 < node_under head t p d
    → Stores make r
    → u ≡ record t { node_pool = u.node_pool }
    → Painted t.node_pool u.node_pool (node_under head t p d) inside make
    → Stored head t d (λ a. agree_bytes d p a && inside (a d)) r u
Painted-Stored head t u p d inside make r trie inner stores same painted =
    subst (Stored head t d (λ a. agree_bytes d p a && inside (a d)) r) (sym same) (record {
      trie = record {
        tree =
            painted-IsTree t.node_pool u.node_pool head t.pool_used (node_under head t p d)
              trie.tree inside make r stores painted;
        no_dir24 = trie.no_dir24;
        in_array = trie.in_array;
        small = trie.small;
      };
      rest = SameRest-other t _ _ _ _ _ _ _;
      routes = λ a k.
          route_on-painted t.node_pool u.node_pool head t.pool_used (node_under head t p d)
            trie.tree inside make r stores painted p d refl inner a k;
    })

-- The routes do not tell `t` from `u`: a store that follows is a store in `t`.
pub Stored-after :
    {head : Head} {t u v : Trie} {d : ℕ} {matches : Bytes → Bool} {r : Option ℕ}
    → SameRest t u
    → ((a : Bytes) (k : ℕ) → route_under head u a k ≡ route_under head t a k)
    → Stored head u d matches r v
    → Stored head t d matches r v
Stored-after rest same stored = record {
  trie = stored.trie;
  rest = SameRest-trans rest stored.rest;
  routes = λ a k. rw (← same a k) (stored.routes a k);
}
