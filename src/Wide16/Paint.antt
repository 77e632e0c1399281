-- ===== src/Wide16/Paint.antt =====
-- Storing into entries of the wide root, children kept: what that does to the trie.
use mathlib.Core.Path.{fun_ext}
use liblpm.Base.{
  ℕ, ◌≡◌, refl, arith, ap, sym, subst, ◌∙◌, Bool, false, ◌&&◌, ◌==◌, if◌then◌else◌, Option,
  Bool-cases, inl, inr,
}
use liblpm.Trie.{Bytes, Entry, Pool, Trie}
use liblpm.Dir24.Index.{IsBytes}
use liblpm.Stride8.{child_of}
use liblpm.Stride8.Entries.{IsWord}
use liblpm.Stride8.Tree.{Head, route_in}
use liblpm.Stride8.Paint.{Painted, Stores}
use liblpm.Stride8.Valid.{IsForest, route_under}
use liblpm.History.{Placed}
use liblpm.Wide16.{wide_index}
use liblpm.Wide16.Entries.{is_wide, KeepsWide}
use liblpm.Wide16.Valid.{below_wide, head_of, wide_head, IsWide, wide_route, wide_kind}

abbrev pub with_wide : Trie → Pool → Trie
with_wide t pool = record t { wide_nodes_pool = pool }

module _ (t : Trie) (pool : Pool) (inside : ℕ → Bool) (make : Entry → Entry) (r : Option ℕ)
    (stores : Stores make r) (keeps : KeepsWide make) (wide : IsWide t)
    (painted : Painted t.wide_nodes_pool pool t.root_idx inside make) where
  abbrev old : ℕ → Entry
  old = t.wide_nodes_pool t.root_idx

  entry_lem : (i : ℕ) → pool t.root_idx i ≡ (if inside i then make (old i) else old i)
  entry_lem i = ground (arith, painted t.root_idx i)

  child_kept : (i : ℕ) → child_of (pool t.root_idx i) ≡ child_of (old i)
  child_kept i = elim (Bool-cases (inside i)) [
    | inl e ↦ rw (entry_lem i, e) (stores.child (old i) (wide.words i))
    | inr e ↦ rw (entry_lem i, e) refl
  ]

  kept-IsWord : (i : ℕ) → IsWord (pool t.root_idx i)
  kept-IsWord i = elim (Bool-cases (inside i)) [
    | inl e ↦ rw (entry_lem i, e) (stores.word_sized (old i) (wide.words i))
    | inr e ↦ rw (entry_lem i, e) (wide.words i)
  ]

  narrow_kept : (i : ℕ) → is_wide (pool t.root_idx i) ≡ false
  narrow_kept i = elim (Bool-cases (inside i)) [
    | inl e ↦ rw (entry_lem i, e) (keeps (old i) (wide.words i) ∙ wide.narrow i)
    | inr e ↦ rw (entry_lem i, e) (wide.narrow i)
  ]

  route_made : (i : ℕ) → route_in (pool t.root_idx i) ≡ (if inside i then r else route_in (old i))
  route_made i = elim (Bool-cases (inside i)) [
    | inl e ↦ rw (entry_lem i, e) (stores.route (old i) (wide.words i))
    | inr e ↦ rw (entry_lem i, e) refl
  ]

  head_kept : wide_head t ≡ head_of pool t.root_idx
  head_kept = ap below_wide (fun_ext (λ a. rw (child_kept (wide_index a 0)) refl))

  kept-IsForest : IsForest (head_of pool t.root_idx) (with_wide t pool)
  kept-IsForest =
      subst (λ head. IsForest head (with_wide t pool)) head_kept
        (record {
          tree = wide.forest.tree;
          no_dir24 = wide.forest.no_dir24;
          in_array = wide.forest.in_array;
          small = wide.forest.small;
        })

  routes_below :
      (a : Bytes) (k : ℕ)
      → route_under (head_of pool t.root_idx) t a k ≡ route_under (wide_head t) t a k
  routes_below a k = ap (λ (head : Head). route_under head t a k) (sym head_kept)

  painted-Placed :
      (matches : Bytes → Bool)
      → ((a : Bytes) → IsBytes a → matches a ≡ inside (wide_index a 0))
      → Placed wide_kind t 1 matches r (with_wide t pool)
  painted-Placed matches agrees = record {
    sound = record {
      forest = kept-IsForest;
      words = kept-IsWord;
      narrow = narrow_kept;
      strided = wide.strided;
      present = wide.present;
      depth = wide.depth;
    };
    default = refl;
    hop = refl;
    routes = routes;
  }
    where
      routes :
          (a : Bytes)
          → IsBytes a
          → (k : ℕ)
          → wide_route (with_wide t pool) a k
            ≡ (if k == 1 && matches a then r else wide_route t a k)
      routes a bytes k = elim (Bool-cases (k == 1)) [
        | inl e ↦ rw (e, agrees a bytes) (route_made (wide_index a 0))
        | inr e ↦ rw e (routes_below a k)
      ]

-- Storing into entries of the wide root changes their routes and no other.
pub Painted-Placed :
    (t u : Trie) (inside : ℕ → Bool) (make : Entry → Entry) (r : Option ℕ) (matches : Bytes → Bool)
    → Stores make r
    → KeepsWide make
    → IsWide t
    → u ≡ with_wide t u.wide_nodes_pool
    → Painted t.wide_nodes_pool u.wide_nodes_pool t.root_idx inside make
    → ((a : Bytes) → IsBytes a → matches a ≡ inside (wide_index a 0))
    → Placed wide_kind t 1 matches r u
Painted-Placed t u inside make r matches stores keeps wide same painted agrees =
    subst (Placed wide_kind t 1 matches r) (sym same)
      (painted-Placed t u.wide_nodes_pool inside make r stores keeps wide painted matches agrees)
