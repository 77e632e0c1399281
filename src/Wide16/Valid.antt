-- ===== src/Wide16/Valid.antt =====
-- The invariant of the tries that src/wide16/core.c keeps, and their routes.
use liblpm.Base.{
  ℕ, ◌≤◌, ◌<◌, ◌≡◌, refl, arith, ap, sym, subst, ◌∙◌, Bool, true, false, ◌&&◌, ◌==◌, ltb,
  if◌then◌else◌, Option, none, some, Bool-cases, inl, inr,
}
use liblpm.Word.{invalid_next_hop, ipv6_max_depth}
use liblpm.Trie.{Bytes, Entry, Pool, Trie}
use liblpm.Prefix.{last_byte}
use liblpm.Pool.Rest.{SameRest}
use liblpm.Stride8.{child_of}
use liblpm.Stride8.Entries.{IsWord}
use liblpm.Stride8.Tree.{Head, route_in}
use liblpm.Stride8.Valid.{IsForest, route_under}
use liblpm.Stride8.Effect.{Stored}
use liblpm.Batch.WideLanes.{IsLastWide}
use liblpm.History.{Kind, Placed}
use liblpm.Wide16.{wide_index}

-- The paths start at level 2, below the entries of the wide root.
abbrev pub below_wide : (Bytes → ℕ) → Head
below_wide enter = record { base = 2; enter = enter }

abbrev pub head_of : Pool → ℕ → Head
head_of pool root =
    below_wide
      (λ a. if ltb (a 0) 256 && ltb (a 1) 256 then child_of (pool root (wide_index a 0)) else 0)

abbrev pub wide_head : Trie → Head
wide_head t = head_of t.wide_nodes_pool t.root_idx

-- Below the wide root the nodes in use are a tree; no entry of the wide root leads to a wide node.
-- The fields that the generic interface picks the functions by are set.
pub record IsWide (t : Trie) : Type 0 where
  pub forest : IsForest (wide_head t) t
  pub words : (i : ℕ) → IsWord (t.wide_nodes_pool t.root_idx i)
  pub narrow : IsLastWide t
  pub strided : t.use_ipv6_wide_stride ≡ true
  pub present : t.has_wide_nodes_pool ≡ true
  pub depth : t.max_depth ≡ ipv6_max_depth

abbrev pub wide_entry : Trie → Bytes → Entry
wide_entry t a = t.wide_nodes_pool t.root_idx (wide_index a 0)

-- The route that `a` meets at a level: its byte is the last of those that led there.
abbrev pub wide_route : Trie → Bytes → ℕ → Option ℕ
wide_route t a k = if k == 1 then route_in (wide_entry t a) else route_under (wide_head t) t a k

-- The level at which a prefix is stored.
abbrev pub wide_level : ℕ → ℕ
wide_level len = if ltb len 17 then 1 else last_byte len

-- What the lookup makes of the deepest route.
abbrev pub wide_answer : Trie → Option ℕ → ℕ
wide_answer t none = if t.has_default_route then t.default_next_hop else invalid_next_hop
wide_answer t (some nh) = nh

pub wide_answer-same :
    (t u : Trie) (r : Option ℕ)
    → u.has_default_route ≡ t.has_default_route
    → u.default_next_hop ≡ t.default_next_hop
    → wide_answer u r ≡ wide_answer t r
wide_answer-same t u none same hop = rw (same, hop) refl
wide_answer-same t u (some nh) same hop = refl

pub wide_level_mono : (j k : ℕ) → j ≤ k → wide_level j ≤ wide_level k
wide_level_mono j k h = ground arith

pub wide_level-lt : (len : ℕ) → 0 < len → len ≤ 128 → wide_level len < 16
wide_level-lt len pos fits = ground arith

abbrev pub wide_kind : Kind
wide_kind = record {
  size = 16;
  IsSound = IsWide;
  route = wide_route;
  level = wide_level;
  answer = wide_answer;
  level_mono = wide_level_mono;
  level-lt = wide_level-lt;
  answer-some = λ t nh h. refl;
  answer-default = λ t set. rw set refl;
  answer-no_default = λ t unset. rw unset refl;
  answer_same = wide_answer-same;
}

-- The wide root is among what the loops below it leave alone.
pub same_head : {t u : Trie} → SameRest t u → wide_head u ≡ wide_head t
same_head {t} {u} rest = rw (rest.wide_nodes, rest.root) refl

pub same_root :
    {t u : Trie} → SameRest t u → u.wide_nodes_pool u.root_idx ≡ t.wide_nodes_pool t.root_idx
same_root {t} {u} rest = rw (rest.wide_nodes, rest.root) refl

pub IsForest-IsWide : {t u : Trie} → IsWide t → SameRest t u → IsForest (wide_head t) u → IsWide u
IsForest-IsWide {t} {u} wide rest forest = record {
  forest = subst (λ head. IsForest head u) (sym (same_head rest)) forest;
  words = λ i. rw (same_root rest) (wide.words i);
  narrow = λ i. rw (same_root rest) (wide.narrow i);
  strided = rest.wide_stride ∙ wide.strided;
  present = rest.wide_present ∙ wide.present;
  depth = rest.depth ∙ wide.depth;
}

pub same_wide_routes :
    {t u : Trie}
    → SameRest t u
    → ((a : Bytes) (k : ℕ) → route_under (wide_head t) u a k ≡ route_under (wide_head t) t a k)
    → (a : Bytes) (k : ℕ) → wide_route u a k ≡ wide_route t a k
same_wide_routes {t} {u} rest routes a k = elim (Bool-cases (k == 1)) [
  | inl e ↦ rw e (ap (λ (node : ℕ → Entry). route_in (node (wide_index a 0))) (same_root rest))
  | inr e ↦ rw e (ap (λ (head : Head). route_under head u a k) (same_head rest) ∙ routes a k)
]

-- A store below the wide root.
pub Stored-Placed :
    {t u : Trie} {d : ℕ} {matches : Bytes → Bool} {r : Option ℕ}
    → IsWide t
    → 2 ≤ d
    → Stored (wide_head t) t d matches r u
    → Placed wide_kind t d matches r u
Stored-Placed {t} {u} {d} {matches} {r} wide deep stored = record {
  sound = IsForest-IsWide wide stored.rest stored.trie;
  default = stored.rest.default;
  hop = stored.rest.hop;
  routes = λ a bytes k. routes a k;
}
  where
    below :
        (a : Bytes) (k : ℕ)
        → route_under (wide_head u) u a k
          ≡ (if k == d && matches a then r else route_under (wide_head t) t a k)
    below a k =
        subst
          (λ head.
            route_under head u a k
            ≡ (if k == d && matches a then r else route_under (wide_head t) t a k))
          (sym (same_head stored.rest)) (stored.routes a k)

    routes :
        (a : Bytes) (k : ℕ)
        → wide_route u a k ≡ (if k == d && matches a then r else wide_route t a k)
    routes a k = elim (Bool-cases (k == 1)) [
      | inl e ↦
          let other : (k == d) ≡ false = ground arith in
          rw (e, other)
            (ap (λ (node : ℕ → Entry). route_in (node (wide_index a 0))) (same_root stored.rest))
      | inr e ↦ rw e (below a k)
    ]
