-- ===== src/Stride8/Lpm.antt =====
-- The adds of src/4stride8/core.c and src/6stride8/core.c, applied to a history of prefixes,
-- against the specification of Rib.
use liblpm.Base.{
  ℕ, ◌<◌, ◌≡◌, refl, arith, subst, sym, ◌∙◌, true, false, ◌&&◌, if◌then◌else◌, ◌==◌, Bool, Option,
  ◌⊎◌, none, some, inl, inr, List, [],
}
use liblpm.Trie.{Bytes, Trie, Allocator, Status, ok, failed}
use liblpm.Word.{invalid_next_hop}
use liblpm.Rib.{longest}
use liblpm.Rib.Sorted.{IsSorted}
use liblpm.Prefix.{agree_bits, last_byte}
use liblpm.Prefix.Value.{value}
use liblpm.Dir24.Index.{IsBytes}
use liblpm.Dir24.Lpm.{hop_of}
use liblpm.Dir24.Answer.{or_invalid}
use liblpm.Stride8.{clear_cache, count_added}
use liblpm.Pool.Rest.{IsBounded, SameRest}
use liblpm.Stride8.Tree.{plain}
use liblpm.Stride8.Valid.{IsForest, IsTrie, route_of, route_under}
use liblpm.Stride8.Effect.{Stored}
use liblpm.Stride8.Fresh.{
  IsFresh, create_ipv4_8stride-IsFresh, create_ipv6_8stride-IsFresh, fresh-IsTrie, route_of-fresh,
}
use liblpm.Stride8.Lookup.{lookup_ipv4_8stride_bytes, ipv6_8stride_single_resolver, or_default}
use liblpm.Stride8.Add.{Added, added, refused, add_ipv4_8stride-Added, add_ipv6_8stride-Added}
use liblpm.Stride8.Update.{add_ipv4_8stride, add_ipv6_8stride, add_8stride}
use liblpm.Stride8.Create.{create_ipv4_8stride, create_ipv6_8stride}
use liblpm.Simd.{SimdLevel}
use liblpm.Stride8.Search.{lookup_ipv4_8stride-answer, lookup_ipv6_8stride-answer}
use liblpm.History.{
  ByteRoute, Kind, Placed, Defaulted, IsAdd, add_history, as_routes, AllBytes, Built,
  add_history-Built, new-Built,
}

pub or_default-some :
    (t : Trie) (nh : ℕ) → nh < invalid_next_hop → or_default t (or_invalid (some nh)) ≡ nh
unfolding or_invalid
or_default-some t nh h =
    let other : (nh == invalid_next_hop) ≡ false = ground arith in rw other refl

pub or_default-none :
    (t : Trie)
    → or_default t (or_invalid none)
      ≡ (if t.has_default_route then t.default_next_hop else invalid_next_hop)
unfolding or_invalid
or_default-none t = refl

-- The tries of 8-bit strides for addresses of `n` bytes.
abbrev pub kind8 : ℕ → Kind
kind8 n = record {
  size = n;
  IsSound = IsTrie;
  route = route_of;
  level = last_byte;
  answer = λ t r. or_default t (or_invalid r);
  level_mono = λ j k h. omega arith;
  level-lt = λ len pos fits. omega arith;
  answer-some = or_default-some;
  answer-default = λ t set. or_default-none t ∙ rw set refl;
  answer-no_default = λ t unset. or_default-none t ∙ rw unset refl;
  answer_same = λ t u r same hop. rw (same, hop) refl;
}

-- The root is among the fields that no add and no delete changes.
pub IsForest-IsTrie : {t u : Trie} → SameRest t u → IsForest (plain t.root_idx) u → IsTrie u
IsForest-IsTrie {t} {u} rest trie = subst (λ root. IsForest (plain root) u) (sym rest.root) trie

Stored-Placed :
    {t u : Trie} {d : ℕ} {matches : Bytes → Bool} {r : Option ℕ} (n : ℕ)
    → Stored (plain t.root_idx) t d matches r u
    → Placed (kind8 n) t d matches r u
Stored-Placed {t} {u} {d} {matches} {r} n stored = record {
  sound = IsForest-IsTrie stored.rest stored.trie;
  default = stored.rest.default;
  hop = stored.rest.hop;
  routes = λ a bytes k.
      subst
        (λ root.
          route_under (plain root) u a k ≡ (if k == d && matches a then r else route_of t a k))
        (sym stored.rest.root) (stored.routes a k);
}

-- The trie after the default route is set, before it is counted.
abbrev with_default_route : Trie → ℕ → Trie
with_default_route t nh = record (clear_cache t) { default_next_hop = nh; has_default_route = true }

set_default-Defaulted :
    (n : ℕ) (t : Trie) (nh : ℕ)
    → IsTrie t
    → Defaulted (kind8 n) t nh (count_added (with_default_route t nh)).1
set_default-Defaulted n t nh trie = record {
  sound = record {
    tree = trie.tree;
    no_dir24 = trie.no_dir24;
    in_array = trie.in_array;
    small = trie.small;
  };
  default = refl;
  hop = refl;
  routes = λ a bytes k. refl;
}

Added-Placed :
    {al : Allocator} {t : Trie} {p : Bytes} {len nh : ℕ} {out : Status × Trie} (n : ℕ)
    → Added (plain t.root_idx) al t p len nh out
    → ((out.0 ≡ ok) × Placed (kind8 n) t (last_byte len) (agree_bits len p) (some nh) out.1)
      ⊎ ((out.0 ≡ failed) × IsTrie out.1)
Added-Placed n (added e stored) = inl (e, Stored-Placed n stored)
Added-Placed n (refused e kept) = inr (e, IsForest-IsTrie kept.rest kept.trie)

module _ (al : Allocator) (bounded : IsBounded al) where
  pub add_ipv4_8stride-IsAdd : IsAdd (kind8 4) (add_ipv4_8stride al)
  unfolding add_ipv4_8stride add_8stride
  add_ipv4_8stride-IsAdd = record {
    default = λ t p nh trie. set_default-Defaulted 4 t nh trie;
    stores = λ t p len nh trie bytes pos fits.
        Added-Placed 4 (add_ipv4_8stride-Added al t p len nh bounded trie bytes pos fits);
    too_long = λ t p len nh h. ground arith;
  }

  pub add_ipv6_8stride-IsAdd : IsAdd (kind8 16) (add_ipv6_8stride al)
  unfolding add_ipv6_8stride add_8stride
  add_ipv6_8stride-IsAdd = record {
    default = λ t p nh trie. set_default-Defaulted 16 t nh trie;
    stores = λ t p len nh trie bytes pos fits.
        Added-Placed 16 (add_ipv6_8stride-Added al t p len nh bounded trie bytes pos fits);
    too_long = λ t p len nh h. ground arith;
  }

fresh-Built : (n : ℕ) {t : Trie} → IsFresh t → Built (kind8 n) [] t
fresh-Built n {t} fresh =
    new-Built (kind8 n) t (fresh-IsTrie fresh) fresh.no_default (route_of-fresh fresh)

pub history_ipv4-Built :
    (al : Allocator) (t u : Trie) (h : List ByteRoute)
    → IsBounded al
    → create_ipv4_8stride al ≡ some t
    → IsSorted (as_routes 4 h)
    → AllBytes h
    → add_history (add_ipv4_8stride al) t h ≡ some u
    → Built (kind8 4) h u
history_ipv4-Built al t u h bounded created sorted fit e =
    add_history-Built (kind8 4) (add_ipv4_8stride al) (add_ipv4_8stride-IsAdd al bounded) t h u
      (fresh-Built 4 (create_ipv4_8stride-IsFresh al created)) sorted fit e

-- Let prefixes be added to a new IPv4 trie of 8-bit strides so that none is shorter than one before
-- it, each accepted; let the allocator grant no request of 2^41 bytes or more. Then a lookup of any
-- address, in every variant, answers the next hop of the longest prefix that covers it, of the
-- latest such, and the invalid next hop if none does.
pub lookup-add_ipv4_history :
    (al : Allocator) (t u : Trie) (h : List ByteRoute)
    → IsBounded al
    → create_ipv4_8stride al ≡ some t
    → IsSorted (as_routes 4 h)
    → AllBytes h
    → add_history (add_ipv4_8stride al) t h ≡ some u
    → (level : SimdLevel) (a : Bytes) → IsBytes a
    → lookup_ipv4_8stride_bytes level u a ≡ hop_of (longest 32 (as_routes 4 h) (value 4 a))
lookup-add_ipv4_history al t u h bounded created sorted fit e level a bytes =
    let built : Built (kind8 4) h u = history_ipv4-Built al t u h bounded created sorted fit e in
    lookup_ipv4_8stride-answer level u a built.sound ∙ built.answers a bytes

-- Let prefixes be added to a new IPv6 trie of 8-bit strides so that none is shorter than one before
-- it, each accepted; let the allocator grant no request of 2^41 bytes or more. Then a lookup of any
-- address, in every variant, answers the next hop of the longest prefix that covers it, of the
-- latest such, and the invalid next hop if none does.
pub lookup-add_ipv6_history :
    (al : Allocator) (t u : Trie) (h : List ByteRoute)
    → IsBounded al
    → create_ipv6_8stride al ≡ some t
    → IsSorted (as_routes 16 h)
    → AllBytes h
    → add_history (add_ipv6_8stride al) t h ≡ some u
    → (level : SimdLevel) (a : Bytes) → IsBytes a
    → ipv6_8stride_single_resolver level u a ≡ hop_of (longest 128 (as_routes 16 h) (value 16 a))
lookup-add_ipv6_history al t u h bounded created sorted fit e level a bytes =
    let built : Built (kind8 16) h u =
      add_history-Built (kind8 16) (add_ipv6_8stride al) (add_ipv6_8stride-IsAdd al bounded) t h u
        (fresh-Built 16 (create_ipv6_8stride-IsFresh al created)) sorted fit e in
    lookup_ipv6_8stride-answer level u a built.sound ∙ built.answers a bytes
