-- ===== src/Dir24/Lpm.antt =====
-- `lpm_add_ipv4_dir24`, applied to a history of routes, against the specification of Rib.
use liblpm.Base.{
  ℕ, ◌-◌, ◌/◌, ◌^◌, ◌≤◌, ◌<◌, ◌≡◌, refl, ap, subst, ◌∙◌, sym, arith, true, false, ◌&&◌,
  if◌then◌else◌, inl, inr, Option, none, some, Option-cases, List, [], ◌∷◌,
}
use native.Mathlib.Decide.{dec_le}
use liblpm.Word.{invalid_next_hop}
use liblpm.Trie.{Trie, Status, ok, failed, Allocator}
use liblpm.Rib.{Route, covers, longest}
use liblpm.Rib.Sorted.{AllUpTo, IsSorted, AllUpTo-mono, longest-cons}
use liblpm.Dir24.{add_ipv4_dir24}
use liblpm.Dir24.Index.{IsBytes, word}
use liblpm.Dir24.Valid.{IsValid, extended}
use liblpm.Dir24.Answer.{answer, route_at, lookup_ipv4_dir24_lem, address_bytes_lem}
use liblpm.Dir24.Lookup.{lookup_ipv4_dir24, address_bytes}
use liblpm.Dir24.Cover.{agree}
use liblpm.Dir24.Add.{LongAdded}
use liblpm.Dir24.Create.{create_ipv4_dir24, create_ipv4_dir24-IsNew, IsNew}
use liblpm.Dir24.Correct.{
  add-DefaultAdded, add-ShortAdded, add-LongAdded, DefaultAdded, ShortAdded, add_ipv4_dir24-failed,
}

abbrev pub if_ok : Status × Trie → Option Trie
if_ok (ok, t) = some t
if_ok (failed, t) = none

pub if_ok-some : (o : Status × Trie) (u : Trie) → if_ok o ≡ some u → (o.0 ≡ ok) × (o.1 ≡ u)
if_ok-some (ok, v) u e = (refl, cc)
if_ok-some (failed, v) u e = cc

abbrev pub add_route : Allocator → Route → Trie → Option Trie
add_route al r t = if_ok (add_ipv4_dir24 al t (address_bytes r.value) r.len r.next_hop)

-- The routes of a history are added oldest first; none if one of them is refused.
unfoldable pub add_routes : Allocator → Trie → List Route → Option Trie
add_routes al t [] = some t
add_routes al t (r ∷ older) = elim (add_routes al t older) [
  | none ↦ none
  | some u ↦ add_route al r u
]

-- The arguments are a `uint32_t` address and a next hop that fits in 30 bits.
abbrev pub AllWords : List Route → Type 0
AllWords [] = Unit
AllWords (r ∷ older) = (r.value < 2 ^ 32) × (r.next_hop < 2 ^ 30) × AllWords older

abbrev pub hop_of : Option Route → ℕ
hop_of none = invalid_next_hop
hop_of (some r) = r.next_hop

-- The trie stands for the history.
record Built (h : List Route) (t : Trie) : Type 0 where
  valid : IsValid t
  answers : (a : ℕ) → a < 2 ^ 32 → answer t a ≡ hop_of (longest 32 h a)
  no_groups : AllUpTo 24 h → (i : ℕ) → extended t i ≡ false
  no_routes : AllUpTo 0 h → (a : ℕ) → route_at t a ≡ none

module _ (al : Allocator) (r : Route) (older : List Route) (t u : Trie) (built : Built older t)
    (newer : AllUpTo r.len older) (value_fits : r.value < 2 ^ 32) (hop_fits : r.next_hop < 2 ^ 30)
    (added : add_route al r t ≡ some u) where
  abbrev out : Status × Trie
  out = add_ipv4_dir24 al t (address_bytes r.value) r.len r.next_hop

  is_u : out.1 ≡ u
  is_u = (if_ok-some out u added).1

  bytes : IsBytes (address_bytes r.value)
  bytes = (address_bytes_lem r.value value_fits).0

  value_lem : word (address_bytes r.value) ≡ r.value
  value_lem = (address_bytes_lem r.value value_fits).1

  answer_cons : ℕ → ℕ
  answer_cons a = if covers 32 r a then r.next_hop else answer t a

  answers_newest : (a : ℕ) → a < 2 ^ 32 → answer_cons a ≡ hop_of (longest 32 (r ∷ older) a)
  unfolding answer_cons
  answers_newest a h = ground (arith, longest-cons 32 a r older newer, built.answers a h)

  default-Built : r.len ≡ 0 → Built (r ∷ older) out.1
  unfolding answer_cons
  default-Built e = record {
    valid = added_default.valid;
    answers =
        λ a h. added_default.unmatched a (no_other a) ∙ sym (everywhere a h) ∙ answers_newest a h;
    no_groups = λ all i. added_default.same_extended i ∙ built.no_groups all.1 i;
    no_routes = λ all a. added_default.same_routes a ∙ built.no_routes all.1 a;
  }
    where
      added_default : DefaultAdded t r.next_hop out
      added_default =
          subst
            (λ n.
              DefaultAdded t r.next_hop (add_ipv4_dir24 al t (address_bytes r.value) n r.next_hop))
            (sym e) (add-DefaultAdded al t built.valid (address_bytes r.value) r.next_hop hop_fits)

      no_other : (a : ℕ) → route_at t a ≡ none
      no_other = built.no_routes (AllUpTo-mono r.len 0 older (omega arith) newer)

      everywhere : (a : ℕ) → a < 2 ^ 32 → answer_cons a ≡ r.next_hop
      everywhere a h =
          let same : 2 ^ (32 - r.len) ≡ 2 ^ 32 = ap (λ (n : ℕ). 2 ^ (32 - n)) e in ground arith

  short-Built : 0 < r.len → r.len ≤ 24 → Built (r ∷ older) out.1
  unfolding answer_cons
  short-Built pos short = record {
    valid = added_short.valid;
    answers =
        λ a h. added_short.answers a ∙ rw (value_lem, plain (a / 256)) (answers_newest_plain a h);
    no_groups = λ all i. added_short.same_extended i ∙ plain i;
    no_routes = λ all a. absurd (omega arith);
  }
    where
      added_short : ShortAdded t (address_bytes r.value) r.len r.next_hop out
      added_short =
          add-ShortAdded al t built.valid (address_bytes r.value) r.next_hop hop_fits bytes r.len
            pos short

      plain : (i : ℕ) → extended t i ≡ false
      plain = built.no_groups (AllUpTo-mono r.len 24 older short newer)

      answers_newest_plain :
          (a : ℕ)
          → a < 2 ^ 32
          → (if agree r.len r.value a && true then r.next_hop else answer t a)
            ≡ hop_of (longest 32 (r ∷ older) a)
      answers_newest_plain a h = ground (arith, answers_newest a h)

  long_answer :
      LongAdded t (address_bytes r.value) r.len r.next_hop out
      → 24 < r.len
      → Built (r ∷ older) out.1
  unfolding answer_cons
  long_answer added_long long = record {
    valid = added_long.valid;
    answers = λ a h.
        unfold answer in
        ground (
          arith,
          added_long.routes a h,
          value_lem,
          answers_newest a h,
          added_long.same_default,
          added_long.same_hop,
        );
    no_groups = λ all i. absurd (omega arith);
    no_routes = λ all a. absurd (omega arith);
  }

  long-Built : 24 < r.len → r.len ≤ 32 → Built (r ∷ older) out.1
  long-Built long fits =
      elim (add-LongAdded al t built.valid (address_bytes r.value) r.next_hop hop_fits bytes r.len
        long fits) [
          | inl (refused, unplaced) ↦ absurd (refuse refused)
          | inr added_long ↦ long_answer added_long long
        ]
    where
      refuse : out ≡ (failed, t) → ⊥
      refuse e = cc added

  too_long : 32 < r.len → ⊥
  too_long h =
      let refused =
        add_ipv4_dir24-failed al t built.valid (address_bytes r.value) r.next_hop (omega arith)
          r.len (inl h) in
      cc (added, refused)

  add_route-Built : Built (r ∷ older) u
  add_route-Built =
      subst (Built (r ∷ older)) is_u
        (by_length (dec_le r.len 0) (dec_le r.len 24) (dec_le r.len 32))
    where
      by_length : Dec (r.len ≤ 0) → Dec (r.len ≤ 24) → Dec (r.len ≤ 32) → Built (r ∷ older) out.1
      by_length (yes none_set) _ _ = default-Built (omega arith)
      by_length (no some_set) (yes short) _ = short-Built (omega arith) short
      by_length (no some_set) (no long) (yes fits) = long-Built (omega arith) fits
      by_length (no some_set) (no long) (no beyond) = absurd (too_long (omega arith))

new-Built : {t : Trie} → IsNew t → Built [] t
unfolding answer longest
new-Built new = record {
  valid = new.valid;
  answers = λ a h. ground (arith, new.no_route a, new.no_default);
  no_groups = λ all i. new.plain i;
  no_routes = λ all a. new.no_route a;
}

add_routes-Built :
    (al : Allocator) (t : Trie) (h : List Route) (u : Trie)
    → Built [] t
    → IsSorted h
    → AllWords h
    → add_routes al t h ≡ some u
    → Built h u
unfolding add_routes
add_routes-Built al t [] u new sorted fit e = let same : t ≡ u = cc in subst (Built []) same new
add_routes-Built al t (r ∷ older) u new sorted fit e = elim (Option-cases (add_routes al t older)) [
  | inl stopped ↦ absurd (ground (arith, stopped))
  | inr (v, before) ↦
      add_route-Built al r older v u (add_routes-Built al t older v new sorted.1 fit.2 before)
        sorted.0 fit.0 fit.1 (rw before at e)
]

-- Let routes be added to a new trie so that none is shorter than one before it, each accepted.
-- Then a lookup of any address answers the next hop of the longest route that covers it, of the
-- latest such, and the invalid next hop if none does.
pub lookup-add_routes :
    (al : Allocator) (t u : Trie) (h : List Route)
    → create_ipv4_dir24 al ≡ some t
    → IsSorted h
    → AllWords h
    → add_routes al t h ≡ some u
    → (a : ℕ) → a < 2 ^ 32
    → lookup_ipv4_dir24 u a ≡ hop_of (longest 32 h a)
lookup-add_routes al t u h created sorted fit e a small =
    let built : Built h u =
      add_routes-Built al t h u (new-Built (create_ipv4_dir24-IsNew al created)) sorted fit e in
    lookup_ipv4_dir24_lem a built.valid small ∙ built.answers a small

-- A trie that is built so satisfies the invariant.
pub add_routes-IsValid :
    (al : Allocator) (t u : Trie) (h : List Route)
    → create_ipv4_dir24 al ≡ some t
    → IsSorted h
    → AllWords h
    → add_routes al t h ≡ some u
    → IsValid u
add_routes-IsValid al t u h created sorted fit e =
    let built : Built h u =
      add_routes-Built al t h u (new-Built (create_ipv4_dir24-IsNew al created)) sorted fit e in
    built.valid
