-- ===== src/History.antt =====
-- A history of prefixes added to a trie by an add function of src/4stride8/core.c,
-- src/6stride8/core.c or src/wide16/core.c, and the trie that stands for it.
pub mod Reach
use native.Mathlib.Decide.{dec_le}
use native.Mathlib.Nat.{div-eq_of_lt}
use liblpm.Base.{
  ℕ, ◌-◌, ◌*◌, ◌≤◌, ◌<◌, ◌≡◌, refl, arith, ap, subst, sym, ◌∙◌, Bool, true, false, ◌&&◌, ◌==◌, ◌⊎◌,
  if◌then◌else◌, Option, none, some, Option-cases, inl, inr, List, [], ◌∷◌,
}
use liblpm.Word.{invalid_next_hop}
use liblpm.Trie.{Bytes, Trie, Status, ok, failed}
use liblpm.Rib.{Route, covers, longest}
use liblpm.Rib.Sorted.{AllUpTo, IsSorted, longest-cons}
use liblpm.Prefix.{agree_bits}
use liblpm.Prefix.Value.{value, value-lt, agree_bits-eq-value}
use liblpm.Dir24.Index.{IsBytes}
use liblpm.Dir24.Lpm.{if_ok, if_ok-some, hop_of}
use liblpm.Stride8.Search.{deepest, deepest-none, deepest-stored}

-- A prefix as the functions take it.
pub record ByteRoute : Type 0 where
  pub bytes : Bytes
  pub len : ℕ
  pub next_hop : ℕ

abbrev pub AddFunction : Type 0
AddFunction = Trie → Bytes → ℕ → ℕ → Status × Trie

-- The prefixes of a history are added oldest first; none if one of them is refused.
unfoldable pub add_history : AddFunction → Trie → List ByteRoute → Option Trie
add_history add t [] = some t
add_history add t (r ∷ older) = elim (add_history add t older) [
  | none ↦ none
  | some u ↦ if_ok (add u r.bytes r.len r.next_hop)
]

abbrev pub as_route : ℕ → ByteRoute → Route
as_route n r = record { value = value n r.bytes; len = r.len; next_hop = r.next_hop }

abbrev pub as_routes : ℕ → List ByteRoute → List Route
as_routes n [] = []
as_routes n (r ∷ older) = as_route n r ∷ as_routes n older

-- The arguments are bytes and a next hop other than the invalid one.
abbrev pub AllBytes : List ByteRoute → Type 0
AllBytes [] = Unit
AllBytes (r ∷ older) = IsBytes r.bytes × (r.next_hop < invalid_next_hop) × AllBytes older

-- A kind of trie: its invariant, the routes that an address meets at its levels, the level at which
-- a prefix of some length is stored, and what a lookup makes of the deepest route.
pub record Kind : Type 1 where
  pub size : ℕ
  pub IsSound : Trie → Type 0
  pub route : Trie → Bytes → ℕ → Option ℕ
  pub level : ℕ → ℕ
  pub answer : Trie → Option ℕ → ℕ
  pub level_mono : (j k : ℕ) → j ≤ k → level j ≤ level k
  pub level-lt : (len : ℕ) → 0 < len → len ≤ 8 * size → level len < size
  pub answer-some : (t : Trie) (nh : ℕ) → nh < invalid_next_hop → answer t (some nh) ≡ nh
  pub answer-default : (t : Trie) → t.has_default_route ≡ true → answer t none ≡ t.default_next_hop
  pub answer-no_default :
      (t : Trie) → t.has_default_route ≡ false → answer t none ≡ invalid_next_hop
  pub answer_same :
      (t u : Trie) (r : Option ℕ)
      → u.has_default_route ≡ t.has_default_route
      → u.default_next_hop ≡ t.default_next_hop
      → answer u r ≡ answer t r

module _ (kind : Kind) where
  abbrev pub answer_of : Trie → Bytes → ℕ
  answer_of t a = kind.answer t (deepest (kind.route t a) kind.size)

  -- In `u` the addresses that `matches` have the route `r` at the level `d`; all other routes of `t`
  -- are there too, and the default route is.
  pub record Placed (t : Trie) (d : ℕ) (matches : Bytes → Bool) (r : Option ℕ) (u : Trie)
      : Type 0 where
    pub sound : kind.IsSound u
    pub default : u.has_default_route ≡ t.has_default_route
    pub hop : u.default_next_hop ≡ t.default_next_hop
    pub routes :
        (a : Bytes)
        → IsBytes a
        → (k : ℕ) → kind.route u a k ≡ (if k == d && matches a then r else kind.route t a k)

  -- In `u` the default route has the next hop `nh`; the other routes of `t` are there too.
  pub record Defaulted (t : Trie) (nh : ℕ) (u : Trie) : Type 0 where
    pub sound : kind.IsSound u
    pub default : u.has_default_route ≡ true
    pub hop : u.default_next_hop ≡ nh
    pub routes : (a : Bytes) → IsBytes a → (k : ℕ) → kind.route u a k ≡ kind.route t a k

  -- What an add function does for each length.
  pub record IsAdd (add : AddFunction) : Type 0 where
    pub default : (t : Trie) (p : Bytes) (nh : ℕ) → kind.IsSound t → Defaulted t nh (add t p 0 nh).1
    pub stores :
        (t : Trie) (p : Bytes) (len nh : ℕ)
        → kind.IsSound t
        → IsBytes p
        → 0 < len
        → len ≤ 8 * kind.size
        → (((add t p len nh).0 ≡ ok)
            × Placed t (kind.level len) (agree_bits len p) (some nh) (add t p len nh).1)
          ⊎ (((add t p len nh).0 ≡ failed) × kind.IsSound (add t p len nh).1)
    pub too_long :
        (t : Trie) (p : Bytes) (len nh : ℕ) → 8 * kind.size < len → add t p len nh ≡ (failed, t)

  -- A prefix of `m` bits is stored above the level `k`.
  abbrev IsAbove : ℕ → ℕ → Type 0
  IsAbove m k = (m ≡ 0) ⊎ (kind.level m < k)

  -- The trie stands for the history.
  pub record Built (h : List ByteRoute) (t : Trie) : Type 0 where
    pub sound : kind.IsSound t
    pub answers :
        (a : Bytes)
        → IsBytes a
        → answer_of t a
          ≡ hop_of (longest (8 * kind.size) (as_routes kind.size h) (value kind.size a))
    pub top :
        (m : ℕ)
        → AllUpTo m (as_routes kind.size h)
        → (a : Bytes) → IsBytes a
        → (k : ℕ) → IsAbove m k
        → kind.route t a k ≡ none

  module _ (add : AddFunction) (is_add : IsAdd add) (r : ByteRoute) (older : List ByteRoute)
      (t : Trie) (built : Built older t) (newer : AllUpTo r.len (as_routes kind.size older))
      (bytes : IsBytes r.bytes) (hop_fits : r.next_hop < invalid_next_hop) where
    abbrev n : ℕ
    n = kind.size

    abbrev covered : Bytes → Bool
    covered a = covers (8 * n) (as_route n r) (value n a)

    answers_newest :
        (a : Bytes)
        → IsBytes a
        → (if covered a then r.next_hop else answer_of t a)
          ≡ hop_of (longest (8 * n) (as_routes n (r ∷ older)) (value n a))
    answers_newest a ba =
        rw (longest-cons (8 * n) (value n a) (as_route n r) (as_routes n older) newer)
          (ground (arith, built.answers a ba))

    Defaulted-Built : (u : Trie) → r.len ≡ 0 → Defaulted t r.next_hop u → Built (r ∷ older) u
    Defaulted-Built u e set = record {
      sound = set.sound;
      answers = λ a ba.
          let no_routes : deepest (kind.route u a) n ≡ none =
            deepest-none (kind.route u a) n
              (λ k. set.routes a ba k ∙ built.top r.len newer a ba k (inl e)) in
          let all : covered a ≡ true = everything a ba in
          rw (answer_of, no_routes, kind.answer-default u set.default, set.hop)
            (rw all at (answers_newest a ba));
      top = λ m all a ba k h. set.routes a ba k ∙ built.top m all.1 a ba k h;
    }
      where
        everything : (a : Bytes) → IsBytes a → covered a ≡ true
        everything a ba =
            let bits : 8 * n - r.len ≡ 8 * n = omega arith in
            rw (bits, div-eq_of_lt (value-lt n a ba), div-eq_of_lt (value-lt n r.bytes bytes)) refl

    -- A next hop that is stored is never the one that stands for none.
    newest_hop :
        (matches : Bool) (old : Option ℕ)
        → kind.answer t (if matches then some r.next_hop else old)
          ≡ (if matches then r.next_hop else kind.answer t old)
    newest_hop true old = kind.answer-some t r.next_hop hop_fits
    newest_hop false old = refl

    Placed-Built :
        (u : Trie)
        → 0 < r.len
        → r.len ≤ 8 * n
        → Placed t (kind.level r.len) (agree_bits r.len r.bytes) (some r.next_hop) u
        → Built (r ∷ older) u
    Placed-Built u pos fits placed = record {
      sound = placed.sound;
      answers = λ a ba.
          let deep =
            deepest-stored (kind.route t a) (kind.route u a) (kind.level r.len) n r.next_hop
              (agree_bits r.len r.bytes a) (λ k. placed.routes a ba k)
              (λ k h. built.top r.len newer a ba k (inr h)) (kind.level-lt r.len pos fits) in
          rw
            (
              answer_of,
              deep,
              kind.answer_same t u
                  (if agree_bits r.len r.bytes a
                    then some r.next_hop
                    else deepest (kind.route t a) n)
                  placed.default placed.hop,
              newest_hop (agree_bits r.len r.bytes a) (deepest (kind.route t a) n),
              agree_bits-eq-value n r.len r.bytes a bytes ba pos fits,
            )
            (answers_newest a ba);
      top = λ m all a ba k h.
          placed.routes a ba k
          ∙ other_level (kind.route t a k) (agree_bits r.len r.bytes a) m all.0 k h
              (built.top m all.1 a ba k h);
    }
      where
        other_level :
            (x : Option ℕ) (c : Bool) (m : ℕ)
            → r.len ≤ m
            → (k : ℕ) → IsAbove m k
            → x ≡ none
            → (if k == kind.level r.len && c then some r.next_hop else x) ≡ none
        other_level x c m up k (inl none_set) e = absurd (omega arith)
        other_level x c m up k (inr below) e =
            let above : (k == kind.level r.len) ≡ false =
              ground (arith, kind.level_mono r.len m up) in
            rw above e

    abbrev out : Status × Trie
    out = add t r.bytes r.len r.next_hop

    add-Built : (u : Trie) → if_ok out ≡ some u → Built (r ∷ older) u
    add-Built u accepted =
        subst (Built (r ∷ older)) both.1 (by_length (dec_le r.len 0) (dec_le r.len (8 * n)))
      where
        both : (out.0 ≡ ok) × (out.1 ≡ u)
        both = if_ok-some out u accepted

        by_length : Dec (r.len ≤ 0) → Dec (r.len ≤ 8 * n) → Built (r ∷ older) out.1
        by_length (yes none_set) _ =
            let is_zero : r.len ≡ 0 = omega arith in
            Defaulted-Built out.1 is_zero (
              subst (λ len. Defaulted t r.next_hop (add t r.bytes len r.next_hop).1) (sym is_zero)
                (is_add.default t r.bytes r.next_hop built.sound))
        by_length (no some_set) (yes fits) =
            elim (is_add.stores t r.bytes r.len r.next_hop built.sound bytes (omega arith) fits) [
              | inl (is_ok, placed) ↦ Placed-Built out.1 (omega arith) fits placed
              | inr (is_failed, sound) ↦ absurd (cc (both.0, is_failed))
            ]
        by_length (no some_set) (no long) =
            let refused = is_add.too_long t r.bytes r.len r.next_hop (omega arith) in
            let is_failed : out.0 ≡ failed = ap (λ (o : Status × Trie). o.0) refused in
            absurd (cc (both.0, is_failed))

  -- An add with any arguments and any outcome.
  pub add-IsSound :
      (add : AddFunction)
      → IsAdd add
      → (t : Trie) (p : Bytes) (len nh : ℕ) → kind.IsSound t
      → IsBytes p
      → kind.IsSound (add t p len nh).1
  add-IsSound add is_add t p len nh sound bytes =
      by_length (dec_le len 0) (dec_le len (8 * kind.size))
    where
      by_length : Dec (len ≤ 0) → Dec (len ≤ 8 * kind.size) → kind.IsSound (add t p len nh).1
      by_length (yes none_set) _ =
          let is_zero : len ≡ 0 = omega arith in rw is_zero (is_add.default t p nh sound).sound
      by_length (no some_set) (yes fits) =
          elim (is_add.stores t p len nh sound bytes (omega arith) fits) [
            | inl (is_ok, placed) ↦ placed.sound
            | inr (is_failed, kept) ↦ kept
          ]
      by_length (no some_set) (no long) = rw (is_add.too_long t p len nh (omega arith)) sound

  pub add_history-Built :
      (add : AddFunction)
      → IsAdd add
      → (t : Trie) (h : List ByteRoute) (u : Trie) → Built [] t
      → IsSorted (as_routes kind.size h)
      → AllBytes h
      → add_history add t h ≡ some u
      → Built h u
  unfolding add_history
  add_history-Built add is_add t [] u new sorted fit e =
      let same : t ≡ u = cc in subst (Built []) same new
  add_history-Built add is_add t (r ∷ older) u new sorted fit e =
      elim (Option-cases (add_history add t older)) [
        | inl stopped ↦ absurd (ground (arith, stopped))
        | inr (v, before) ↦
            add-Built add is_add r older v
              (add_history-Built add is_add t older v new sorted.1 fit.2 before) sorted.0 fit.0
              fit.1 u (rw before at e)
      ]

  -- A trie without routes stands for no history.
  pub new-Built :
      (t : Trie)
      → kind.IsSound t
      → t.has_default_route ≡ false
      → ((a : Bytes) (k : ℕ) → kind.route t a k ≡ none)
      → Built [] t
  unfolding longest
  new-Built t sound no_default no_routes = record {
    sound = sound;
    answers = λ a ba.
        rw (answer_of, deepest-none (kind.route t a) kind.size (no_routes a))
          (kind.answer-no_default t no_default);
    top = λ m all a ba k h. no_routes a k;
  }
