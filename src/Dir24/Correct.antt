-- ===== src/Dir24/Correct.antt =====
-- `lpm_add_ipv4_dir24` by what the lookups answer before and after.
use liblpm.Base.{
  ℕ, ◌/◌, ◌^◌, ◌≤◌, ◌<◌, ◌≡◌, ◌⊎◌, refl, arith, true, ◌&&◌, not, if◌then◌else◌, none, some, bit_or,
}
use liblpm.Word.{valid_flag}
use liblpm.Word.Flags.{test-high_bits}
use liblpm.Trie.{Trie, Bytes, Status, ok, failed, Allocator}
use liblpm.Dir24.{add_ipv4_dir24, add_short, add_long, count_added}
use liblpm.Dir24.Index.{IsBytes, word}
use liblpm.Dir24.Valid.{IsValid, extended, bookkeeping-IsValid}
use liblpm.Dir24.Answer.{answer, route_at, entry_at}
use liblpm.Dir24.Cover.{agree}
use liblpm.Dir24.Short.{extended-refill}
use liblpm.Dir24.Add.{
  route_at-add_short, add_short-IsValid, hop_word, LongAdded, Unplaced, add_long-LongAdded,
  add_long-Unplaced,
}

-- The answer follows from the route and the default route.
pub answer_eq :
    (t u : Trie) (a : ℕ)
    → route_at u a ≡ route_at t a
    → u.has_default_route ≡ t.has_default_route
    → u.default_next_hop ≡ t.default_next_hop
    → answer u a ≡ answer t a
unfolding answer
answer_eq t u a e b d = ground arith

pub answer-some : (t : Trie) (a nh : ℕ) → route_at t a ≡ some nh → answer t a ≡ nh
unfolding answer
answer-some t a nh e = ground arith

module _ (al : Allocator) (t : Trie) (valid : IsValid t) (p : Bytes) (nh : ℕ)
    (word_sized : nh < 2 ^ 32) where
  -- A length beyond 32 or a next hop beyond 30 bits is refused, and the trie stays as it is.
  pub add_ipv4_dir24-failed :
      (len : ℕ) → (32 < len) ⊎ (2 ^ 30 ≤ nh) → add_ipv4_dir24 al t p len nh ≡ (failed, t)
  unfolding add_ipv4_dir24
  add_ipv4_dir24-failed len bad = ground (arith, test-high_bits nh word_sized, valid.present)

-- What an add of a default route does: it answers where no other route does.
pub record DefaultAdded (t : Trie) (nh : ℕ) (out : Status × Trie) : Type 0 where
  pub returns : out.0 ≡ ok
  pub valid : IsValid out.1
  pub same_routes : (a : ℕ) → route_at out.1 a ≡ route_at t a
  pub same_extended : (i : ℕ) → extended out.1 i ≡ extended t i
  pub unmatched : (a : ℕ) → route_at t a ≡ none → answer out.1 a ≡ nh

-- What an add of a prefix of 1 to 24 bits does: it leaves out the entries that lead to a group.
pub record ShortAdded (t : Trie) (p : Bytes) (len nh : ℕ) (out : Status × Trie) : Type 0 where
  pub returns : out.0 ≡ ok
  pub valid : IsValid out.1
  pub answers :
      (a : ℕ)
      → answer out.1 a
        ≡ (if agree len (word p) a && not (extended t (a / 256)) then nh else answer t a)
  pub same_extended : (i : ℕ) → extended out.1 i ≡ extended t i

module _ (al : Allocator) (t : Trie) (valid : IsValid t) (p : Bytes) (nh : ℕ)
    (hop : nh < 2 ^ 30) where
  pub add-DefaultAdded : DefaultAdded t nh (add_ipv4_dir24 al t p 0 nh)
  add-DefaultAdded = rw branch (record {
    returns = unfold count_added in refl;
    valid = unfold count_added in bookkeeping-IsValid _ _ _ valid;
    same_routes = λ a. unfold count_added route_at entry_at in refl;
    same_extended = λ i. unfold count_added in refl;
    unmatched = λ a alone. unfold count_added answer route_at entry_at in ground arith;
  })
    where
      branch :
          add_ipv4_dir24 al t p 0 nh
          ≡ count_added (record t { has_default_route = true; default_next_hop = nh })
      branch = unfold add_ipv4_dir24 in ground (arith, test-high_bits nh, valid.present)

  module _ (bytes : IsBytes p) (len : ℕ) where
    pub add-ShortAdded : 0 < len → len ≤ 24 → ShortAdded t p len nh (add_ipv4_dir24 al t p len nh)
    add-ShortAdded pos short = rw branch (record {
      returns = unfold add_short count_added in refl;
      valid = add_short-IsValid t valid p bytes nh hop len short;
      answers = λ a.
          unfold answer add_short count_added in
          ground (arith, route_at-add_short t valid p bytes nh hop len short a);
      same_extended = λ i.
          unfold add_short count_added in
          extended-refill t p len (bit_or valid_flag nh) bytes short (hop_word nh hop).1 i;
    })
      where
        branch : add_ipv4_dir24 al t p len nh ≡ add_short t p len nh
        branch = unfold add_ipv4_dir24 in ground (arith, test-high_bits nh, valid.present)

    -- What an add of a prefix of 25 to 32 bits answers, unless memory runs out.
    pub add-LongAdded :
        24 < len
        → len ≤ 32
        → ((add_ipv4_dir24 al t p len nh ≡ (failed, t)) × Unplaced al t p)
          ⊎ LongAdded t p len nh (add_ipv4_dir24 al t p len nh)
    add-LongAdded long fits = rw branch (add_long-LongAdded al t valid p bytes nh hop len long fits)
      where
        branch : add_ipv4_dir24 al t p len nh ≡ add_long al t p len nh
        branch = unfold add_ipv4_dir24 in ground (arith, test-high_bits nh, valid.present)

    -- Without a group for it such a prefix is refused.
    pub add-Unplaced :
        24 < len → len ≤ 32 → Unplaced al t p → add_ipv4_dir24 al t p len nh ≡ (failed, t)
    add-Unplaced long fits unplaced =
        rw branch (add_long-Unplaced al t valid p bytes nh hop len long fits unplaced)
      where
        branch : add_ipv4_dir24 al t p len nh ≡ add_long al t p len nh
        branch = unfold add_ipv4_dir24 in ground (arith, test-high_bits nh, valid.present)
