-- ===== src/Dir24/Effects.antt =====
-- The operations of DIR-24-8 by what `lpm_lookup_ipv4_dir24` returns before and after.
use liblpm.Base.{
  ℕ, ◌/◌, ◌^◌, ◌≤◌, ◌<◌, ◌≡◌, ◌⊎◌, ◌∙◌, sym, arith, Bool, true, false, ◌&&◌, not, if◌then◌else◌,
  Bool-cases, inl, inr, ◌==◌,
}
use liblpm.Trie.{Trie, Bytes, Status, ok, failed, Allocator}
use liblpm.Dir24.{add_ipv4_dir24, delete_ipv4_dir24}
use liblpm.Dir24.Index.{IsBytes, word}
use liblpm.Dir24.Valid.{IsValid, extended}
use liblpm.Dir24.Answer.{answer, lookup_ipv4_dir24_lem, lookup_ipv4_dir24_bytes_lem}
use liblpm.Dir24.Lookup.{lookup_ipv4_dir24, lookup_ipv4_dir24_bytes}
use liblpm.Dir24.Cover.{agree}
use liblpm.Dir24.Add.{LongAdded, Unplaced}
use liblpm.Dir24.Correct.{add-ShortAdded, add-LongAdded, ShortAdded, answer_eq, answer-some}
use liblpm.Dir24.Delete.{
  Deleted, default_of, delete_short-Deleted, delete_long-Deleted, delete_unextended-Deleted,
}

word-lt : (p : Bytes) → IsBytes p → word p < 2 ^ 32
word-lt p bytes = omega (arith, bytes 0, bytes 1, bytes 2, bytes 3)

-- The two forms of the lookup agree: four bytes, and the `uint32_t` that they spell.
lookup_bytes-eq-lookup :
    (t : Trie) (p : Bytes)
    → IsValid t
    → IsBytes p
    → lookup_ipv4_dir24_bytes t p ≡ lookup_ipv4_dir24 t (word p)
lookup_bytes-eq-lookup t p valid bytes =
    lookup_ipv4_dir24_bytes_lem p valid bytes
    ∙ sym (lookup_ipv4_dir24_lem (word p) valid (word-lt p bytes))

-- An operation succeeds, keeps the invariant, and makes the lookup of `a` answer `next`.
pub record Answers (out : Status × Trie) (a next : ℕ) : Type 0 where
  pub returns : out.0 ≡ ok
  pub valid : IsValid out.1
  pub lookup : lookup_ipv4_dir24 out.1 a ≡ next

module _ (al : Allocator) (t : Trie) (valid : IsValid t) (p : Bytes) (bytes : IsBytes p)
    (len nh : ℕ) (hop : nh < 2 ^ 30) (a : ℕ) (small : a < 2 ^ 32) where
  -- Adding a prefix of 1 to 24 bits succeeds. The addresses that agree with it in `len` bits then
  -- get its next hop, unless their dir24 entry leads to a group: those keep the answer they had, also
  -- if that was the default route. All else is as before.
  pub add_short-Answers :
      0 < len
      → len ≤ 24
      → Answers
          (add_ipv4_dir24 al t p len nh)
          a
          (if agree len (word p) a && not (extended t (a / 256)) then nh else lookup_ipv4_dir24 t a)
  add_short-Answers pos short =
      let added = add-ShortAdded al t valid p nh hop bytes len pos short in
      record {
        returns = added.returns;
        valid = added.valid;
        lookup =
            lookup_ipv4_dir24_lem a added.valid small
            ∙ rw (lookup_ipv4_dir24_lem a valid small) (added.answers a);
      }

  -- Adding a prefix of 25 to 32 bits changes nothing and fails, if its dir24 entry leads to no group,
  -- all groups are in use and the allocator refuses the array of twice the size; or it succeeds.
  -- Then the addresses that agree with it get its next hop, also those that a longer prefix gave
  -- theirs, and all else is as before.
  pub add_long-Answers :
      24 < len
      → len ≤ 32
      → ((add_ipv4_dir24 al t p len nh ≡ (failed, t)) × Unplaced al t p)
        ⊎ Answers
            (add_ipv4_dir24 al t p len nh)
            a
            (if agree len (word p) a then nh else lookup_ipv4_dir24 t a)
  add_long-Answers long fits = elim (add-LongAdded al t valid p nh hop bytes len long fits) [
    | inl refused ↦ inl refused
    | inr added ↦ inr (record {
      returns = added.returns;
      valid = added.valid;
      lookup =
          lookup_ipv4_dir24_lem a added.valid small
          ∙ rw (lookup_ipv4_dir24_lem a valid small) (long_answer added);
    })
  ]
    where
      long_answer :
          LongAdded t p len nh (add_ipv4_dir24 al t p len nh)
          → answer (add_ipv4_dir24 al t p len nh).1 a
            ≡ (if agree len (word p) a then nh else answer t a)
      long_answer added = elim (Bool-cases (agree len (word p) a)) [
        | inl on ↦ rw on (answer-some _ a nh (added.routes a small ∙ rw on))
        | inr off ↦
            rw off
              (answer_eq t _ a (added.routes a small ∙ rw off) added.same_default added.same_hop)
      ]

-- A deletion by what the lookups answer.
Deleted-Answers :
    (t : Trie) (gone : ℕ → Bool) (out : Status × Trie) (a : ℕ)
    → IsValid t
    → Deleted t gone out
    → a < 2 ^ 32
    → Answers out a (if gone a then default_of t else lookup_ipv4_dir24 t a)
Deleted-Answers t gone out a valid deleted small = record {
  returns = deleted.returns;
  valid = deleted.valid;
  lookup =
      lookup_ipv4_dir24_lem a deleted.valid small
      ∙ rw (lookup_ipv4_dir24_lem a valid small) (deleted.answers a small);
}

module _ (t : Trie) (valid : IsValid t) (p : Bytes) (bytes : IsBytes p) (len a : ℕ)
    (small : a < 2 ^ 32) where
  -- Deleting a prefix of 1 to 24 bits succeeds, whether or not it was added. It leaves the addresses
  -- that agree with it to the default route, and to no shorter prefix, unless their dir24 entry leads
  -- to a group; all else is as before.
  pub delete_short-Answers :
      0 < len
      → len ≤ 24
      → Answers (delete_ipv4_dir24 t p len) a (
          if agree len (word p) a && not (extended t (a / 256))
          then default_of t
          else lookup_ipv4_dir24 t a)
  delete_short-Answers pos short =
      Deleted-Answers t _ _ a valid (delete_short-Deleted t valid p len bytes pos short) small

  -- Deleting a prefix of 25 to 32 bits whose dir24 entry leads to a group succeeds, whether or not it
  -- was added. It leaves the addresses that agree with it to the default route, and to no shorter
  -- prefix; all else is as before.
  pub delete_long-Answers :
      24 < len
      → len ≤ 32
      → extended t (word p / 256) ≡ true
      → Answers
          (delete_ipv4_dir24 t p len)
          a
          (if agree len (word p) a then default_of t else lookup_ipv4_dir24 t a)
  delete_long-Answers long fits leads =
      Deleted-Answers t _ _ a valid (delete_long-Deleted t valid p len bytes long fits leads) small

  -- Deleting a prefix of 25 to 32 bits whose dir24 entry leads to no group
  -- leaves all 256 addresses of that entry to the default route.
  pub delete_absent-Answers :
      24 < len
      → len ≤ 32
      → extended t (word p / 256) ≡ false
      → Answers
          (delete_ipv4_dir24 t p len)
          a
          (if a / 256 == word p / 256 then default_of t else lookup_ipv4_dir24 t a)
  delete_absent-Answers long fits plain =
      Deleted-Answers t _ _ a valid (delete_unextended-Deleted t valid p len bytes long fits plain)
        small

-- A shorter prefix that is added after a longer one takes its place: of two prefixes of 1 to 24
-- bits that both cover an address whose dir24 entry leads to no group, the later one answers, also
-- if the earlier one is longer.
pub lookup-add_shorter :
    (al : Allocator) (t : Trie) (p q : Bytes) (long short nh next a : ℕ)
    → IsValid t
    → IsBytes p
    → IsBytes q
    → nh < 2 ^ 30
    → next < 2 ^ 30
    → 0 < short
    → short < long
    → long ≤ 24
    → a < 2 ^ 32
    → agree long (word p) a ≡ true
    → agree short (word q) a ≡ true
    → extended t (a / 256) ≡ false
    → let (s, u) = add_ipv4_dir24 al t p long nh in
      lookup_ipv4_dir24 (add_ipv4_dir24 al u q short next).1 a ≡ next
lookup-add_shorter al t p q long short nh next a valid bp bq hn hx pos lt le small cp cq plain =
    second.lookup ∙ rw (cq, first.same_extended (a / 256), plain)
  where
    first : ShortAdded t p long nh (add_ipv4_dir24 al t p long nh)
    first = add-ShortAdded al t valid p nh hn bp long (omega arith) le

    second : Answers (add_ipv4_dir24 al (add_ipv4_dir24 al t p long nh).1 q short next) a (
        if agree short (word q) a && not (extended (add_ipv4_dir24 al t p long nh).1 (a / 256))
        then next
        else lookup_ipv4_dir24 (add_ipv4_dir24 al t p long nh).1 a)
    second = add_short-Answers al _ first.valid q bq short next hx a small pos (omega arith)
