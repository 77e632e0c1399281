-- ===== src/Dir24/Delete.antt =====
-- `lpm_delete_ipv4_dir24`: each branch, and what later lookups answer.
use liblpm.Base.{
  ℕ, ◌-◌, ◌/◌, ◌^◌, ◌≤◌, ◌<◌, ◌≡◌, refl, ◌∙◌, arith, Bool, true, false, ◌&&◌, not, if◌then◌else◌,
  Bool-cases, inl, inr, none, ltb, ◌==◌,
}
use liblpm.Word.{test, ext_flag, invalid_next_hop}
use liblpm.Word.Flags.{bit_and-nh_mask}
use liblpm.Trie.{Trie, Bytes, Status, ok, failed, write}
use liblpm.Dir24.{delete_ipv4_dir24, delete_long, count_deleted, dir24_index}
use liblpm.Dir24.Index.{IsBytes, word, dir24_index_lem}
use liblpm.Dir24.Valid.{IsValid, extended, bookkeeping-IsValid, retable-IsValid}
use liblpm.Dir24.Answer.{answer, route_at, entry_at, decode, or_invalid}
use liblpm.Dir24.Cover.{agree}
use liblpm.Dir24.Short.{refill, entry_at-refill, refill-IsValid}
use liblpm.Dir24.Long.{regroup, entry_at-regroup, regroup-IsValid}

-- What a lookup answers where no route matches.
abbrev pub default_of : Trie → ℕ
default_of t = if t.has_default_route then t.default_next_hop else invalid_next_hop

-- A delete that leaves the default route alone takes the routes of the addresses in `gone` away.
pub record Deleted (t : Trie) (gone : ℕ → Bool) (out : Status × Trie) : Type 0 where
  pub returns : out.0 ≡ ok
  pub valid : IsValid out.1
  pub answers :
      (a : ℕ) → a < 2 ^ 32 → answer out.1 a ≡ (if gone a then default_of t else answer t a)
  pub counted : out.1.num_prefixes ≡ t.num_prefixes - 1

answer_gone :
    (t u : Trie) (gone : ℕ → Bool) (a : ℕ)
    → u.has_default_route ≡ t.has_default_route
    → u.default_next_hop ≡ t.default_next_hop
    → route_at u a ≡ (if gone a then none else route_at t a)
    → answer u a ≡ (if gone a then default_of t else answer t a)
unfolding answer
answer_gone t u gone a b d e = ground arith

route_at-count : (u : Trie) (a : ℕ) → route_at (count_deleted u).1 a ≡ route_at u a
unfolding count_deleted route_at entry_at
route_at-count u a = ground arith

-- To count changes neither the answers nor the invariant.
module _ (t u : Trie) (gone : ℕ → Bool) (same_default : u.has_default_route ≡ t.has_default_route)
    (same_hop : u.default_next_hop ≡ t.default_next_hop)
    (same_count : u.num_prefixes ≡ t.num_prefixes) (valid : IsValid u)
    (routes : (a : ℕ) → a < 2 ^ 32 → route_at u a ≡ (if gone a then none else route_at t a)) where
  counted-Deleted : Deleted t gone (count_deleted u)
  counted-Deleted = record {
    returns = unfold count_deleted in ground arith;
    valid = elim (Bool-cases (ltb 0 u.num_prefixes)) [
      | inl some_left ↦ unfold count_deleted in rw some_left (bookkeeping-IsValid _ _ _ valid)
      | inr none_left ↦ unfold count_deleted in rw none_left valid
    ];
    answers = λ a h.
        answer_gone t (count_deleted u).1 gone a (unfold count_deleted in ground arith)
          (unfold count_deleted in ground arith) (route_at-count u a ∙ routes a h);
    counted = unfold count_deleted in ground arith;
  }

module _ (t : Trie) (valid : IsValid t) (p : Bytes) (len : ℕ) where
  -- A length beyond 32 is refused, and the trie stays as it is.
  pub delete_ipv4_dir24-failed : 32 < len → delete_ipv4_dir24 t p len ≡ (failed, t)
  unfolding delete_ipv4_dir24
  delete_ipv4_dir24-failed h = ground arith

  delete_default :
      delete_ipv4_dir24 t p 0
      ≡ count_deleted (record t { has_default_route = false; default_next_hop = invalid_next_hop })
  delete_default = unfold delete_ipv4_dir24 in ground (arith, valid.present)

  -- Deleting the default route keeps the invariant.
  pub delete_default-IsValid : IsValid (delete_ipv4_dir24 t p 0).1
  delete_default-IsValid = rw delete_default (elim (Bool-cases (ltb 0 t.num_prefixes)) [
    | inl some_left ↦ unfold count_deleted in rw some_left (bookkeeping-IsValid _ _ _ valid)
    | inr none_left ↦ unfold count_deleted in rw none_left (bookkeeping-IsValid _ _ _ valid)
  ])

  module _ (bytes : IsBytes p) where
    -- A prefix of 1 to 24 bits goes from the entries that lead to no group.
    pub delete_short-Deleted :
        0 < len
        → len ≤ 24
        → Deleted t
            (λ a. agree len (word p) a && not (extended t (a / 256)))
            (delete_ipv4_dir24 t p len)
    delete_short-Deleted pos short = rw branch (
        counted-Deleted t (refill t p len 0) _ refl refl refl
          (refill-IsValid t p len 0 bytes short plain (omega arith) valid)
          (λ a h.
            unfold route_at decode in
            ground (arith, entry_at-refill t p len 0 bytes short plain a)))
      where
        plain : test 0 ext_flag ≡ false
        plain = unfold test in refl

        branch : delete_ipv4_dir24 t p len ≡ count_deleted (refill t p len 0)
        branch = unfold delete_ipv4_dir24 in ground (arith, valid.present)

    delete_long_lem :
        24 < len
        → len ≤ 32
        → delete_ipv4_dir24 t p len ≡ (
            if extended t (word p / 256)
            then count_deleted (regroup t p len 0)
            else count_deleted (record t { dir24_table = write t.dir24_table (word p / 256) 0 }))
    unfolding delete_ipv4_dir24 delete_long
    delete_long_lem long fits =
        rw (← dir24_index_lem p bytes, ← bit_and-nh_mask (t.dir24_table (dir24_index p)))
          (ground (arith, valid.present))

    -- A longer prefix goes from the group of its dir24 entry.
    pub delete_long-Deleted :
        24 < len
        → len ≤ 32
        → extended t (word p / 256) ≡ true
        → Deleted t (agree len (word p)) (delete_ipv4_dir24 t p len)
    delete_long-Deleted long fits leads =
        rw (delete_long_lem long fits, leads)
          (counted-Deleted t (regroup t p len 0) _ refl refl refl
            (regroup-IsValid p len 0 bytes long fits t valid leads (omega arith))
            (λ a h.
              unfold route_at decode in
              ground (arith, entry_at-regroup p len 0 bytes long fits t valid leads a h)))

    -- Where that entry leads to no group, the entry is cleared: all its 256 addresses lose their
    -- route, whatever prefix gave it to them.
    pub delete_unextended-Deleted :
        24 < len
        → len ≤ 32
        → extended t (word p / 256) ≡ false
        → Deleted t (λ a. a / 256 == word p / 256) (delete_ipv4_dir24 t p len)
    delete_unextended-Deleted long fits plain =
        rw (delete_long_lem long fits, plain)
          (counted-Deleted t (record t { dir24_table = write t.dir24_table (word p / 256) 0 }) _
            refl refl refl
            (retable-IsValid (write t.dir24_table (word p / 256) 0) valid
              (λ i. unfold write in ground (arith, valid.table_words i))
              (λ i. unfold write in ground (arith, plain, zero_plain))
              (λ i long. unfold write in ground (arith, plain)))
            (λ a h. unfold route_at entry_at decode write test in ground arith))
      where
        zero_plain : test 0 ext_flag ≡ false
        zero_plain = unfold test in refl

    -- Without the default route an address that no other route matches has the invalid next hop.
    pub delete_default_lem :
        (a : ℕ)
        → ((delete_ipv4_dir24 t p 0).0 ≡ ok)
          × (answer (delete_ipv4_dir24 t p 0).1 a ≡ or_invalid (route_at t a))
    delete_default_lem a = rw delete_default (
      unfold count_deleted in ground arith,
      unfold count_deleted answer route_at entry_at or_invalid in ground arith,
    )
