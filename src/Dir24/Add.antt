-- ===== src/Dir24/Add.antt =====
-- `lpm_add_ipv4_dir24`: each branch, and what later lookups answer.
use liblpm.Base.{
  ℕ, ◌+◌, ◌/◌, ◌^◌, ◌≤◌, ◌<◌, ◌≡◌, ◌⊎◌, refl, arith, subst, ◌∙◌, ◌&&◌, true, false, not,
  if◌then◌else◌, Bool-cases, inl, inr, bit_or, some,
}
use liblpm.Word.{test, valid_flag, ext_flag}
use liblpm.Word.Flags.{bit_or-valid_flag, test-ext_flag, bit_and-nh_mask}
use liblpm.Trie.{Trie, Table, Bytes, Status, ok, failed, Allocator}
use liblpm.Dir24.{
  add_short, add_long, add_new_group, store_long, count_added, extend_entry, tbl8_group_alloc,
  dir24_index,
}
use liblpm.Dir24.Index.{IsBytes, word, dir24_index_lem}
use liblpm.Dir24.Valid.{IsValid, extended, group_of, bookkeeping-IsValid, used-lt}
use liblpm.Dir24.Answer.{entry_at, decode, route_at}
use liblpm.Dir24.Cover.{agree}
use liblpm.Dir24.Short.{entry_at-refill, refill-IsValid}
use liblpm.Dir24.Long.{entry_at-regroup, regroup-IsValid}
use liblpm.Dir24.Extend.{NoGroup, OneMore, AllocResult, tbl8_group_alloc_lem, tbl8_group_alloc-none}
use liblpm.Dir24.Extended.{after, extended-after, group_of-after, route_at-after, after-IsValid}

-- The word that holds a next hop.
pub hop_word :
    (nh : ℕ)
    → nh < 2 ^ 30
    → (bit_or valid_flag nh < 2 ^ 32)
      × (test (bit_or valid_flag nh) ext_flag ≡ false)
      × (decode (bit_or valid_flag nh) ≡ some nh)
unfolding decode
hop_word nh h =
    rw (bit_or-valid_flag nh (omega arith)) (ground (arith, test-ext_flag (2 ^ 31 + nh)))

module _ (t : Trie) (valid : IsValid t) (p : Bytes) (bytes : IsBytes p) (nh : ℕ)
    (hop : nh < 2 ^ 30) where
  pub route_at-add_short :
      (len : ℕ)
      → len ≤ 24
      → (a : ℕ)
      → route_at (add_short t p len nh).1 a
        ≡ (if agree len (word p) a && not (extended t (a / 256)) then some nh else route_at t a)
  unfolding route_at entry_at add_short count_added
  route_at-add_short len short a = ground (
    arith,
    hop_word nh hop,
    entry_at-refill t p len (bit_or valid_flag nh) bytes short (hop_word nh hop).1 a,
  )

  pub add_short-IsValid : (len : ℕ) → len ≤ 24 → IsValid (add_short t p len nh).1
  unfolding add_short count_added
  add_short-IsValid len short = bookkeeping-IsValid _ _ _ (
      refill-IsValid t p len (bit_or valid_flag nh) bytes short (hop_word nh hop).1
        (hop_word nh hop).0 valid)

-- The dir24 entry of a prefix leads to no group, and there is none left for it.
pub record Unplaced (al : Allocator) (t : Trie) (p : Bytes) : Type 0 where
  pub plain : extended t (word p / 256) ≡ false
  pub no_group : NoGroup al t

-- What an add of a prefix longer than 24 bits does, if it does not run out of memory.
pub record LongAdded (t : Trie) (p : Bytes) (len nh : ℕ) (out : Status × Trie) : Type 0 where
  pub returns : out.0 ≡ ok
  pub valid : IsValid out.1
  pub routes :
      (a : ℕ)
      → a < 2 ^ 32
      → route_at out.1 a ≡ (if agree len (word p) a then some nh else route_at t a)
  pub same_default : out.1.has_default_route ≡ t.has_default_route
  pub same_hop : out.1.default_next_hop ≡ t.default_next_hop

-- A prefix longer than 24 bits, where its dir24 entry is extended already.
module _ (t : Trie) (valid : IsValid t) (p : Bytes) (bytes : IsBytes p) (nh : ℕ) (hop : nh < 2 ^ 30)
    (len : ℕ) (long : 24 < len) (fits : len ≤ 32) (leads : extended t (word p / 256) ≡ true) where
  abbrev stored : Status × Trie
  stored = store_long p len nh (group_of t (word p / 256)) t

  route_at-stored :
      (a : ℕ)
      → a < 2 ^ 32
      → route_at stored.1 a ≡ (if agree len (word p) a then some nh else route_at t a)
  unfolding route_at entry_at store_long count_added
  route_at-stored a h = ground (
    arith,
    hop_word nh hop,
    entry_at-regroup p len (bit_or valid_flag nh) bytes long fits t valid leads a h,
  )

  stored-IsValid : IsValid stored.1
  unfolding store_long count_added
  stored-IsValid = bookkeeping-IsValid _ _ _ (
      regroup-IsValid p len (bit_or valid_flag nh) bytes long fits t valid leads
        (hop_word nh hop).0)

  stored-LongAdded : LongAdded t p len nh stored
  stored-LongAdded = record {
    returns = unfold store_long count_added in refl;
    valid = stored-IsValid;
    routes = route_at-stored;
    same_default = unfold store_long count_added in refl;
    same_hop = unfold store_long count_added in refl;
  }

module _ (al : Allocator) (t : Trie) (valid : IsValid t) (p : Bytes) (bytes : IsBytes p) (nh : ℕ)
    (hop : nh < 2 ^ 30) (len : ℕ) (long : 24 < len) (fits : len ≤ 32) where
  small : word p / 256 < 2 ^ 24
  small = omega (arith, bytes 0, bytes 1, bytes 2, bytes 3)

  add_long_lem : add_long al t p len nh ≡ (
      if extended t (word p / 256)
      then store_long p len nh (group_of t (word p / 256)) t
      else add_new_group p len nh (t.dir24_table (word p / 256)) (tbl8_group_alloc al t))
  unfolding add_long
  add_long_lem = rw (← dir24_index_lem p bytes, ← bit_and-nh_mask (t.dir24_table (dir24_index p)))

  add_new_group_lem :
      (g : ℕ) (u : Trie)
      → add_new_group p len nh (t.dir24_table (word p / 256)) (some g, u)
        ≡ store_long p len nh g (extend_entry (word p / 256) (t.dir24_table (word p / 256)) g u)
  unfolding add_new_group
  add_new_group_lem g u = rw (← dir24_index_lem p bytes)

  into_group : extended t (word p / 256) ≡ true → LongAdded t p len nh (add_long al t p len nh)
  into_group leads =
      rw (add_long_lem, leads) (stored-LongAdded t valid p bytes nh hop len long fits leads)

  module _ (plain : extended t (word p / 256) ≡ false) (groups : Table) (n : ℕ)
      (more : OneMore t groups n) where
    abbrev grown : Trie
    grown = after t valid (word p / 256) small plain groups n more

    new_group : group_of grown (word p / 256) ≡ t.tbl8_groups_used
    new_group =
        group_of-after t valid (word p / 256) small plain groups n more (word p / 256)
        ∙ ground arith

    leads_now : extended grown (word p / 256) ≡ true
    leads_now =
        extended-after t valid (word p / 256) small plain groups n more (word p / 256)
        ∙ ground arith

    in_grown : LongAdded grown p len nh (store_long p len nh t.tbl8_groups_used grown)
    in_grown =
        subst (λ g. LongAdded grown p len nh (store_long p len nh g grown)) new_group
          (stored-LongAdded grown (after-IsValid t valid (word p / 256) small plain groups n more) p
            bytes nh hop len long fits leads_now)

    grown-LongAdded : LongAdded t p len nh (store_long p len nh t.tbl8_groups_used grown)
    grown-LongAdded = record {
      returns = in_grown.returns;
      valid = in_grown.valid;
      routes = λ a h.
          in_grown.routes a h
          ∙ rw (route_at-after t valid (word p / 256) small plain groups n more a h) refl;
      same_default = in_grown.same_default;
      same_hop = in_grown.same_hop;
    }

  into_new_group :
      extended t (word p / 256) ≡ false
      → AllocResult al t
      → ((add_long al t p len nh ≡ (failed, t)) × Unplaced al t p)
        ⊎ LongAdded t p len nh (add_long al t p len nh)
  into_new_group plain (inl (none_left, no_group)) = inl (
    rw (add_long_lem, plain, none_left) (unfold add_new_group in refl),
    record { plain = plain; no_group = no_group },
  )
  into_new_group plain (inr (groups, n, granted, more)) =
      inr
        (rw (add_long_lem, plain, granted, add_new_group_lem) (grown-LongAdded plain groups n more))

  pub add_long-LongAdded :
      ((add_long al t p len nh ≡ (failed, t)) × Unplaced al t p)
      ⊎ LongAdded t p len nh (add_long al t p len nh)
  add_long-LongAdded = elim (Bool-cases (extended t (word p / 256))) [
    | inl leads ↦ inr (into_group leads)
    | inr plain ↦
        into_new_group plain
          (tbl8_group_alloc_lem al t valid (used-lt valid (word p / 256) small plain))
  ]

  pub add_long-Unplaced : Unplaced al t p → add_long al t p len nh ≡ (failed, t)
  unfolding add_new_group
  add_long-Unplaced unplaced =
      rw (add_long_lem, unplaced.plain, tbl8_group_alloc-none al t valid unplaced.no_group) refl
