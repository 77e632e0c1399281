-- ===== src/Dir24/Long.antt =====
-- A prefix longer than 24 bits: what storing a value into its group changes.
use native.Mathlib.Nat.{one-le-pow}
use liblpm.Base.{
  ℕ, ◌+◌, ◌-◌, ◌*◌, ◌/◌, ◌%◌, ◌^◌, ◌≤◌, ◌<◌, ◌≡◌, arith, ◌&&◌, ◌==◌, true, if◌then◌else◌,
}
use liblpm.Bits.{block_fits}
use liblpm.Trie.{Bytes, Trie, Table}
use liblpm.Dir24.{store_in_group}
use liblpm.Dir24.Index.{IsBytes, word}
use liblpm.Word.Blocks.{within, within_block}
use liblpm.Dir24.Store.{store_in_group_lem}
use liblpm.Dir24.Valid.{IsValid, extended, group_of, group_of-inj}
use liblpm.Dir24.Answer.{entry_at}
use liblpm.Dir24.Cover.{agree, agree_long}

-- The trie with `v` stored into the entries of a prefix in the group of its dir24 entry.
abbrev pub regroup : Trie → Bytes → ℕ → ℕ → Trie
regroup t p len v = record t {
  tbl8_groups = store_in_group (group_of t (word p / 256)) p len v t.tbl8_groups;
}

-- Entry `b` of group `h` lies in a block of group `g` if the groups are the same and the block
-- holds `b`.
within_group :
    (g lo n h b : ℕ)
    → lo + n ≤ 256
    → b < 256
    → within (g * 256 + lo) n (h * 256 + b) ≡ ((h == g) && within lo n b)
within_group g lo n h b fits small = ground arith

module _ (p : Bytes) (len v : ℕ) (bytes : IsBytes p) (long : 24 < len) (fits : len ≤ 32) where
  stored_at :
      (g h b : ℕ) (groups : Table)
      → b < 256
      → store_in_group g p len v groups (h * 256 + b) ≡ (
          if (h == g) && (b / 2 ^ (32 - len) == word p % 256 / 2 ^ (32 - len))
          then v
          else groups (h * 256 + b))
  stored_at g h b groups small =
      let e : word p % 256 ≡ p 3 = omega (arith, bytes 3) in
      rw (
        e,
        store_in_group_lem g p len v groups (h * 256 + b) (bytes 3) long fits,
        within_group g (p 3 / 2 ^ (32 - len) * 2 ^ (32 - len)) (2 ^ (32 - len)) h b
            (block_fits 8 (32 - len) (p 3) (omega arith) (bytes 3)) small,
        within_block (2 ^ (32 - len)) (p 3 / 2 ^ (32 - len)) b
            (one-le-pow (32 - len) 2 (omega arith)),
      )

  module _ (t : Trie) (valid : IsValid t) (leads : extended t (word p / 256) ≡ true) where
    index_lt : word p / 256 < 2 ^ 24
    index_lt = omega (arith, bytes 0, bytes 1, bytes 2, bytes 3)

    pub entry_at-regroup :
        (a : ℕ)
        → a < 2 ^ 32
        → entry_at (regroup t p len v) a ≡ (if agree len (word p) a then v else entry_at t a)
    unfolding entry_at
    entry_at-regroup a small = ground (
      arith,
      agree_long len (word p) a long fits,
      stored_at (group_of t (word p / 256)) (group_of t (a / 256)) (a % 256) t.tbl8_groups,
      group_of-inj valid (a / 256) (word p / 256) (omega arith) index_lt,
    )

    pub regroup-IsValid : v < 2 ^ 32 → IsValid (regroup t p len v)
    regroup-IsValid word_sized = record {
      in_use = valid.in_use;
      present = valid.present;
      table_words = valid.table_words;
      group_words = λ j. ground (
        arith,
        store_in_group_lem (group_of t (word p / 256)) p len v t.tbl8_groups j (bytes 3) long fits,
        valid.group_words j,
      );
      group_used = valid.group_used;
      owner = valid.owner;
      owner_of = valid.owner_of;
      owner_in = valid.owner_in;
      owner_extended = valid.owner_extended;
      owner_group = valid.owner_group;
      used_fits = valid.used_fits;
      some_groups = valid.some_groups;
      groups_fit = valid.groups_fit;
      unused_zero = λ j lo hi. ground (
        arith,
        store_in_group_lem (group_of t (word p / 256)) p len v t.tbl8_groups j (bytes 3) long fits,
        valid.unused_zero j lo hi,
        valid.group_used (word p / 256) index_lt leads,
        block_fits 8 (32 - len) (p 3) (omega arith) (bytes 3),
      );
    }
