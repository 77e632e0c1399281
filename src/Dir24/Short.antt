-- ===== src/Dir24/Short.antt =====
-- A prefix of at most 24 bits: what storing a value into its entries changes.
use native.Mathlib.Nat.{one-le-pow}
use liblpm.Base.{
  ℕ, ◌+◌, ◌-◌, ◌*◌, ◌/◌, ◌^◌, ◌≤◌, ◌<◌, ◌≡◌, arith, ◌&&◌, ◌==◌, true, false, not, if◌then◌else◌,
}
use liblpm.Bits.{block_fits}
use liblpm.Word.{◌<<<◌, test, ext_flag}
use liblpm.Trie.{Bytes, Trie}
use liblpm.Dir24.{base_index, fill_entries}
use liblpm.Dir24.Index.{IsBytes, word, base_index_lem}
use liblpm.Word.Blocks.{within_block}
use liblpm.Dir24.Store.{fill_entries_lem}
use liblpm.Dir24.Valid.{IsValid, extended, retable-IsValid}
use liblpm.Dir24.Answer.{entry_at}
use liblpm.Dir24.Cover.{agree, agree_short}

-- The trie with `v` stored into the entries of a prefix.
abbrev pub refill : Trie → Bytes → ℕ → ℕ → Trie
refill t p len v = record t {
  dir24_table = fill_entries (1 <<< (24 - len)) 0 (base_index p len) v t.dir24_table;
}

module _ (t : Trie) (p : Bytes) (len v : ℕ) (bytes : IsBytes p) (short : len ≤ 24) where
  pub table-refill :
      (i : ℕ)
      → (refill t p len v).dir24_table i ≡ (
          if i / 2 ^ (24 - len) == word p / 256 / 2 ^ (24 - len)
          then (if extended t i then t.dir24_table i else v)
          else t.dir24_table i)
  table-refill i =
      let fits : word p / 256 / 2 ^ (24 - len) * 2 ^ (24 - len) + 2 ^ (24 - len) ≤ 2 ^ 24 =
        block_fits 24 (24 - len) (word p / 256) (omega arith)
          (omega (arith, bytes 0, bytes 1, bytes 2, bytes 3)) in
      rw (base_index_lem p len bytes short) (
        ground (
          arith,
          fill_entries_lem (1 * 2 ^ (24 - len)) 0 (word p / 256 / 2 ^ (24 - len) * 2 ^ (24 - len)) v
              t.dir24_table i (omega arith),
          within_block (2 ^ (24 - len)) (word p / 256 / 2 ^ (24 - len)) i
              (one-le-pow (24 - len) 2 (omega arith)),
        ))

  module _ (plain : test v ext_flag ≡ false) where
    pub extended-refill : (i : ℕ) → extended (refill t p len v) i ≡ extended t i
    extended-refill i = rw (table-refill i) (ground arith)

    pub entry_at-refill :
        (a : ℕ)
        → entry_at (refill t p len v) a
          ≡ (if agree len (word p) a && not (extended t (a / 256)) then v else entry_at t a)
    unfolding entry_at
    entry_at-refill a =
        ground (arith, table-refill (a / 256), agree_short len (word p) a short, plain)

    -- An extended entry stays as it is.
    kept : (i : ℕ) → extended t i ≡ true → (refill t p len v).dir24_table i ≡ t.dir24_table i
    kept i long = rw (table-refill i) (ground arith)

    pub refill-IsValid : v < 2 ^ 32 → IsValid t → IsValid (refill t p len v)
    refill-IsValid word_sized valid =
        retable-IsValid (refill t p len v).dir24_table valid
          (λ i. ground (arith, table-refill i, valid.table_words i)) extended-refill kept
