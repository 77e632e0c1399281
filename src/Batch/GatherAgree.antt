-- ===== src/Batch/GatherAgree.antt =====
-- The variants of src/dir24/batch.c that gather, against the loop that takes one address at a time.
use liblpm.Base.{
  ℕ, ◌+◌, ◌*◌, ◌/◌, ◌%◌, ◌^◌, ◌≤◌, ◌<◌, ◌≡◌, ◌⊎◌, refl, ap, sym, ◌∙◌, arith, Bool, true, false,
  ◌==◌, ltb, bit_and, if◌then◌else◌, Bool-cases, inl, inr,
}
use liblpm.Bits.{bit_and_low, bit_and_shifted, bit_or_fields}
use liblpm.Word.{u32, ◌<<<◌, ◌>>>◌, test, invalid_next_hop, valid_flag, ext_flag, nh_mask}
use liblpm.Word.Flags.{bit_and-nh_mask}
use liblpm.Trie.{Table, Trie}
use liblpm.Dir24.Valid.{IsValid}
use liblpm.Dir24.Lookup.{entry_next_hop}
use liblpm.Batch.Blocks.{any_lane, any_lane_lem}
use liblpm.Batch.Dir24.{batch_result}
use liblpm.Batch.Gather.{
  or_default_nh, gather, next_hop_avx2, ext_bit, data_word, tbl8_index, block_avx2, block_avx512,
  scalar_result,
}

-- The three ways to read a flag.
ext_eq : (w : ℕ) → (bit_and w ext_flag == ext_flag) ≡ test w ext_flag
unfolding test
ext_eq w = ground (arith, bit_and_shifted 30 w 1, bit_and_low 1 (w / 2 ^ 30))

ext_cases : (w : ℕ) → (bit_and w ext_flag ≡ 0) ⊎ (bit_and w ext_flag ≡ ext_flag)
ext_cases w = ground (arith, bit_and_shifted 30 w 1, bit_and_low 1 (w / 2 ^ 30))

ext_shifted : (w : ℕ) → test (u32 (bit_and w ext_flag <<< 1)) (2 ^ 31) ≡ test w ext_flag
unfolding test
ext_shifted w = elim (ext_cases w) [ inl e ↦ rw e refl | inr e ↦ rw e refl ]

next_hop_avx2_lem : (w : ℕ) → w < 2 ^ 32 → next_hop_avx2 w ≡ entry_next_hop w
unfolding test entry_next_hop
next_hop_avx2_lem w h = ground (arith, bit_and_shifted 31 w 1, bit_and_low 1 (w / 2 ^ 31))

-- The blend of the dir24 word `w` and the tbl8 word `g`, which counts where `w` is extended.
module _ (w g gathered : ℕ) (any : Bool) (w_fits : w < 2 ^ 32) (g_fits : g < 2 ^ 32)
    (same : test w ext_flag ≡ true → gathered ≡ g)
    (none_active : any ≡ false → test w ext_flag ≡ false) where
  blend_avx2 :
      (if any
        then (if bit_and w ext_flag == ext_flag then next_hop_avx2 gathered else next_hop_avx2 w)
        else next_hop_avx2 w)
      ≡ (if test w ext_flag then entry_next_hop g else entry_next_hop w)
  blend_avx2 = elim (Bool-cases (test w ext_flag)) [
    | inl long ↦ elim (Bool-cases any) [
      | inl some_active ↦ rw (some_active, ext_eq w, long, same long) (next_hop_avx2_lem g g_fits)
      | inr none ↦ absurd (ground (arith, long, none_active none))
    ]
    | inr short ↦ rw (ext_eq w, short, next_hop_avx2_lem w w_fits) (ground arith)
  ]

  abbrev first : ℕ → ℕ
  first x = if test x valid_flag then bit_and x nh_mask else invalid_next_hop

  blend_avx512 :
      (if any
        then (if (if test w ext_flag
              then test (if test w ext_flag then gathered else first w) valid_flag
              else false)
            then bit_and (if test w ext_flag then gathered else first w) nh_mask
            else if test w ext_flag
            then invalid_next_hop
            else first w)
        else first w)
      ≡ (if test w ext_flag then entry_next_hop g else entry_next_hop w)
  unfolding entry_next_hop
  blend_avx512 = elim (Bool-cases (test w ext_flag)) [
    | inl long ↦ elim (Bool-cases any) [
      | inl some_active ↦ ground (arith, some_active, long, same long)
      | inr none ↦ absurd (ground (arith, long, none_active none))
    ]
    | inr short ↦ rw short (ground arith)
  ]

-- A block of addresses below 2^32, in a trie whose groups a gather reaches.
module _ (stray : ℕ → ℕ) {t : Trie} (valid : IsValid t) (near : t.tbl8_groups_used ≤ 2 ^ 23)
    (ips : Table) (i k : ℕ) (small : ips (i + k) < 2 ^ 32) where
  abbrev word : ℕ
  word = t.dir24_table (ips (i + k) >>> 8)

  abbrev dir_word : ℕ
  dir_word = data_word stray t ips i k

  data_word_lem : dir_word ≡ word
  data_word_lem =
      let inside : ltb (ips (i + k) >>> 8) (2 ^ 31) ≡ true = ground arith in rw inside refl

  word-lt : dir_word < 2 ^ 32
  word-lt = rw data_word_lem (valid.table_words _)

  abbrev index : ℕ
  index = tbl8_index stray t ips i k

  index-lt : test dir_word ext_flag ≡ true → index < 2 ^ 31
  index-lt long =
      let used : word % 2 ^ 30 < t.tbl8_groups_used =
        valid.group_used (ips (i + k) >>> 8) (omega arith) (rw data_word_lem at long) in
      let group : bit_and dir_word nh_mask ≡ word % 2 ^ 30 =
        bit_and-nh_mask dir_word ∙ ap (λ (w : ℕ). w % 2 ^ 30) data_word_lem in
      let byte : bit_and (ips (i + k)) 0xff ≡ ips (i + k) % 256 = bit_and_low 8 (ips (i + k)) in
      let no_wrap : u32 ((word % 2 ^ 30) <<< 8) ≡ word % 2 ^ 30 * 2 ^ 8 = omega arith in
      rw (group, byte, no_wrap, bit_or_fields 8 (word % 2 ^ 30) (ips (i + k) % 256) (omega arith))
        (omega arith)

  gathered_lem :
      test dir_word ext_flag ≡ true → gather stray t.tbl8_groups index ≡ t.tbl8_groups index
  gathered_lem long =
      let inside : ltb index (2 ^ 31) ≡ true = ground (arith, index-lt long) in rw inside refl

  chosen_lem :
      (if test dir_word ext_flag
        then entry_next_hop (t.tbl8_groups index)
        else entry_next_hop dir_word)
      ≡ batch_result t.dir24_table t.tbl8_groups (ips (i + k))
  unfolding batch_result
  chosen_lem = rw data_word_lem refl

  any_avx2 : k < 8 → any_lane (ext_bit stray t ips i) 8 ≡ false → test dir_word ext_flag ≡ false
  any_avx2 h none_active =
      sym (ext_shifted dir_word) ∙ any_lane_lem (ext_bit stray t ips i) 8 k none_active h

  pub block_avx2_lem : k < 8 → block_avx2 stray t ips i k ≡ scalar_result t ips (i + k)
  unfolding block_avx2
  block_avx2_lem h = ap (or_default_nh t) (
      blend_avx2 dir_word (t.tbl8_groups index) (gather stray t.tbl8_groups index)
        (any_lane (ext_bit stray t ips i) 8) word-lt (valid.group_words _) gathered_lem (any_avx2 h)
      ∙ chosen_lem)

  pub block_avx512_lem : k < 16 → block_avx512 stray t ips i k ≡ scalar_result t ips (i + k)
  unfolding block_avx512
  block_avx512_lem h = ap (or_default_nh t) (
      blend_avx512 dir_word (t.tbl8_groups index) (gather stray t.tbl8_groups index)
        (any_lane (λ l. test (data_word stray t ips i l) ext_flag) 16) word-lt (valid.group_words _)
        gathered_lem
        (λ none_active.
          any_lane_lem (λ l. test (data_word stray t ips i l) ext_flag) 16 k none_active h)
      ∙ chosen_lem)
