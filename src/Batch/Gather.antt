-- ===== src/Batch/Gather.antt =====
-- src/dir24/batch.c: the variants that read 8 or 16 table entries in one instruction, lane by lane,
-- and the resolver.
use liblpm.Base.{
  ℕ, ◌+◌, ◌-◌, ◌*◌, ◌/◌, ◌^◌, Bool, false, ◌==◌, bit_and, bit_or, ltb, leb, if◌then◌else◌,
}
use liblpm.Word.{u32, ◌<<<◌, ◌>>>◌, test, invalid_next_hop, valid_flag, ext_flag, nh_mask}
use liblpm.Trie.{Table, Trie}
use liblpm.Simd.{
  SimdLevel, simd_scalar, simd_sse2, simd_sse4_2, simd_avx, simd_avx2, simd_avx512f, simd_other,
}
use liblpm.Batch.{batch_loop}
use liblpm.Batch.Blocks.{any_lane, block_loop, interleaved, with_rest}
use liblpm.Batch.Dir24.{batch_result, default_nh, lookup_batch_ipv4_dir24_scalar}

-- The answer for one address, in the loops that take one at a time.
abbrev pub scalar_result : Trie → Table → ℕ → ℕ
scalar_result t ips i =
    if batch_result t.dir24_table t.tbl8_groups (ips i) == invalid_next_hop
    then default_nh t
    else batch_result t.dir24_table t.tbl8_groups (ips i)

-- The loop of `lpm_lookup_batch_ipv4_dir24_sse42`; it prefetches besides.
unfoldable pub lookup_batch_ipv4_dir24_sse42 : Trie → Table → Table → ℕ → Table
lookup_batch_ipv4_dir24_sse42 t ips next_hops count =
    batch_loop (scalar_result t ips) count 0 next_hops

unfoldable pub lookup_batch_ipv4_dir24_avx : Trie → Table → Table → ℕ → Table
unfolding lookup_batch_ipv4_dir24_sse42
lookup_batch_ipv4_dir24_avx = lookup_batch_ipv4_dir24_sse42

-- A gather takes its indices as signed: from 2^31 on they lead in front of the array, to `stray`.
abbrev pub gather : (ℕ → ℕ) → Table → ℕ → ℕ
gather stray table index = if ltb index (2 ^ 31) then table index else stray index

abbrev pub or_default_nh : Trie → ℕ → ℕ
or_default_nh t result = if result == invalid_next_hop then default_nh t else result

-- `cmpeq` of the valid bit, then a blend.
abbrev pub next_hop_avx2 : ℕ → ℕ
next_hop_avx2 w = if bit_and w valid_flag == valid_flag then bit_and w nh_mask else invalid_next_hop

-- One block of addresses from `i` on; the values of lane `k` of each vector.
module _ (stray : ℕ → ℕ) (t : Trie) (ips : Table) (i : ℕ) where
  abbrev pub data_word : ℕ → ℕ
  data_word k = gather stray t.dir24_table (ips (i + k) >>> 8)

  abbrev pub tbl8_index : ℕ → ℕ
  tbl8_index k = bit_or (u32 (bit_and (data_word k) nh_mask <<< 8)) (bit_and (ips (i + k)) 0xff)

  -- `movemask` takes the top bit of each lane, to which the flag is shifted.
  abbrev pub ext_bit : ℕ → Bool
  ext_bit k = test (u32 (bit_and (data_word k) ext_flag <<< 1)) (2 ^ 31)

  -- If a lane is extended, an entry is gathered for each lane, and kept for the extended ones.
  unfoldable pub block_avx2 : ℕ → ℕ
  block_avx2 k = or_default_nh t (
      if any_lane ext_bit 8
      then (if bit_and (data_word k) ext_flag == ext_flag
          then next_hop_avx2 (gather stray t.tbl8_groups (tbl8_index k))
          else next_hop_avx2 (data_word k))
      else next_hop_avx2 (data_word k))

  -- `test` gives a mask, and the gather leaves the lanes out that are not in it.
  abbrev pub first_result : ℕ → ℕ
  first_result k =
      if test (data_word k) valid_flag then bit_and (data_word k) nh_mask else invalid_next_hop

  abbrev pub tbl8_word : ℕ → ℕ
  tbl8_word k =
      if test (data_word k) ext_flag
      then gather stray t.tbl8_groups (tbl8_index k)
      else first_result k

  abbrev pub tbl8_valid : ℕ → Bool
  tbl8_valid k = if test (data_word k) ext_flag then test (tbl8_word k) valid_flag else false

  unfoldable pub block_avx512 : ℕ → ℕ
  block_avx512 k = or_default_nh t (
      if any_lane (λ l. test (data_word l) ext_flag) 16
      then (if tbl8_valid k
          then bit_and (tbl8_word k) nh_mask
          else if test (data_word k) ext_flag
          then invalid_next_hop
          else first_result k)
      else first_result k)

module _ (stray : ℕ → ℕ) (t : Trie) where
  unfoldable pub lookup_batch_ipv4_dir24_avx2 : Table → Table → ℕ → Table
  lookup_batch_ipv4_dir24_avx2 ips next_hops count =
      interleaved 8 (block_avx2 stray t ips) (scalar_result t ips) count next_hops

  -- The remainder of 8 addresses and more goes to the variant for AVX2.
  unfoldable pub lookup_batch_ipv4_dir24_avx512 : Table → Table → ℕ → Table
  unfolding block_loop lookup_batch_ipv4_dir24_avx2
  lookup_batch_ipv4_dir24_avx512 ips next_hops count =
      if leb (i + 8) count
      then with_rest i blocks
          (lookup_batch_ipv4_dir24_avx2 (λ k. ips (i + k)) (λ k. blocks (i + k)) (count - i))
      else batch_loop (scalar_result t ips) (count - i) i blocks
    where
      i : ℕ
      i = count / 16 * 16

      blocks : Table
      blocks = block_loop 16 (block_avx512 stray t ips) (count / 16) 0 next_hops

  -- `lpm_dir24_batch_resolver`
  unfoldable pub lookup_batch_ipv4_dir24 : SimdLevel → Table → Table → ℕ → Table
  lookup_batch_ipv4_dir24 simd_avx512f = lookup_batch_ipv4_dir24_avx512
  lookup_batch_ipv4_dir24 simd_avx2 = lookup_batch_ipv4_dir24_avx2
  lookup_batch_ipv4_dir24 simd_avx = lookup_batch_ipv4_dir24_avx t
  lookup_batch_ipv4_dir24 simd_sse4_2 = lookup_batch_ipv4_dir24_sse42 t
  lookup_batch_ipv4_dir24 simd_sse2 = lookup_batch_ipv4_dir24_scalar t
  lookup_batch_ipv4_dir24 simd_scalar = lookup_batch_ipv4_dir24_scalar t
  lookup_batch_ipv4_dir24 simd_other = lookup_batch_ipv4_dir24_scalar t
