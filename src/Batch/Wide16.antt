-- ===== src/Batch/Wide16.antt =====
-- src/wide16/batch.c: the batch lookups of the IPv6 trie with a first stride of 16 bits.
use liblpm.Base.{
  ℕ, zero, suc, ◌+◌, ◌-◌, ◌*◌, ◌/◌, Bool, true, false, not, ◌&&◌, ◌==◌, ltb, if◌then◌else◌,
}
use liblpm.Word.{test, wide_node_flag, invalid_index, invalid_next_hop}
use liblpm.Trie.{Bytes, Entry, Table, Trie}
use liblpm.Simd.{
  SimdLevel, simd_scalar, simd_sse2, simd_sse4_2, simd_avx, simd_avx2, simd_avx512f, simd_other,
}
use liblpm.Stride8.{child_of}
use liblpm.Stride8.Lookup.{pick}
use liblpm.Wide16.{wide_stride_levels, wide_index}
use liblpm.Wide16.Update.{has_child}
use liblpm.Wide16.Lookup.{lookup_wide_levels}
use liblpm.Batch.{batch_loop}
use liblpm.Batch.Blocks.{each_lane, any_lane, block_loop, interleaved, with_rest}

-- `lookup_wide16_single`, the same loops as in single.c
unfoldable pub lookup_wide16_single : Trie → Bytes → ℕ
unfolding lookup_wide_levels
lookup_wide16_single t addr =
    lookup_wide_levels wide_stride_levels 0 t true t.root_idx
      (if t.has_default_route then t.default_next_hop else invalid_next_hop) addr

-- `n[j]`, `r[j]` and `wide[j]`
pub record WideLane : Type 0 where
  pub node : ℕ
  pub best : ℕ
  pub is_wide : Bool

module _ (t : Trie) (addrs : ℕ → Bytes) (i : ℕ) where
  -- One level of 16 bits of one lane.
  abbrev pub advance_wide : ℕ → ℕ → WideLane → WideLane
  advance_wide level j lane =
      if lane.is_wide
      then (if has_child e
          then record {
            node = child_of e;
            best = pick e lane.best;
            is_wide = test e.child_and_valid wide_node_flag;
          }
          else record { node = invalid_index; best = pick e lane.best; is_wide = false })
      else lane
    where
      e : Entry
      e = t.wide_nodes_pool lane.node (wide_index (addrs (i + j)) level)

  abbrev pub is_active : (ℕ → WideLane) → ℕ → Bool
  is_active lanes j = not ((lanes j).node == invalid_index) && not (lanes j).is_wide

  -- One byte of one lane.
  abbrev pub advance_byte : ℕ → ℕ → WideLane → WideLane
  advance_byte byte_idx j lane =
      if not (lane.node == invalid_index) && not lane.is_wide
      then record {
        node = child_of (t.node_pool lane.node (addrs (i + j) byte_idx));
        best = pick (t.node_pool lane.node (addrs (i + j) byte_idx)) lane.best;
        is_wide = lane.is_wide;
      }
      else lane

  module _ (width : ℕ) where
    unfoldable pub walk_wide : ℕ → ℕ → (ℕ → WideLane) → ℕ → WideLane
    walk_wide zero level lanes = lanes
    walk_wide (suc left) level lanes =
        walk_wide left (level + 1) (each_lane (advance_wide level) width 0 lanes)

    -- The bytes, `left` of them from `byte_idx` on; the loop ends when no lane is active.
    unfoldable pub walk_bytes : ℕ → ℕ → (ℕ → WideLane) → ℕ → WideLane
    walk_bytes zero byte_idx lanes = lanes
    walk_bytes (suc left) byte_idx lanes =
        let rest =
          walk_bytes left (byte_idx + 1) (each_lane (advance_byte byte_idx) width 0 lanes) in
        if any_lane (is_active lanes) width then rest else lanes

    -- What the loops write for lane `j` of the block at `i`.
    unfoldable pub wide_block : ℕ → ℕ
    unfolding walk_wide walk_bytes
    wide_block j = (walk_bytes 14 2 (walk_wide wide_stride_levels 0 first) j).best
      where
        first : ℕ → WideLane
        first k = record {
          node = t.root_idx;
          best = if t.has_default_route then t.default_next_hop else invalid_next_hop;
          is_wide = true;
        }

abbrev pub one_of : Trie → (ℕ → Bytes) → ℕ → ℕ
one_of t addrs i = lookup_wide16_single t (addrs i)

unfoldable pub lookup_batch_ipv6_wide16_scalar : Trie → (ℕ → Bytes) → Table → ℕ → Table
lookup_batch_ipv6_wide16_scalar t addrs next_hops count =
    batch_loop (one_of t addrs) count 0 next_hops

unfoldable pub lookup_batch_ipv6_wide16_sse2 : Trie → (ℕ → Bytes) → Table → ℕ → Table
lookup_batch_ipv6_wide16_sse2 t addrs next_hops count =
    interleaved 4 (λ i. wide_block t addrs i 4) (one_of t addrs) count next_hops

unfoldable pub lookup_batch_ipv6_wide16_avx2 : Trie → (ℕ → Bytes) → Table → ℕ → Table
lookup_batch_ipv6_wide16_avx2 t addrs next_hops count =
    interleaved 8 (λ i. wide_block t addrs i 8) (one_of t addrs) count next_hops

-- The remainder of 8 addresses and more goes to the variant for AVX2.
unfoldable pub lookup_batch_ipv6_wide16_avx512 : Trie → (ℕ → Bytes) → Table → ℕ → Table
unfolding block_loop lookup_batch_ipv6_wide16_avx2
lookup_batch_ipv6_wide16_avx512 t addrs next_hops count =
    if ltb (i + 7) count
    then with_rest i blocks
        (lookup_batch_ipv6_wide16_avx2 t (λ k. addrs (i + k)) (λ k. blocks (i + k)) (count - i))
    else batch_loop (one_of t addrs) (count - i) i blocks
  where
    i : ℕ
    i = count / 16 * 16

    blocks : Table
    blocks = block_loop 16 (λ i. wide_block t addrs i 16) (count / 16) 0 next_hops

-- `lpm_wide16_batch_resolver`
unfoldable pub wide16_batch_resolver : SimdLevel → Trie → (ℕ → Bytes) → Table → ℕ → Table
wide16_batch_resolver simd_avx512f = lookup_batch_ipv6_wide16_avx512
wide16_batch_resolver simd_avx2 = lookup_batch_ipv6_wide16_avx2
wide16_batch_resolver simd_avx = lookup_batch_ipv6_wide16_avx2
wide16_batch_resolver simd_sse4_2 = lookup_batch_ipv6_wide16_sse2
wide16_batch_resolver simd_sse2 = lookup_batch_ipv6_wide16_sse2
wide16_batch_resolver simd_scalar = lookup_batch_ipv6_wide16_scalar
wide16_batch_resolver simd_other = lookup_batch_ipv6_wide16_scalar
