-- ===== src/Batch/WideLanes.antt =====
-- The lanes of src/wide16/batch.c against the walk of one address.
use liblpm.Base.{
  ℕ, zero, suc, ◌+◌, ◌<◌, ◌≡◌, refl, sym, ◌∙◌, arith, true, false, ◌==◌, if◌then◌else◌, Bool-cases,
  inl, inr,
}
use liblpm.Word.{test, wide_node_flag, invalid_index, invalid_next_hop}
use liblpm.Trie.{Bytes, Entry, Trie}
use liblpm.Stride8.{child_of}
use liblpm.Stride8.Lookup.{pick}
use liblpm.Wide16.{wide_index}
use liblpm.Wide16.Update.{has_child}
use liblpm.Wide16.Lookup.{lookup_bytes}
use liblpm.Batch.Blocks.{each_lane, each_lane_lem, any_lane, any_lane_lem}
use liblpm.Batch.Wide16.{
  lookup_wide16_single, WideLane, advance_wide, advance_byte, walk_bytes, wide_block, is_active,
  one_of,
}

module _ (t : Trie) (addrs : ℕ → Bytes) (i width : ℕ) where
  bytes_stop :
      (left byte_idx n best : ℕ) (a : Bytes)
      → (n == invalid_index) ≡ true
      → lookup_bytes left byte_idx t.node_pool n best a ≡ best
  unfolding lookup_bytes
  bytes_stop zero byte_idx n best a h = refl
  bytes_stop (suc left) byte_idx n best a h = rw h refl

  bytes_inner :
      (left byte_idx n best : ℕ) (a : Bytes)
      → (n == invalid_index) ≡ false
      → (child_of (t.node_pool n (a byte_idx)) == invalid_index) ≡ false
      → lookup_bytes (suc left) byte_idx t.node_pool n best a
        ≡ lookup_bytes left
            (byte_idx + 1)
            t.node_pool
            (child_of (t.node_pool n (a byte_idx)))
            (pick (t.node_pool n (a byte_idx)) best)
            a
  unfolding lookup_bytes
  bytes_inner left byte_idx n best a h inner = rw (h, inner) refl

  bytes_leaf :
      (left byte_idx n best : ℕ) (a : Bytes)
      → (n == invalid_index) ≡ false
      → (child_of (t.node_pool n (a byte_idx)) == invalid_index) ≡ true
      → lookup_bytes (suc left) byte_idx t.node_pool n best a
        ≡ pick (t.node_pool n (a byte_idx)) best
  unfolding lookup_bytes
  bytes_leaf left byte_idx n best a h leaf = rw (h, leaf) refl

  bytes_go :
      (left byte_idx n best : ℕ) (a : Bytes)
      → (n == invalid_index) ≡ false
      → lookup_bytes (suc left) byte_idx t.node_pool n best a
        ≡ lookup_bytes left
            (byte_idx + 1)
            t.node_pool
            (child_of (t.node_pool n (a byte_idx)))
            (pick (t.node_pool n (a byte_idx)) best)
            a
  bytes_go left byte_idx n best a h =
      elim (Bool-cases (child_of (t.node_pool n (a byte_idx)) == invalid_index)) [
        | inl leaf ↦
            bytes_leaf left byte_idx n best a h leaf
            ∙ sym (
                bytes_stop left (byte_idx + 1) (child_of (t.node_pool n (a byte_idx)))
                  (pick (t.node_pool n (a byte_idx)) best) a leaf)
        | inr inner ↦ bytes_inner left byte_idx n best a h inner
      ]

  -- One byte of the walk of one address.
  bytes_advance :
      (left byte_idx j : ℕ) (lane : WideLane)
      → lane.is_wide ≡ false
      → lookup_bytes (suc left) byte_idx t.node_pool lane.node lane.best (addrs (i + j))
        ≡ lookup_bytes left
            (byte_idx + 1)
            t.node_pool
            (advance_byte t addrs i byte_idx j lane).node
            (advance_byte t addrs i byte_idx j lane).best
            (addrs (i + j))
  bytes_advance left byte_idx j lane narrow = elim (Bool-cases (lane.node == invalid_index)) [
    | inl e ↦ rw e (
        bytes_stop (suc left) byte_idx lane.node lane.best (addrs (i + j)) e
        ∙ sym (bytes_stop left (byte_idx + 1) lane.node lane.best (addrs (i + j)) e))
    | inr ne ↦ rw (ne, narrow) (bytes_go left byte_idx lane.node lane.best (addrs (i + j)) ne)
  ]

  narrow_still :
      (byte_idx j : ℕ) (lane : WideLane)
      → lane.is_wide ≡ false
      → (advance_byte t addrs i byte_idx j lane).is_wide ≡ false
  narrow_still byte_idx j lane narrow = rw narrow (ground arith)

  walk_bytes_lem :
      (left byte_idx j : ℕ) (lanes : ℕ → WideLane)
      → j < width
      → (lanes j).is_wide ≡ false
      → (walk_bytes t addrs i width left byte_idx lanes j).best
        ≡ lookup_bytes left byte_idx t.node_pool (lanes j).node (lanes j).best (addrs (i + j))
  unfolding walk_bytes
  walk_bytes_lem zero byte_idx j lanes h narrow = unfold lookup_bytes in refl
  walk_bytes_lem (suc left) byte_idx j lanes h narrow =
      let next : ℕ → WideLane = each_lane (advance_byte t addrs i byte_idx) width 0 lanes in
      let here : next j ≡ advance_byte t addrs i byte_idx j (lanes j) =
        each_lane_lem (advance_byte t addrs i byte_idx) width 0 lanes j (omega arith)
          (omega arith) in
      elim (Bool-cases (any_lane (is_active t addrs i lanes) width)) [
        | inl some_active ↦
            rw (some_active, bytes_advance left byte_idx j (lanes j) narrow, ← here)
              (walk_bytes_lem left (byte_idx + 1) j next h
                (rw here (narrow_still byte_idx j (lanes j) narrow)))
        | inr none_active ↦
            let idle = any_lane_lem (is_active t addrs i lanes) width j none_active h in
            rw none_active (
              sym (
                bytes_stop (suc left) byte_idx (lanes j).node (lanes j).best (addrs (i + j))
                  (ground (arith, idle, narrow))))
      ]

-- No entry of the wide root leads to a wide node.
abbrev pub IsLastWide : Trie → Type 0
IsLastWide t =
    (index : ℕ) → test (t.wide_nodes_pool t.root_idx index).child_and_valid wide_node_flag ≡ false

-- The level of 16 bits, then any bytes.
module _ (t : Trie) (addrs : ℕ → Bytes) (i width j : ℕ) (narrow : IsLastWide t) (h : j < width)
    (left byte_idx : ℕ) (best : ℕ) where
  abbrev first : ℕ → WideLane
  first k = record { node = t.root_idx; best = best; is_wide = true }

  abbrev wide_entry : Entry
  wide_entry = t.wide_nodes_pool t.root_idx (wide_index (addrs (i + j)) 0)

  abbrev entered : ℕ → WideLane
  entered = each_lane (advance_wide t addrs i 0) width 0 first

  entered_lem : entered j ≡ advance_wide t addrs i 0 j (first j)
  entered_lem = each_lane_lem (advance_wide t addrs i 0) width 0 first j (omega arith) (omega arith)

  below_wide : (walk_bytes t addrs i width left byte_idx entered j).best ≡ (
      if has_child wide_entry
      then lookup_bytes left byte_idx t.node_pool
          (child_of wide_entry)
          (pick wide_entry best)
          (addrs (i + j))
      else pick wide_entry best)
  below_wide = elim (Bool-cases (has_child wide_entry)) [
    | inl inner ↦
        let is_narrow : (entered j).is_wide ≡ false =
          rw (entered_lem, inner) (narrow (wide_index (addrs (i + j)) 0)) in
        walk_bytes_lem t addrs i width left byte_idx j entered h is_narrow
        ∙ (rw (entered_lem, inner) refl)
    | inr leaf ↦
        let is_narrow : (entered j).is_wide ≡ false = rw (entered_lem, leaf) refl in
        walk_bytes_lem t addrs i width left byte_idx j entered h is_narrow
        ∙ (rw (entered_lem, leaf)
            (bytes_stop t addrs i width left byte_idx 0 (pick wide_entry best) (addrs (i + j))
              refl))
  ]

pub wide_block_lem :
    (t : Trie) (addrs : ℕ → Bytes) (i width j : ℕ)
    → IsLastWide t
    → j < width
    → wide_block t addrs i width j ≡ one_of t addrs (i + j)
unfolding wide_block lookup_wide16_single
wide_block_lem t addrs i width j narrow h =
    below_wide t addrs i width j narrow h 14 2
      (if t.has_default_route then t.default_next_hop else invalid_next_hop)
