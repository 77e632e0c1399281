-- ===== src/Batch/Lanes.antt =====
-- The lanes of src/4stride8/batch.c and src/6stride8/batch.c: some addresses go down the trie side
-- by side, one level at a time.
use liblpm.Base.{
  ℕ, zero, suc, ◌+◌, ◌<◌, ◌≡◌, refl, sym, ◌∙◌, arith, Bool, true, false, not, ◌==◌, if◌then◌else◌,
  Bool-cases, inl, inr,
}
use liblpm.Word.{invalid_next_hop}
use liblpm.Trie.{Bytes, Pool, Trie}
use liblpm.Stride8.{child_of}
use liblpm.Stride8.Lookup.{pick, or_default}
use liblpm.Batch.Blocks.{each_lane, each_lane_lem, any_lane, any_lane_lem}
use liblpm.Batch.Stride8.{walk_levels, walk_step, walk_stop}

-- `n[j]` and `r[j]`
pub record Lane : Type 0 where
  pub node : ℕ
  pub best : ℕ

-- The lanes of the block that starts at the address `i`.
module _ (pool : Pool) (addrs : ℕ → Bytes) (i : ℕ) where
  -- One level of one lane; a lane at index 0 has ended.
  abbrev pub advance : ℕ → ℕ → Lane → Lane
  advance d j lane = if lane.node == 0 then lane else record {
    node = child_of (pool lane.node (addrs (i + j) d));
    best = pick (pool lane.node (addrs (i + j) d)) lane.best;
  }

  abbrev is_active : (ℕ → Lane) → ℕ → Bool
  is_active lanes j = not ((lanes j).node == 0)

  module _ (width : ℕ) where
    -- The loop over the levels, `left` of them from byte `d` on. It ends after a level that leaves no
    -- lane active.
    unfoldable pub walk_after : ℕ → ℕ → (ℕ → Lane) → ℕ → Lane
    walk_after zero d lanes = lanes
    walk_after (suc left) d lanes =
        let next = each_lane (advance d) width 0 lanes in
        let rest = walk_after left (d + 1) next in
        if any_lane (is_active next) width then rest else next

    -- The same loop, where the lanes are counted before they go on.
    unfoldable pub walk_before : ℕ → ℕ → (ℕ → Lane) → ℕ → Lane
    walk_before zero d lanes = lanes
    walk_before (suc left) d lanes =
        let next = each_lane (advance d) width 0 lanes in
        let rest = walk_before left (d + 1) next in
        if any_lane (is_active lanes) width then rest else next

    -- A level of the walk of one address.
    walk_advance :
        (left d j : ℕ) (lane : Lane)
        → walk_levels (suc left) d pool lane.node lane.best (addrs (i + j))
          ≡ walk_levels left
              (d + 1)
              pool
              (advance d j lane).node
              (advance d j lane).best
              (addrs (i + j))
    walk_advance left d j lane = elim (Bool-cases (lane.node == 0)) [
      | inl e ↦ rw e (
          walk_stop (suc left) d pool lane.node lane.best (addrs (i + j)) e
          ∙ sym (walk_stop left (d + 1) pool lane.node lane.best (addrs (i + j)) e))
      | inr ne ↦ rw ne (walk_step left d pool lane.node lane.best (addrs (i + j)) ne)
    ]

    ended :
        (left d j : ℕ) (lanes : ℕ → Lane)
        → any_lane (is_active lanes) width ≡ false
        → j < width
        → (lanes j).node == 0 ≡ true
    ended left d j lanes none_active h =
        ground (arith, any_lane_lem (is_active lanes) width j none_active h)

    next_lem :
        (d j : ℕ) (lanes : ℕ → Lane)
        → j < width
        → each_lane (advance d) width 0 lanes j ≡ advance d j (lanes j)
    next_lem d j lanes h = each_lane_lem (advance d) width 0 lanes j (omega arith) (omega arith)

    pub walk_after_lem :
        (left d j : ℕ) (lanes : ℕ → Lane)
        → j < width
        → (walk_after left d lanes j).best
          ≡ walk_levels left d pool (lanes j).node (lanes j).best (addrs (i + j))
    unfolding walk_after
    walk_after_lem zero d j lanes h = unfold walk_levels in refl
    walk_after_lem (suc left) d j lanes h =
        let next : ℕ → Lane = each_lane (advance d) width 0 lanes in
        rw (walk_advance left d j (lanes j), ← next_lem d j lanes h)
          (elim (Bool-cases (any_lane (is_active next) width)) [
            | inl some_active ↦ rw some_active (walk_after_lem left (d + 1) j next h)
            | inr none_active ↦ rw none_active (
                sym (
                  walk_stop left (d + 1) pool (next j).node (next j).best (addrs (i + j))
                    (ended left d j next none_active h)))
          ])

    pub walk_before_lem :
        (left d j : ℕ) (lanes : ℕ → Lane)
        → j < width
        → (walk_before left d lanes j).best
          ≡ walk_levels left d pool (lanes j).node (lanes j).best (addrs (i + j))
    unfolding walk_before
    walk_before_lem zero d j lanes h = unfold walk_levels in refl
    walk_before_lem (suc left) d j lanes h =
        let next : ℕ → Lane = each_lane (advance d) width 0 lanes in
        elim (Bool-cases (any_lane (is_active lanes) width)) [
          | inl some_active ↦
              rw (some_active, walk_advance left d j (lanes j), ← next_lem d j lanes h)
                (walk_before_lem left (d + 1) j next h)
          | inr none_active ↦
              let stop : (lanes j).node == 0 ≡ true = ended left d j lanes none_active h in
              rw
                (
                  none_active,
                  walk_stop (suc left) d pool (lanes j).node (lanes j).best (addrs (i + j)) stop,
                  next_lem d j lanes h,
                  stop,
                )
                refl
        ]

-- `n[j] = root; r[j] = LPM_INVALID_NEXT_HOP`
abbrev start : Trie → ℕ → Lane
start t j = record { node = t.root_idx; best = invalid_next_hop }

-- What the loops write for lane `j` of the block at `i`.
unfoldable pub block_after : ℕ → ℕ → Trie → (ℕ → Bytes) → ℕ → ℕ → ℕ
unfolding walk_after
block_after levels width t addrs i j =
    or_default t (walk_after t.node_pool addrs i width levels 0 (start t) j).best

unfoldable pub block_before : ℕ → ℕ → Trie → (ℕ → Bytes) → ℕ → ℕ → ℕ
unfolding walk_before
block_before levels width t addrs i j =
    or_default t (walk_before t.node_pool addrs i width levels 0 (start t) j).best
