-- ===== src/Batch/Blocks.antt =====
-- The loops of the batch.c files that take a block of addresses at a time: the arrays with a lane
-- for each address of the block, and the addresses that are left over at the end.
use native.Mathlib.Nat.{div-add-mod'}
use liblpm.Base.{
  ℕ, zero, suc, ◌+◌, ◌-◌, ◌*◌, ◌/◌, ◌%◌, ◌≤◌, ◌<◌, ◌≡◌, refl, ap, sym, ◌∙◌, arith, Bool, true,
  false, ◌==◌, ltb, if◌then◌else◌, Bool-cases, inl, inr,
}
use liblpm.Trie.{Table, write}
use liblpm.Batch.{batch_loop, batched, batch_loop_lem}

-- `for (int j = 0; j < width; j++)` over the lanes, `left` of them from `j` on; each is changed by
-- `step`.
unfoldable pub each_lane {ℓ} : {A : Type ℓ} → (ℕ → A → A) → ℕ → ℕ → (ℕ → A) → ℕ → A
unfolding write
each_lane step zero j lanes = lanes
each_lane step (suc left) j lanes = each_lane step left (j + 1) (write lanes j (step j (lanes j)))

-- One of the lanes is active.
unfoldable pub any_lane : (ℕ → Bool) → ℕ → Bool
any_lane active zero = false
any_lane active (suc width) = if active width then true else any_lane active width

-- The loop over the blocks, `left` of them from the address `i` on.
module _ (width : ℕ) (result : ℕ → ℕ → ℕ) where
  unfoldable pub block_loop : ℕ → ℕ → Table → Table
  block_loop zero i next_hops = next_hops
  block_loop (suc left) i next_hops =
      block_loop left (i + width) (batch_loop (λ k. result i (k - i)) width i next_hops)

-- Whole blocks, then the remainder one by one.
unfoldable pub interleaved : ℕ → (ℕ → ℕ → ℕ) → (ℕ → ℕ) → ℕ → Table → Table
unfolding block_loop
interleaved width result one count next_hops =
    batch_loop one (count % width) (count / width * width)
      (block_loop width result (count / width) 0 next_hops)

-- An array of which `part` is the rest from index `i` on, `&next_hops[i]`.
abbrev pub with_rest : ℕ → Table → Table → Table
with_rest i next_hops part k = if ltb k i then next_hops k else part (k - i)

each_lane-before {ℓ} :
    {A : Type ℓ} (step : ℕ → A → A) (left j : ℕ) (lanes : ℕ → A) (k : ℕ)
    → k < j
    → each_lane step left j lanes k ≡ lanes k
unfolding each_lane write
each_lane-before step zero j lanes k h = refl
each_lane-before step (suc left) j lanes k h =
    let other : (k == j) ≡ false = ground arith in
    each_lane-before step left (j + 1) (write lanes j (step j (lanes j))) k (omega arith)
    ∙ (rw other refl)

pub each_lane_lem {ℓ} :
    {A : Type ℓ} (step : ℕ → A → A) (left j : ℕ) (lanes : ℕ → A) (k : ℕ)
    → j ≤ k
    → k < j + left
    → each_lane step left j lanes k ≡ step k (lanes k)
unfolding each_lane write
each_lane_lem step zero j lanes k lo hi = absurd (omega arith)
each_lane_lem step (suc left) j lanes k lo hi = elim (Bool-cases (k == j)) [
  | inl e ↦
      let here : k ≡ j = ground (arith, e) in
      let self : (j == j) ≡ true = ground arith in
      rw here (
        each_lane-before step left (j + 1) (write lanes j (step j (lanes j))) j (omega arith)
        ∙ (rw self refl))
  | inr ne ↦
      each_lane_lem step left (j + 1) (write lanes j (step j (lanes j))) k (ground arith)
        (omega arith)
      ∙ (rw ne refl)
]

pub any_lane_lem :
    (active : ℕ → Bool) (width j : ℕ) → any_lane active width ≡ false → j < width → active j ≡ false
unfolding any_lane
any_lane_lem active zero j none_active h = absurd (omega arith)
any_lane_lem active (suc width) j none_active h = elim (Bool-cases (j == width)) [
  | inl e ↦ ground (arith, e)
  | inr ne ↦ any_lane_lem active width j (ground arith) (ground arith)
]

batch_loop-same :
    (f g : ℕ → ℕ) (left i : ℕ) (table : Table)
    → ((k : ℕ) → i ≤ k → k < i + left → f k ≡ g k)
    → batch_loop f left i table ≡ batch_loop g left i table
unfolding batch_loop
batch_loop-same f g zero i table same = refl
batch_loop-same f g (suc left) i table same = rw (same i (omega arith) (omega arith)) (
    batch_loop-same f g left (i + 1) (write table i (g i))
      (λ k lo hi. same k (omega arith) (omega arith)))

batch_loop-add :
    (f : ℕ → ℕ) (a b i : ℕ) (table : Table)
    → batch_loop f (a + b) i table ≡ batch_loop f b (i + a) (batch_loop f a i table)
unfolding batch_loop
batch_loop-add f zero b i table =
    let e : zero + b ≡ b = omega arith in let z : i + zero ≡ i = omega arith in rw (e, z) refl
batch_loop-add f (suc a) b i table =
    let e : suc a + b ≡ suc (a + b) = omega arith in
    let z : i + suc a ≡ i + 1 + a = omega arith in
    rw (e, z) (batch_loop-add f a b (i + 1) (write table i (f i)))

pub block_loop_lem :
    (width : ℕ) (result : ℕ → ℕ → ℕ) (one : ℕ → ℕ)
    → ((i j : ℕ) → j < width → result i j ≡ one (i + j))
    → (left i : ℕ) (table : Table)
    → block_loop width result left i table ≡ batch_loop one (left * width) i table
unfolding block_loop
block_loop_lem width result one same zero i table =
    let e : zero * width ≡ 0 = omega arith in rw e (unfold batch_loop in refl)
block_loop_lem width result one same (suc left) i table =
    let e : suc left * width ≡ width + left * width = omega arith in
    let block : batch_loop (λ k. result i (k - i)) width i table ≡ batch_loop one width i table =
      batch_loop-same (λ k. result i (k - i)) one width i table
        (λ k lo hi.
          let back : i + (k - i) ≡ k = omega arith in same i (k - i) (omega arith) ∙ ap one back) in
    rw (e, batch_loop-add one width (left * width) i table, block)
      (block_loop_lem width result one same left (i + width) (batch_loop one width i table))

-- If each lane of a block holds the answer for its address, so does the output array.
pub interleaved_lem :
    (width : ℕ) (result : ℕ → ℕ → ℕ) (one : ℕ → ℕ) (count : ℕ) (table : Table) (j : ℕ)
    → ((i k : ℕ) → k < width → result i k ≡ one (i + k))
    → interleaved width result one count table j ≡ batched one count table j
unfolding interleaved
interleaved_lem width result one count table j same =
    let whole : count / width * width + count % width ≡ count = div-add-mod' count width in
    let start : 0 + count / width * width ≡ count / width * width = omega arith in
    let parts = batch_loop-add one (count / width * width) (count % width) 0 table in
    rw (block_loop_lem width result one same (count / width) 0 table) (
      (rw (whole, start) at (ap (λ (u : Table). u j) (sym parts)))
      ∙ batch_loop_lem one count table j)

-- Whole blocks, then a rest that is handled on its own.
module _ (width : ℕ) (result : ℕ → ℕ → ℕ) (one : ℕ → ℕ) (count : ℕ) (table : Table)
    (same : (i k : ℕ) → k < width → result i k ≡ one (i + k)) where
  abbrev done : ℕ
  done = count / width * width

  abbrev blocks : Table
  blocks = block_loop width result (count / width) 0 table

  blocks_lem : (j : ℕ) → blocks j ≡ batched one done table j
  blocks_lem j =
      rw (block_loop_lem width result one same (count / width) 0 table)
        (batch_loop_lem one done table j)

  pub rest_lem :
      (part : Table)
      → ((j : ℕ) → part j ≡ batched (λ k. one (done + k)) (count - done) (λ k. blocks (done + k)) j)
      → (j : ℕ) → with_rest done blocks part j ≡ batched one count table j
  rest_lem part by_part j =
      let whole : done ≤ count = omega (arith, div-add-mod' count width) in
      elim (Bool-cases (ltb j done)) [
        | inl e ↦ rw e (blocks_lem j ∙ ground arith)
        | inr e ↦
            let back : done + (j - done) ≡ j = ground arith in
            rw e (by_part (j - done) ∙ (rw (back, blocks_lem j) (ground arith)))
      ]

  pub one_by_one_lem :
      (j : ℕ) → batch_loop one (count - done) done blocks j ≡ batched one count table j
  unfolding interleaved
  one_by_one_lem j =
      let left : count - done ≡ count % width = omega (arith, div-add-mod' count width) in
      rw left (interleaved_lem width result one count table j same)
