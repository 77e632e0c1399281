-- ===== src/Batch.antt =====
-- The loops of the batch.c files that handle one address after the other, and what they leave in
-- the output array.
pub mod Blocks
pub mod Dir24
pub mod Stride8
pub mod Lanes
pub mod Variants
pub mod Agree
pub mod Wide16
pub mod WideLanes
pub mod WideAgree
pub mod Gather
pub mod GatherAgree
pub mod GatherResolve
pub mod Public
pub mod Longest
use liblpm.Base.{
  ℕ, zero, suc, ◌+◌, ◌≤◌, ◌<◌, ◌≡◌, refl, true, false, ◌==◌, ltb, leb, ◌&&◌, if◌then◌else◌, arith,
  Bool-cases, inl, inr, ◌∙◌,
}
use liblpm.Trie.{Table, write}

-- `for (; i < count; i++) next_hops[i] = one(i)`, with `left` rounds to go.
unfoldable pub batch_loop : (ℕ → ℕ) → ℕ → ℕ → Table → Table
batch_loop one zero i next_hops = next_hops
batch_loop one (suc left) i next_hops = batch_loop one left (i + 1) (write next_hops i (one i))

-- What stands at `j` after the first `count` addresses.
abbrev pub batched : (ℕ → ℕ) → ℕ → Table → Table
batched one count next_hops j = if ltb j count then one j else next_hops j

before :
    (one : ℕ → ℕ) (left i : ℕ) (next_hops : Table) (j : ℕ)
    → j < i
    → batch_loop one left i next_hops j ≡ next_hops j
unfolding batch_loop write
before one zero i next_hops j h = refl
before one (suc left) i next_hops j h =
    before one left (i + 1) (write next_hops i (one i)) j (omega arith) ∙ ground arith

within :
    (one : ℕ → ℕ) (left i : ℕ) (next_hops : Table) (j : ℕ)
    → i ≤ j
    → batch_loop one left i next_hops j ≡ batched one (i + left) next_hops j
unfolding batch_loop write
within one zero i next_hops j h = ground arith
within one (suc left) i next_hops j h =
    let here = before one left (i + 1) (write next_hops i (one i)) j in
    let later = within one left (i + 1) (write next_hops i (one i)) j in
    elim (Bool-cases (j == i)) [
      | inl e ↦ here (ground arith) ∙ ground arith
      | inr ne ↦ later (ground arith) ∙ ground arith
    ]

pub batch_loop_lem :
    (one : ℕ → ℕ) (count : ℕ) (next_hops : Table) (j : ℕ)
    → batch_loop one count 0 next_hops j ≡ batched one count next_hops j
batch_loop_lem one count next_hops j = ground (arith, within one count 0 next_hops j)
