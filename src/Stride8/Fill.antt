-- ===== src/Stride8/Fill.antt =====
-- The loop over the entries of a partial byte, and the store into one entry.
use native.Mathlib.Nat.{one-le-pow}
use liblpm.Base.{ℕ, zero, suc, ◌+◌, ◌-◌, ◌*◌, ◌/◌, ◌^◌, ◌≤◌, ◌<◌, ◌≡◌, refl, arith, Bool, ◌==◌}
use liblpm.Bits.{bit_and_align, block_fits}
use liblpm.Word.{u8, ◌>>>◌}
use liblpm.Word.Blocks.{within, within_block, mask8_lem}
use liblpm.Trie.{Bytes, Entry, Pool, Trie}
use liblpm.Prefix.{bits_below}
use liblpm.Stride8.{set_entry, fill_node, fill_partial}
use liblpm.Stride8.Open.{set_entry_lem}
use liblpm.Stride8.Paint.{Painted}

-- The loop changes nothing but the nodes.
fill_node-same :
    (left i base n : ℕ) (make : Entry → Entry) (t : Trie)
    → fill_node left i base n make t
      ≡ record t { node_pool = (fill_node left i base n make t).node_pool }
unfolding fill_node
fill_node-same zero i base n make t = refl
fill_node-same (suc left) i base n make t =
    fill_node-same left (i + 1) base n make
      (set_entry t n (u8 (base + i)) (make (t.node_pool n (u8 (base + i)))))

pub fill_node-Painted :
    (left i base n : ℕ) (make : Entry → Entry) (t : Trie)
    → base + i + left ≤ 256
    → Painted t.node_pool (fill_node left i base n make t).node_pool n (within (base + i) left) make
unfolding fill_node
fill_node-Painted zero i base n make t fits m j = ground arith
fill_node-Painted (suc left) i base n make t fits m j =
    let byte : u8 (base + i) ≡ base + i = omega arith in
    let later =
      fill_node-Painted left (i + 1) base n make
        (set_entry t n (u8 (base + i)) (make (t.node_pool n (u8 (base + i))))) (omega arith) m j in
    let now =
      set_entry_lem t.node_pool n (u8 (base + i)) m j (make (t.node_pool n (u8 (base + i)))) in
    ground (arith, rw byte at later, rw byte at now)

Painted-inside :
    (pool after : Pool) (n : ℕ) (f g : ℕ → Bool) (make : Entry → Entry)
    → ((j : ℕ) → f j ≡ g j)
    → Painted pool after n f make
    → Painted pool after n g make
Painted-inside pool after n f g make same painted m j = rw (← same j) (painted m j)

-- A prefix that ends inside the byte `d` is stored into the entries that agree with it there.
pub fill_partial-Painted :
    (p : Bytes) (len d n : ℕ) (make : Entry → Entry) (t : Trie)
    → p d < 256
    → 8 * d < len
    → len < 8 * d + 8
    → Painted t.node_pool
        (fill_partial p len (8 * d) n make t).node_pool
        n
        (λ j. p d / 2 ^ bits_below len == j / 2 ^ bits_below len)
        make
unfolding fill_partial
fill_partial-Painted p len d n make t byte lo hi =
    let r : 8 - u8 (len - 8 * d) ≡ bits_below len = omega arith in
    let at_d : (8 * d) >>> 3 ≡ d = omega arith in
    let fits = block_fits 8 (bits_below len) (p d) (omega arith) byte in
    let mask = mask8_lem (bits_below len) (omega arith) (omega arith) in
    rw (r, at_d, mask, bit_and_align 8 (bits_below len) (p d) (omega arith) byte)
      (Painted-inside _ _ n _ _ make (in_block (bits_below len) (p d)) (
        fill_node-Painted (1 * 2 ^ bits_below len) 0 (p d / 2 ^ bits_below len * 2 ^ bits_below len)
          n make t (omega arith)))
  where
    in_block : (w b j : ℕ) → within (b / 2 ^ w * 2 ^ w + 0) (1 * 2 ^ w) j ≡ (b / 2 ^ w == j / 2 ^ w)
    in_block w b j =
        ground (arith, within_block (2 ^ w) (b / 2 ^ w) j (one-le-pow w 2 (omega arith)))

pub fill_partial-same :
    (p : Bytes) (len depth n : ℕ) (make : Entry → Entry) (t : Trie)
    → fill_partial p len depth n make t
      ≡ record t { node_pool = (fill_partial p len depth n make t).node_pool }
unfolding fill_partial
fill_partial-same p len depth n make t = fill_node-same _ _ _ n make t
