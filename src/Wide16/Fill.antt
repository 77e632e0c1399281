-- ===== src/Wide16/Fill.antt =====
-- The two stores of src/wide16/core.c into the wide root: into one entry, and into the entries of a
-- partial level.
use native.Mathlib.Nat.{one-le-pow, pow-le-pow_right}
use liblpm.Base.{
  ℕ, zero, suc, ◌+◌, ◌-◌, ◌*◌, ◌/◌, ◌^◌, ◌≤◌, ◌<◌, ◌≡◌, refl, arith, ◌∙◌, ◌==◌, bit_and, Option,
}
use liblpm.Bits.{bit_and_align, block_fits}
use liblpm.Word.{u8, u16, not32, ◌<<<◌}
use liblpm.Word.Blocks.{within, within_block}
use liblpm.Trie.{Bytes, Entry, Trie}
use liblpm.Prefix.{agree_bits}
use liblpm.Dir24.Index.{IsBytes}
use liblpm.Stride8.Open.{set_entry_lem}
use liblpm.Stride8.Paint.{Painted, Stores}
use liblpm.History.{Placed}
use liblpm.Wide16.{wide_index, set_wide_entry, fill_wide_node, fill_wide_partial}
use liblpm.Wide16.Entries.{KeepsWide, wide_index_lem, agree_bits-eq-index}
use liblpm.Wide16.Paint.{Painted-Placed, with_wide}
use liblpm.Wide16.Valid.{IsWide, wide_kind}

fill_wide_node-same :
    (left i base n : ℕ) (make : Entry → Entry) (t : Trie)
    → fill_wide_node left i base n make t
      ≡ with_wide t (fill_wide_node left i base n make t).wide_nodes_pool
unfolding fill_wide_node
fill_wide_node-same zero i base n make t = refl
fill_wide_node-same (suc left) i base n make t =
    fill_wide_node-same left (i + 1) base n make
      (set_wide_entry t n (u16 (base + i)) (make (t.wide_nodes_pool n (u16 (base + i)))))

fill_wide_node-Painted :
    (left i base n : ℕ) (make : Entry → Entry) (t : Trie)
    → base + i + left ≤ 65536
    → Painted t.wide_nodes_pool
        (fill_wide_node left i base n make t).wide_nodes_pool
        n
        (within (base + i) left)
        make
unfolding fill_wide_node
fill_wide_node-Painted zero i base n make t fits m j = ground arith
fill_wide_node-Painted (suc left) i base n make t fits m j =
    let index : u16 (base + i) ≡ base + i = omega arith in
    let later =
      fill_wide_node-Painted left (i + 1) base n make
        (set_wide_entry t n (u16 (base + i)) (make (t.wide_nodes_pool n (u16 (base + i)))))
        (omega arith) m j in
    let now =
      set_entry_lem t.wide_nodes_pool n (u16 (base + i)) m j
        (make (t.wide_nodes_pool n (u16 (base + i)))) in
    ground (arith, rw index at later, rw index at now)

mask16_lem :
    (k x : ℕ)
    → 1 ≤ k
    → k < 16
    → x < 2 ^ 16
    → u16 (bit_and x (not32 ((1 <<< k) - 1))) ≡ x / 2 ^ k * 2 ^ k
mask16_lem k x lo hi fits =
    let mask : not32 ((1 <<< k) - 1) ≡ 2 ^ 32 - 2 ^ k = omega (
      arith,
      one-le-pow k 2,
      pow-le-pow_right {n = 2} (omega arith) {i = k} {j = 15} (omega arith),
    ) in
    rw (mask, bit_and_align 32 k x (omega arith) (omega arith))
      (omega (arith, block_fits 16 k x (omega arith) fits))

module _ (t : Trie) (p : Bytes) (len : ℕ) (make : Entry → Entry) (r : Option ℕ)
    (stores : Stores make r) (keeps : KeepsWide make) (wide : IsWide t) (bytes : IsBytes p)
    (pos : 0 < len) where
  abbrev index : ℕ
  index = wide_index p 0

  index-lt : index < 2 ^ 16
  index-lt = rw (wide_index_lem p (bytes 1)) (omega (arith, bytes 0, bytes 1))

  -- A prefix that ends inside the first 16 bits.
  pub fill_wide_partial-Placed :
      len < 16
      → Placed wide_kind t 1 (agree_bits len p) r (fill_wide_partial p len 0 0 t.root_idx make t)
  fill_wide_partial-Placed short =
      Painted-Placed t _ (λ j. index / 2 ^ (16 - len) == j / 2 ^ (16 - len)) make r
        (agree_bits len p) stores keeps wide same painted
        (λ a ba. agree_bits-eq-index len p a bytes ba pos (omega arith))
    where
      same :
          fill_wide_partial p len 0 0 t.root_idx make t
          ≡ with_wide t (fill_wide_partial p len 0 0 t.root_idx make t).wide_nodes_pool
      same = unfold fill_wide_partial in fill_wide_node-same _ _ _ t.root_idx make t

      in_block :
          (w b j : ℕ) → within (b / 2 ^ w * 2 ^ w + 0) (1 * 2 ^ w) j ≡ (b / 2 ^ w == j / 2 ^ w)
      in_block w b j =
          ground (arith, within_block (2 ^ w) (b / 2 ^ w) j (one-le-pow w 2 (omega arith)))

      width : 16 - u8 (len - 0) ≡ 16 - len
      width = omega arith

      painted :
          Painted t.wide_nodes_pool
            (fill_wide_partial p len 0 0 t.root_idx make t).wide_nodes_pool
            t.root_idx
            (λ j. index / 2 ^ (16 - len) == j / 2 ^ (16 - len))
            make
      painted m j =
          unfold fill_wide_partial in
          rw (width, mask16_lem (16 - len) index (omega arith) (omega arith) index-lt)
            (rw (← in_block (16 - len) index j) (
              fill_wide_node-Painted (1 * 2 ^ (16 - len)) 0
                (index / 2 ^ (16 - len) * 2 ^ (16 - len)) t.root_idx make t
                (omega (arith, block_fits 16 (16 - len) index (omega arith) index-lt)) m j))

  -- A prefix of 16 bits.
  pub set_wide_entry-Placed :
      len ≡ 16
      → Placed wide_kind t 1
          (agree_bits len p)
          r
          (set_wide_entry t t.root_idx index (make (t.wide_nodes_pool t.root_idx index)))
  set_wide_entry-Placed whole =
      Painted-Placed t _ (λ j. index / 2 ^ (16 - len) == j / 2 ^ (16 - len)) make r
        (agree_bits len p) stores keeps wide refl painted
        (λ a ba. agree_bits-eq-index len p a bytes ba pos (omega arith))
    where
      painted :
          Painted t.wide_nodes_pool
            (set_wide_entry t t.root_idx index
              (make (t.wide_nodes_pool t.root_idx index))).wide_nodes_pool
            t.root_idx
            (λ j. index / 2 ^ (16 - len) == j / 2 ^ (16 - len))
            make
      painted m j =
          let none_below : 16 - len ≡ 0 = omega arith in
          let set =
            set_entry_lem t.wide_nodes_pool t.root_idx index m j
              (make (t.wide_nodes_pool t.root_idx index)) in
          rw none_below (set ∙ ground arith)
