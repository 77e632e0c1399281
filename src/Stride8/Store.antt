-- ===== src/Stride8/Store.antt =====
-- The two stores of src/4stride8/core.c and src/6stride8/core.c at the end of a prefix: into the
-- entry of its last whole byte, and into the entries of a partial byte.
use liblpm.Base.{ℕ, ◌+◌, ◌*◌, ◌/◌, ◌^◌, ◌<◌, ◌≡◌, refl, arith, sym, subst, ◌∙◌, ◌&&◌, ◌==◌, Option}
use liblpm.Trie.{Bytes, Entry, Trie}
use liblpm.Prefix.{agree_bytes, agree_bits, last_byte, bits_below}
use liblpm.Stride8.{set_entry, fill_partial}
use liblpm.Stride8.Paint.{Painted, Stores}
use liblpm.Stride8.Valid.{IsForest, node_under}
use liblpm.Stride8.Open.{set_entry_lem}
use liblpm.Stride8.Fill.{fill_partial-Painted, fill_partial-same}
use liblpm.Stride8.Effect.{Stored, Painted-Stored}
use liblpm.Stride8.Tree.{Head}

module _ (head : Head) (t : Trie) (p : Bytes) (len d : ℕ) (make : Entry → Entry) (r : Option ℕ)
    (trie : IsForest head t) (inner : 0 < node_under head t p d) (stores : Stores make r) where
  at_last_byte :
      (u : Trie)
      → last_byte len ≡ d
      → Stored head t d
          (λ a. agree_bytes d p a && (p d / 2 ^ bits_below len == a d / 2 ^ bits_below len))
          r
          u
      → Stored head t (last_byte len) (agree_bits len p) r u
  at_last_byte u e stored =
      subst
        (λ x.
          Stored head t x
            (λ a. agree_bytes x p a && (p x / 2 ^ bits_below len == a x / 2 ^ bits_below len)) r u)
        (sym e) stored

  whole_byte :
      len ≡ 8 * d + 8 → (j : ℕ) → (p d / 2 ^ bits_below len == j / 2 ^ bits_below len) ≡ (j == p d)
  whole_byte e j = let none_below : bits_below len ≡ 0 = omega arith in rw none_below (ground arith)

  set_entry-Painted :
      len ≡ 8 * d + 8
      → Painted t.node_pool
          (set_entry t
            (node_under head t p d)
            (p d)
            (make (t.node_pool (node_under head t p d) (p d)))).node_pool
          (node_under head t p d)
          (λ j. p d / 2 ^ bits_below len == j / 2 ^ bits_below len)
          make
  set_entry-Painted e m j =
      set_entry_lem t.node_pool (node_under head t p d) (p d) m j _
      ∙ rw (whole_byte e j) (ground arith)

  pub whole-Stored :
      len ≡ 8 * d + 8
      → Stored head t (last_byte len) (agree_bits len p) r (
          set_entry t
            (node_under head t p d)
            (p d)
            (make (t.node_pool (node_under head t p d) (p d))))
  whole-Stored e =
      at_last_byte _ (omega arith)
        (Painted-Stored head t _ p d _ make r trie inner stores refl (set_entry-Painted e))

  pub partial-Stored :
      p d < 256
      → 8 * d < len
      → len < 8 * d + 8
      → Stored head t
          (last_byte len)
          (agree_bits len p)
          r
          (fill_partial p len (8 * d) (node_under head t p d) make t)
  partial-Stored byte lo hi = at_last_byte _ (omega arith) (
      Painted-Stored head t _ p d _ make r trie inner stores
        (fill_partial-same p len (8 * d) (node_under head t p d) make t)
        (fill_partial-Painted p len d (node_under head t p d) make t byte lo hi))
