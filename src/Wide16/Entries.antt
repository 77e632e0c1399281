-- ===== src/Wide16/Entries.antt =====
-- The entries of a wide node: their flag for a wide child, and the index of an address.
use liblpm.Base.{
  ℕ, ◌+◌, ◌-◌, ◌*◌, ◌/◌, ◌%◌, ◌^◌, ◌≤◌, ◌<◌, ◌≡◌, arith, Bool, false, ◌==◌, bit_and, bit_or,
}
use liblpm.Bits.{bit_and_low, bit_or_fields}
use liblpm.Word.{test, valid_flag, wide_node_flag, not32}
use liblpm.Word.Flags.{test-ext_flag}
use liblpm.Trie.{Bytes, Entry}
use liblpm.Prefix.{agree_bits}
use liblpm.Prefix.Value.{value, agree_bits-eq-value}
use liblpm.Dir24.Index.{IsBytes}
use liblpm.Stride8.{make_valid, make_invalid}
use liblpm.Stride8.Entries.{IsWord, bit_or-flag, linked_word}
use liblpm.Stride8.Link.{link}
use liblpm.Wide16.{wide_index}

-- The child under the entry is a wide node.
abbrev pub is_wide : Entry → Bool
is_wide e = test e.child_and_valid wide_node_flag

-- `make` leaves the flag alone.
abbrev pub KeepsWide : (Entry → Entry) → Type 0
KeepsWide make = (e : Entry) → IsWord e → is_wide (make e) ≡ is_wide e

pub make_valid-KeepsWide : (nh : ℕ) → KeepsWide (make_valid nh)
make_valid-KeepsWide nh e h =
    let word : bit_or e.child_and_valid valid_flag ≡ 2 ^ 31 + e.child_and_valid % 2 ^ 31 =
      bit_or-flag e.child_and_valid h in
    rw (test-ext_flag e.child_and_valid, word, test-ext_flag (2 ^ 31 + e.child_and_valid % 2 ^ 31))
      (ground arith)

pub make_invalid-KeepsWide : KeepsWide make_invalid
make_invalid-KeepsWide e h =
    let word : bit_and e.child_and_valid (not32 valid_flag) ≡ e.child_and_valid % 2 ^ 31 =
      bit_and_low 31 e.child_and_valid in
    rw (test-ext_flag e.child_and_valid, word, test-ext_flag (e.child_and_valid % 2 ^ 31))
      (ground arith)

-- A link to a node of 256 entries clears it.
pub link-narrow : (c : ℕ) (e : Entry) → IsWord e → c < 2 ^ 30 → is_wide (link c e) ≡ false
link-narrow c e h small =
    rw
      (
        linked_word e.child_and_valid c h small,
        test-ext_flag (e.child_and_valid / 2 ^ 31 * 2 ^ 31 + c),
      )
      (ground arith)

pub wide_index_lem : (a : Bytes) → a 1 < 256 → wide_index a 0 ≡ a 0 * 256 + a 1
wide_index_lem a h = bit_or_fields 8 (a 0) (a 1) h

-- The bits of a prefix of at most 16 bits, in the index.
pub agree_bits-eq-index :
    (len : ℕ) (p a : Bytes)
    → IsBytes p
    → IsBytes a
    → 0 < len
    → len ≤ 16
    → agree_bits len p a ≡ (wide_index p 0 / 2 ^ (16 - len) == wide_index a 0 / 2 ^ (16 - len))
agree_bits-eq-index len p a bp ba pos fits =
    rw
      (
        agree_bits-eq-value 2 len p a bp ba pos fits,
        two p,
        two a,
        wide_index_lem p (bp 1),
        wide_index_lem a (ba 1),
      )
      (ground arith)
  where
    two : (b : Bytes) → value 2 b ≡ b 0 * 256 + b 1
    two b = unfold value in omega arith
