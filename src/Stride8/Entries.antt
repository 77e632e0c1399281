-- ===== src/Stride8/Entries.antt =====
-- What the masks of the 8-bit strides do to an entry: its child, and whether it is valid.
use liblpm.Base.{
  ℕ, ◌+◌, ◌*◌, ◌/◌, ◌%◌, ◌^◌, ◌<◌, ◌≡◌, arith, Bool, true, false, leb, bit_and, bit_or, refl, zero,
  suc, ◌∙◌,
}
use liblpm.Bits.{bit_or_high, bit_or_fields, bit_and_shifted, bit_and_low}
use liblpm.Word.{test, valid_flag, child_mask, not32}
use liblpm.Word.Flags.{test-valid_flag}
use liblpm.Trie.{Entry}
use liblpm.Pool.{empty_entry}
use liblpm.Stride8.{child_of, make_valid, make_invalid, set_valid}

abbrev pub is_valid : Entry → Bool
is_valid e = test e.child_and_valid valid_flag

abbrev pub IsWord : Entry → Type 0
IsWord e = e.child_and_valid < 2 ^ 32

pub child_of_lem : (e : Entry) → child_of e ≡ e.child_and_valid % 2 ^ 30
child_of_lem e = bit_and_low 30 e.child_and_valid

-- What is true of an entry after it is written, with the child `c`.
pub record IsEntry (e : Entry) (c : ℕ) (v : Bool) : Type 0 where
  pub word_sized : IsWord e
  pub child : child_of e ≡ c
  pub valid : is_valid e ≡ v

of_word :
    (x nh c : ℕ) (v : Bool)
    → x < 2 ^ 32
    → x % 2 ^ 30 ≡ c
    → leb (2 ^ 31) x ≡ v
    → IsEntry (record { child_and_valid = x; next_hop = nh }) c v
of_word x nh c v h e f = record {
  word_sized = h;
  child = bit_and_low 30 x ∙ e;
  valid = test-valid_flag x h ∙ f;
}

bit_or-one : (q : ℕ) → q < 2 → bit_or q 1 ≡ 1
bit_or-one zero h = refl
bit_or-one (suc zero) h = refl
bit_or-one (suc (suc q)) h = absurd (omega arith)

pub bit_or-flag : (x : ℕ) → x < 2 ^ 32 → bit_or x valid_flag ≡ 2 ^ 31 + x % 2 ^ 31
bit_or-flag x h = ground (
  arith,
  bit_or_high 31 (x / 2 ^ 31) (x % 2 ^ 31) 1 (omega arith),
  bit_or-one (x / 2 ^ 31) (omega arith),
)

pub make_valid_lem : (nh : ℕ) (e : Entry) → IsWord e → IsEntry (make_valid nh e) (child_of e) true
make_valid_lem nh e h =
    of_word (bit_or e.child_and_valid valid_flag) nh (child_of e) true
      (rw (bit_or-flag e.child_and_valid h) (omega arith))
      (rw (bit_or-flag e.child_and_valid h, child_of_lem e) (omega arith))
      (rw (bit_or-flag e.child_and_valid h) (ground arith))

pub set_valid_lem : (nh : ℕ) (e : Entry) → IsWord e → IsEntry (set_valid nh e) (child_of e) true
set_valid_lem nh e h =
    of_word (bit_or (bit_and e.child_and_valid child_mask) valid_flag) nh (child_of e) true
      (rw value (omega arith)) (rw (value, child_of_lem e) (omega arith)) (rw value (ground arith))
  where
    value :
        bit_or (bit_and e.child_and_valid child_mask) valid_flag
        ≡ 2 ^ 31 + e.child_and_valid % 2 ^ 30
    value =
        rw (bit_and_low 30 e.child_and_valid)
          (bit_or-flag (e.child_and_valid % 2 ^ 30) (omega arith) ∙ omega arith)

pub make_invalid_lem : (e : Entry) → IsWord e → IsEntry (make_invalid e) (child_of e) false
make_invalid_lem e h =
    of_word (bit_and e.child_and_valid (not32 valid_flag)) _ (child_of e) false
      (rw (bit_and_low 31 e.child_and_valid) (omega arith))
      (rw (bit_and_low 31 e.child_and_valid, child_of_lem e) (omega arith))
      (rw (bit_and_low 31 e.child_and_valid) (ground arith))

pub linked_word :
    (x c : ℕ) → x < 2 ^ 32 → c < 2 ^ 30 → bit_or (bit_and x valid_flag) c ≡ x / 2 ^ 31 * 2 ^ 31 + c
linked_word x c h small = ground (
  arith,
  bit_and_shifted 31 x 1,
  bit_and_low 1 (x / 2 ^ 31),
  bit_or_fields 31 (x / 2 ^ 31) c (omega arith),
)

pub linked_lem :
    (e : Entry) (c : ℕ)
    → IsWord e
    → c < 2 ^ 30
    → IsEntry
        (record e { child_and_valid = bit_or (bit_and e.child_and_valid valid_flag) c })
        c
        (is_valid e)
linked_lem e c h small =
    let value = linked_word e.child_and_valid c h small in
    of_word (bit_or (bit_and e.child_and_valid valid_flag) c) e.next_hop c (is_valid e)
      (rw value (omega arith)) (rw value (omega arith))
      (rw (value, test-valid_flag e.child_and_valid h) (ground arith))

pub empty_entry_lem : IsEntry empty_entry 0 false
empty_entry_lem = record { word_sized = omega arith; child = refl; valid = unfold test in refl }
