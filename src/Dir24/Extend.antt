-- ===== src/Dir24/Extend.antt =====
-- `tbl8_group_alloc`, and the dir24 entry that is extended to the new group.
use liblpm.Base.{
  ℕ, ◌+◌, ◌*◌, ◌%◌, ◌^◌, ◌≤◌, ◌<◌, ◌≡◌, ◌⊎◌, refl, arith, ◌&&◌, true, false, if◌then◌else◌,
  Bool-cases, inl, inr, leb, none, some, bit_or,
}
use liblpm.Bits.{bit_or_fields}
use liblpm.Word.{test, valid_flag, ext_flag, u32}
use liblpm.Word.Flags.{test-valid_flag, test-ext_flag, bit_and-nh_mask, bit_or-valid_flag}
use liblpm.Trie.{Trie, Table, Allocator}
use liblpm.Dir24.{tbl8_group_alloc, grown_groups, inherit}
use liblpm.Dir24.Store.{fill_group_lem}
use liblpm.Word.Blocks.{within}
use liblpm.Dir24.Valid.{IsValid}

-- A trie with one more group in use. The groups in use before are as they were; the others are
-- zero as far as the array goes.
pub record OneMore (t : Trie) (groups : Table) (n : ℕ) : Type 0 where
  pub room : t.tbl8_groups_used < n
  pub groups_fit : n ≤ 2 ^ 25
  pub words : (j : ℕ) → groups j < 2 ^ 32
  pub kept : (j : ℕ) → j < t.tbl8_groups_used * 256 → groups j ≡ t.tbl8_groups j
  pub zero_after : (j : ℕ) → t.tbl8_groups_used * 256 ≤ j → j < n * 256 → groups j ≡ 0

abbrev pub with_group : Trie → Table → ℕ → Trie
with_group t groups n = record t {
  tbl8_groups = groups;
  tbl8_num_groups = n;
  tbl8_groups_used = t.tbl8_groups_used + 1;
}

-- All groups are in use and the allocator refuses the array of twice the size.
pub record NoGroup (al : Allocator) (t : Trie) : Type 0 where
  pub full : t.tbl8_groups_used ≡ t.tbl8_num_groups
  pub not_granted : al.grants (t.tbl8_num_groups * 2 * 256 * 4) ≡ false

-- The allocation fails for want of room and leaves the trie alone, or hands out the first group not
-- in use.
abbrev pub AllocResult : Allocator → Trie → Type 0
AllocResult al t =
    ((tbl8_group_alloc al t ≡ (none, t)) × NoGroup al t)
    ⊎ ((groups : Table) × (n : ℕ) × (tbl8_group_alloc al t
          ≡ (some t.tbl8_groups_used, with_group t groups n))
        × OneMore t groups n)

pub tbl8_group_alloc_lem :
    (al : Allocator) (t : Trie) → IsValid t → t.tbl8_groups_used < 2 ^ 24 → AllocResult al t
unfolding tbl8_group_alloc grown_groups
tbl8_group_alloc_lem al t valid room =
    elim (Bool-cases (leb t.tbl8_num_groups t.tbl8_groups_used)) [
      | inl full ↦ elim (Bool-cases (al.grants (u32 (t.tbl8_num_groups * 2) * 256 * 4))) [
        | inl granted ↦ inr (
          grown_groups t (u32 (t.tbl8_num_groups * 2)),
          u32 (t.tbl8_num_groups * 2),
          ground (arith, used),
          record {
            room = ground (arith, valid.used_fits, valid.some_groups);
            groups_fit = ground (arith, valid.used_fits);
            words = λ j. ground (arith, valid.group_words j);
            kept = λ j h. ground (arith, valid.used_fits);
            zero_after = λ j lo hi. ground (arith, valid.used_fits, valid.unused_zero j);
          },
        )
        | inr refused ↦ inl (
          ground arith,
          record { full = ground (arith, valid.used_fits); not_granted = rw doubled at refused },
        )
      ]
      | inr free ↦ inr (
        t.tbl8_groups,
        t.tbl8_num_groups,
        ground (arith, used),
        record {
          room = ground arith;
          groups_fit = valid.groups_fit;
          words = valid.group_words;
          kept = λ j h. refl;
          zero_after = valid.unused_zero;
        },
      )
    ]
  where
    used : u32 (t.tbl8_groups_used + 1) ≡ t.tbl8_groups_used + 1
    used = omega arith

    doubled : u32 (t.tbl8_num_groups * 2) ≡ t.tbl8_num_groups * 2
    doubled = omega (arith, valid.groups_fit)

-- Without room the allocation fails.
pub tbl8_group_alloc-none :
    (al : Allocator) (t : Trie) → IsValid t → NoGroup al t → tbl8_group_alloc al t ≡ (none, t)
unfolding tbl8_group_alloc
tbl8_group_alloc-none al t valid no_group =
    let full : leb t.tbl8_num_groups t.tbl8_groups_used ≡ true = ground (arith, no_group.full) in
    let doubled : u32 (t.tbl8_num_groups * 2) ≡ t.tbl8_num_groups * 2 =
      omega (arith, valid.groups_fit) in
    rw (full, doubled, no_group.not_granted) refl

-- The word that leads to a group.
unfoldable pub leading_word : ℕ → ℕ
leading_word g = bit_or (bit_or valid_flag ext_flag) g

pub leading_word_lem :
    (g : ℕ)
    → g < 2 ^ 24
    → (leading_word g < 2 ^ 32)
      × (leading_word g % 2 ^ 30 ≡ g)
      × (test (leading_word g) ext_flag ≡ true)
unfolding leading_word
leading_word_lem g h = ground (arith, bit_or_fields 30 3 g, test-ext_flag (3 * 2 ^ 30 + g))

pub inherit_lem :
    (d g j : ℕ) (groups : Table)
    → d < 2 ^ 32
    → inherit d g groups j
      ≡ (if within (g * 256) 256 j && leb (2 ^ 31) d then 2 ^ 31 + d % 2 ^ 30 else groups j)
unfolding inherit
inherit_lem d g j groups h = ground (
  arith,
  test-valid_flag d h,
  bit_and-nh_mask d,
  bit_or-valid_flag (d % 2 ^ 30) (omega arith),
  fill_group_lem 256 0 (g * 256) (2 ^ 31 + d % 2 ^ 30) groups j,
)
