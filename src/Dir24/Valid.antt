-- ===== src/Dir24/Valid.antt =====
-- The invariant of a trie made by `lpm_create_ipv4_dir24`.
use liblpm.Base.{
  ℕ, ◌*◌, ◌%◌, ◌^◌, ◌≤◌, ◌<◌, ◌≡◌, arith, Bool, true, ap, ◌∙◌, sym, injection-le, suc, false, ◌==◌,
  if◌then◌else◌,
}
use liblpm.Word.{test, ext_flag}
use liblpm.Trie.{Table, Trie}

-- The dir24 entry at `i` leads to a group, and to which.
abbrev pub extended : Trie → ℕ → Bool
extended t i = test (t.dir24_table i) ext_flag

abbrev pub group_of : Trie → ℕ → ℕ
group_of t i = t.dir24_table i % 2 ^ 30

-- The groups in use and the extended entries are in bijection: `owner` leads back.
pub record IsValid (t : Trie) : Type 0 where
  pub in_use : t.use_ipv4_dir24 ≡ true
  pub present : t.has_dir24_table ≡ true
  pub table_words : (i : ℕ) → t.dir24_table i < 2 ^ 32
  pub group_words : (j : ℕ) → t.tbl8_groups j < 2 ^ 32
  pub group_used : (i : ℕ) → i < 2 ^ 24 → extended t i ≡ true → group_of t i < t.tbl8_groups_used
  pub owner : ℕ → ℕ
  pub owner_of : (i : ℕ) → i < 2 ^ 24 → extended t i ≡ true → owner (group_of t i) ≡ i
  pub owner_in : (g : ℕ) → g < t.tbl8_groups_used → owner g < 2 ^ 24
  pub owner_extended : (g : ℕ) → g < t.tbl8_groups_used → extended t (owner g) ≡ true
  pub owner_group : (g : ℕ) → g < t.tbl8_groups_used → group_of t (owner g) ≡ g
  pub used_fits : t.tbl8_groups_used ≤ t.tbl8_num_groups
  pub some_groups : 0 < t.tbl8_num_groups
  pub groups_fit : t.tbl8_num_groups ≤ 2 ^ 25
  pub unused_zero :
      (j : ℕ) → t.tbl8_groups_used * 256 ≤ j → j < t.tbl8_num_groups * 256 → t.tbl8_groups j ≡ 0

module _ {t : Trie} (valid : IsValid t) where
  owner-inj :
      (g h : ℕ)
      → g < t.tbl8_groups_used
      → h < t.tbl8_groups_used
      → valid.owner g ≡ valid.owner h
      → g ≡ h
  owner-inj g h hg hh e = sym (valid.owner_group g hg) ∙ ap (group_of t) e ∙ valid.owner_group h hh

  -- No more groups than dir24 entries are in use.
  pub used-le : t.tbl8_groups_used ≤ 2 ^ 24
  used-le = injection-le t.tbl8_groups_used (2 ^ 24) valid.owner valid.owner_in owner-inj

  -- Two extended entries do not share a group.
  pub group_of-inj :
      (i j : ℕ)
      → i < 2 ^ 24
      → j < 2 ^ 24
      → extended t i ≡ true
      → extended t j ≡ true
      → group_of t i ≡ group_of t j
      → i ≡ j
  group_of-inj i j hi hj xi xj e =
      sym (valid.owner_of i hi xi) ∙ ap valid.owner e ∙ valid.owner_of j hj xj

  -- While an entry is not extended, a group is free for it.
  pub used-lt : (i : ℕ) → i < 2 ^ 24 → extended t i ≡ false → t.tbl8_groups_used < 2 ^ 24
  used-lt i h plain = injection-le (suc t.tbl8_groups_used) (2 ^ 24) with_i bound inj
    where
      with_i : ℕ → ℕ
      with_i g = if g == t.tbl8_groups_used then i else valid.owner g

      bound : (g : ℕ) → g < suc t.tbl8_groups_used → with_i g < 2 ^ 24
      bound g hg = ground (arith, valid.owner_in g)

      inj :
          (g k : ℕ)
          → g < suc t.tbl8_groups_used
          → k < suc t.tbl8_groups_used
          → with_i g ≡ with_i k
          → g ≡ k
      inj g k hg hk e =
          ground (arith, owner-inj g k, valid.owner_extended g, valid.owner_extended k)

-- The counter and the default route play no part in the invariant.
pub bookkeeping-IsValid :
    {t : Trie} (n : ℕ) (b : Bool) (d : ℕ)
    → IsValid t
    → IsValid (record t { num_prefixes = n; has_default_route = b; default_next_hop = d })
bookkeeping-IsValid n b d valid = record {
  in_use = valid.in_use;
  present = valid.present;
  table_words = valid.table_words;
  group_words = valid.group_words;
  group_used = valid.group_used;
  owner = valid.owner;
  owner_of = valid.owner_of;
  owner_in = valid.owner_in;
  owner_extended = valid.owner_extended;
  owner_group = valid.owner_group;
  used_fits = valid.used_fits;
  some_groups = valid.some_groups;
  groups_fit = valid.groups_fit;
  unused_zero = valid.unused_zero;
}

-- A table that differs from the old one in entries that lead to no group, before and after.
pub retable-IsValid :
    {t : Trie} (table : Table)
    → IsValid t
    → ((i : ℕ) → table i < 2 ^ 32)
    → ((i : ℕ) → test (table i) ext_flag ≡ extended t i)
    → ((i : ℕ) → extended t i ≡ true → table i ≡ t.dir24_table i)
    → IsValid (record t { dir24_table = table })
retable-IsValid table valid words same kept = record {
  in_use = valid.in_use;
  present = valid.present;
  table_words = words;
  group_words = valid.group_words;
  group_used =
      λ i h long. let was = sym (same i) ∙ long in rw (kept i was) (valid.group_used i h was);
  owner = valid.owner;
  owner_of = λ i h long. let was = sym (same i) ∙ long in rw (kept i was) (valid.owner_of i h was);
  owner_in = valid.owner_in;
  owner_extended = λ g h. same (valid.owner g) ∙ valid.owner_extended g h;
  owner_group = λ g h. rw (kept (valid.owner g) (valid.owner_extended g h)) (valid.owner_group g h);
  used_fits = valid.used_fits;
  some_groups = valid.some_groups;
  groups_fit = valid.groups_fit;
  unused_zero = valid.unused_zero;
}
