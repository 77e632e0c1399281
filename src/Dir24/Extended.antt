-- ===== src/Dir24/Extended.antt =====
-- A dir24 entry that is extended to a new group: the answers and the invariant.
use liblpm.Base.{
  ℕ, ◌+◌, ◌*◌, ◌/◌, ◌%◌, ◌^◌, ◌<◌, ◌≡◌, refl, arith, ◌&&◌, ◌==◌, true, false, if◌then◌else◌, leb,
}
use liblpm.Trie.{Trie, Table, write}
use liblpm.Dir24.{extend_entry}
use liblpm.Word.Blocks.{within}
use liblpm.Dir24.Valid.{IsValid, extended, group_of, used-lt}
use liblpm.Dir24.Answer.{entry_at, decode, route_at}
use liblpm.Dir24.Extend.{OneMore, with_group, leading_word, leading_word_lem, inherit_lem}

module _ (t : Trie) (valid : IsValid t) (i : ℕ) (small : i < 2 ^ 24) (plain : extended t i ≡ false)
    (groups : Table) (n : ℕ) (more : OneMore t groups n) where
  abbrev pub after : Trie
  after = extend_entry i (t.dir24_table i) t.tbl8_groups_used (with_group t groups n)

  room : t.tbl8_groups_used < 2 ^ 24
  room = used-lt valid i small plain

  pub table-after :
      (j : ℕ)
      → after.dir24_table j ≡ (if j == i then leading_word t.tbl8_groups_used else t.dir24_table j)
  unfolding write leading_word
  table-after j = refl

  pub groups_after :
      (j : ℕ)
      → after.tbl8_groups j ≡ (
          if within (t.tbl8_groups_used * 256) 256 j && leb (2 ^ 31) (t.dir24_table i)
          then 2 ^ 31 + t.dir24_table i % 2 ^ 30
          else groups j)
  groups_after j = inherit_lem (t.dir24_table i) t.tbl8_groups_used j groups (valid.table_words i)

  pub extended-after : (j : ℕ) → extended after j ≡ (if j == i then true else extended t j)
  extended-after j = rw table-after (ground (arith, leading_word_lem t.tbl8_groups_used room))

  pub group_of-after :
      (j : ℕ) → group_of after j ≡ (if j == i then t.tbl8_groups_used else group_of t j)
  group_of-after j = rw table-after (ground (arith, leading_word_lem t.tbl8_groups_used room))

  pub route_at-after : (a : ℕ) → a < 2 ^ 32 → route_at after a ≡ route_at t a
  unfolding route_at entry_at decode
  route_at-after a h =
      rw (extended-after (a / 256), group_of-after (a / 256), table-after (a / 256))
        (ground (
          arith,
          groups_after (t.tbl8_groups_used * 256 + a % 256),
          groups_after (group_of t (a / 256) * 256 + a % 256),
          valid.group_used (a / 256),
          more.kept (group_of t (a / 256) * 256 + a % 256),
          more.zero_after (t.tbl8_groups_used * 256 + a % 256),
          more.room,
          valid.table_words i,
        ))

  abbrev new_owner : ℕ → ℕ
  new_owner g = if g == t.tbl8_groups_used then i else valid.owner g

  pub after-IsValid : IsValid after
  after-IsValid = record {
    in_use = valid.in_use;
    present = valid.present;
    table_words = λ j.
        ground
          (arith, table-after j, leading_word_lem t.tbl8_groups_used room, valid.table_words j);
    group_words = λ j. ground (arith, groups_after j, more.words j, valid.table_words i);
    group_used =
        λ j h long. rw (group_of-after j) (ground (arith, extended-after j, valid.group_used j));
    owner = new_owner;
    owner_of = λ j h long.
        rw (group_of-after j)
          (ground (arith, extended-after j, valid.group_used j, valid.owner_of j));
    owner_in = λ g h. ground (arith, valid.owner_in g);
    owner_extended =
        λ g h. rw (extended-after (new_owner g)) (ground (arith, valid.owner_extended g));
    owner_group = λ g h.
        rw (group_of-after (new_owner g))
          (ground (arith, valid.owner_extended g, valid.owner_group g));
    used_fits = omega (arith, more.room);
    some_groups = omega (arith, more.room);
    groups_fit = more.groups_fit;
    unused_zero = λ j lo hi. ground (arith, groups_after j, more.zero_after j);
  }
