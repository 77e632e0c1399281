-- ===== src/Dir24/Create.antt =====
-- `lpm_create_ipv4_dir24`, and the invariant of a new trie.
use liblpm.Base.{
  ℕ, ◌*◌, ◌≡◌, refl, subst, arith, Bool, true, false, if◌then◌else◌, Option, none, some,
}
use liblpm.Word.{ipv4_max_depth, invalid_next_hop, test}
use liblpm.Trie.{Trie, Allocator, zero_trie, trie_bytes, hot_cache_size, cache_entry_bytes}
use liblpm.Dir24.{dir24_size, default_groups, group_entries}
use liblpm.Dir24.Valid.{IsValid, extended}
use liblpm.Dir24.Answer.{entry_at, decode, route_at}

unfoldable pub create_ipv4_dir24 : Allocator → Option Trie
create_ipv4_dir24 al =
    if al.grants trie_bytes
    then (if al.grants (dir24_size * 4) then with_tables else none)
    else none
  where
    with_tables : Option Trie
    with_tables =
        if al.grants (default_groups * group_entries * 4)
        then some (record zero_trie {
          max_depth = ipv4_max_depth;
          default_next_hop = invalid_next_hop;
          use_ipv4_dir24 = true;
          has_dir24_table = true;
          tbl8_num_groups = default_groups;
          has_hot_cache = al.grants (hot_cache_size * cache_entry_bytes);
        })
        else none

-- What holds of a new trie.
pub record IsNew (t : Trie) : Type 0 where
  pub valid : IsValid t
  pub plain : (i : ℕ) → extended t i ≡ false
  pub no_route : (a : ℕ) → route_at t a ≡ none
  pub no_default : t.has_default_route ≡ false

abbrev fresh : Bool → Trie
fresh cache = record zero_trie {
  max_depth = ipv4_max_depth;
  default_next_hop = invalid_next_hop;
  use_ipv4_dir24 = true;
  has_dir24_table = true;
  tbl8_num_groups = default_groups;
  has_hot_cache = cache;
}

fresh-IsNew : (cache : Bool) → IsNew (fresh cache)
unfolding test route_at entry_at decode
fresh-IsNew cache = record {
  valid = record {
    in_use = refl;
    present = refl;
    table_words = λ i. omega arith;
    group_words = λ i. omega arith;
    group_used = λ i h e. cc;
    owner = λ g. 0;
    owner_of = λ i h e. cc;
    owner_in = λ g h. absurd (omega arith);
    owner_extended = λ g h. absurd (omega arith);
    owner_group = λ g h. absurd (omega arith);
    used_fits = omega arith;
    some_groups = omega arith;
    groups_fit = omega arith;
    unused_zero = λ j lo hi. refl;
  };
  plain = λ i. refl;
  no_route = λ a. refl;
  no_default = refl;
}

pub create_ipv4_dir24-IsNew : (al : Allocator) {t : Trie} → create_ipv4_dir24 al ≡ some t → IsNew t
unfolding create_ipv4_dir24
create_ipv4_dir24-IsNew al {t} e =
    subst IsNew same (fresh-IsNew (al.grants (hot_cache_size * cache_entry_bytes)))
  where
    same : fresh (al.grants (hot_cache_size * cache_entry_bytes)) ≡ t
    same = ground arith
