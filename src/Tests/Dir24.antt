-- ===== src/Tests/Dir24.antt =====
-- src/dir24 on a small routing table.
use liblpm.Base.{
  ℕ, ◌/◌, ◌^◌, ◌≤◌, ◌≡◌, ◌⊎◌, refl, arith, true, not, ◌&&◌, ◌==◌, if◌then◌else◌, List, [], ◌∷◌,
  some, none,
}
use liblpm.Word.{test}
use liblpm.Trie.{Trie, Bytes, Status, ok, failed, Allocator, zero_trie, zero_entry, write}
use liblpm.Rib.{Route, longest}
use liblpm.Dir24.{
  add_ipv4_dir24, delete_ipv4_dir24, delete_long, count_deleted, add_short, add_long, add_new_group,
  store_long, tbl8_group_alloc, grown_groups, inherit, fill_entries, fill_group, fill_partial,
  store_in_group, base_index, dir24_index, count_added,
}
use liblpm.Dir24.Answer.{address_bytes_lem}
use liblpm.Dir24.Lookup.{
  lookup_ipv4_dir24, dir24_lookup, entry_next_hop, with_default, address_bytes,
}
use liblpm.Dir24.Create.{create_ipv4_dir24}
use liblpm.Dir24.Index.{IsBytes, word}
use liblpm.Dir24.Valid.{IsValid, extended}
use liblpm.Dir24.Add.{Unplaced}
use liblpm.Dir24.Cover.{agree}
use liblpm.Dir24.Lpm.{add_routes, lookup-add_routes, hop_of, add_routes-IsValid}
use liblpm.Dir24.Refusal.{Decided, add_ipv4_dir24-Refusal}
use liblpm.Dir24.Reach.{add_word, reached_dir24-IsValid}
use liblpm.History.Reach.{Reached, then_add, then_delete}
use liblpm.Dir24.Delete.{default_of}
use liblpm.Dir24.Effects.{
  Answers, add_short-Answers, add_long-Answers, delete_short-Answers, delete_long-Answers,
  delete_absent-Answers, lookup-add_shorter,
}

abbrev generous : Allocator
generous = record { grants = λ n. true; fresh = λ n i. zero_entry }

abbrev created : Trie
unfolding create_ipv4_dir24
created = elim (create_ipv4_dir24 generous) [ some t ↦ t | none ↦ zero_trie ]

created_lem : create_ipv4_dir24 generous ≡ some created
unfolding created
created_lem = refl

-- 10.1.0.0/22, 10.1.2.0/24 and 10.1.2.192/26, the last added first.
abbrev history : List Route
history =
    record { value = 0x0a0102c0; len = 26; next_hop = 3 }
    ∷ record { value = 0x0a010200; len = 24; next_hop = 2 }
    ∷ record { value = 0x0a010000; len = 22; next_hop = 1 }
    ∷ []

abbrev built : Trie
unfolding add_routes add_ipv4_dir24 add_short add_long add_new_group store_long tbl8_group_alloc
    grown_groups inherit fill_entries fill_group fill_partial store_in_group base_index dir24_index
    count_added write test address_bytes create_ipv4_dir24
built = elim (add_routes generous created history) [ some t ↦ t | none ↦ zero_trie ]

four_routes :
    (lookup_ipv4_dir24 built 0x0a0102c7 ≡ 3)
    × (lookup_ipv4_dir24 built 0x0a010207 ≡ 2)
    × (lookup_ipv4_dir24 built 0x0a010307 ≡ 1)
    × (lookup_ipv4_dir24 built 0x0a010407 ≡ 0xffff_ffff)
unfolding built lookup_ipv4_dir24 dir24_lookup entry_next_hop with_default
four_routes = (refl, refl, refl, refl)

lookup-add_routes_example :
    lookup_ipv4_dir24 built 0x0a0102c7 ≡ hop_of (longest 32 history 0x0a0102c7)
unfolding built
lookup-add_routes_example =
    lookup-add_routes generous created built history refl (omega arith) (omega arith) refl
      0x0a0102c7 (omega arith)

built-IsValid : IsValid built
unfolding built
built-IsValid =
    add_routes-IsValid generous created built history refl (omega arith) (omega arith) refl

-- 10.1.2.192 and 10.1.9.0
abbrev host : Bytes
host = address_bytes 0x0a0102c0

abbrev other : Bytes
other = address_bytes 0x0a010900

host-IsBytes : IsBytes host
host-IsBytes = (address_bytes_lem 0x0a0102c0 (omega arith)).0

other-IsBytes : IsBytes other
other-IsBytes = (address_bytes_lem 0x0a010900 (omega arith)).0

-- After an add and two deletes, one of a prefix that is not there and one of a length that is too
-- great.
reached_dir24-IsValid_example :
    let t =
      (delete_ipv4_dir24
        (delete_ipv4_dir24 (add_word generous created host 26 3).1 other 32).1
        host
        33).1 in
    IsValid t × (t.tbl8_groups_used ≤ 2 ^ 24)
reached_dir24-IsValid_example = reached_dir24-IsValid generous _ (
    then_delete _ host 33 host-IsBytes (
      then_delete _ other 32 other-IsBytes
        (then_add created host 26 3 host-IsBytes (Reached.created created created_lem))))

add_ipv4_dir24-Refusal_example :
    Decided generous built host 26 0xc000_0000 (add_ipv4_dir24 generous built host 26 0xc000_0000)
add_ipv4_dir24-Refusal_example =
    add_ipv4_dir24-Refusal generous built built-IsValid host host-IsBytes 26 0xc000_0000
      (omega arith)

-- 10.1.2.64 moves to a new route of 23 bits only if its entry leads to no group, as 10.1.3.7.
add_short-Answers_example : Answers (add_ipv4_dir24 generous built host 23 7) 0x0a010307 (
    if agree 23 (word host) 0x0a010307 && not (extended built 0x0a0103)
    then 7
    else lookup_ipv4_dir24 built 0x0a010307)
add_short-Answers_example =
    add_short-Answers generous built built-IsValid host host-IsBytes 23 7 (omega arith) 0x0a010307
      (omega arith) (omega arith) (omega arith)

add_long-Answers_example :
    ((add_ipv4_dir24 generous built other 30 7 ≡ (failed, built)) × Unplaced generous built other)
    ⊎ Answers
        (add_ipv4_dir24 generous built other 30 7)
        0x0a010902
        (if agree 30 (word other) 0x0a010902 then 7 else lookup_ipv4_dir24 built 0x0a010902)
add_long-Answers_example =
    add_long-Answers generous built built-IsValid other other-IsBytes 30 7 (omega arith) 0x0a010902
      (omega arith) (omega arith) (omega arith)

delete_short-Answers_example : Answers (delete_ipv4_dir24 built host 22) 0x0a010307 (
    if agree 22 (word host) 0x0a010307 && not (extended built 0x0a0103)
    then default_of built
    else lookup_ipv4_dir24 built 0x0a010307)
delete_short-Answers_example =
    delete_short-Answers built built-IsValid host host-IsBytes 22 0x0a010307 (omega arith)
      (omega arith) (omega arith)

delete_long-Answers_example : Answers (delete_ipv4_dir24 built host 26) 0x0a0102c7 (
    if agree 26 (word host) 0x0a0102c7
    then default_of built
    else lookup_ipv4_dir24 built 0x0a0102c7)
unfolding built test
delete_long-Answers_example =
    delete_long-Answers built built-IsValid host host-IsBytes 26 0x0a0102c7 (omega arith)
      (omega arith) (omega arith) refl

delete_absent-Answers_example : Answers (delete_ipv4_dir24 built other 32) 0x0a010907 (
    if ◌==◌ 0x0a0109 (word other / 256)
    then default_of built
    else lookup_ipv4_dir24 built 0x0a010907)
unfolding built test
delete_absent-Answers_example =
    delete_absent-Answers built built-IsValid other other-IsBytes 32 0x0a010907 (omega arith)
      (omega arith) (omega arith) refl

lookup-add_shorter_example :
    let (s, u) = add_ipv4_dir24 generous built other 24 8 in
    lookup_ipv4_dir24 (add_ipv4_dir24 generous u host 16 9).1 0x0a010902 ≡ 9
unfolding built test address_bytes
lookup-add_shorter_example =
    lookup-add_shorter generous built other host 24 16 8 9 0x0a010902 built-IsValid other-IsBytes
      host-IsBytes (omega arith) (omega arith) (omega arith) (omega arith) (omega arith)
      (omega arith) refl refl refl

abbrev with_route : ℕ → ℕ → ℕ → Trie → Trie
unfolding add_ipv4_dir24 add_short add_long add_new_group store_long tbl8_group_alloc grown_groups
    inherit fill_entries fill_group fill_partial store_in_group base_index dir24_index count_added
    write test address_bytes
with_route v len nh t = (add_ipv4_dir24 generous t (address_bytes v) len nh).1

abbrev without_route : ℕ → ℕ → Trie → Status × Trie
unfolding delete_ipv4_dir24 delete_long fill_entries fill_partial store_in_group base_index
    dir24_index count_deleted write test address_bytes
without_route v len t = delete_ipv4_dir24 t (address_bytes v) len

-- 10.1.2.192/26 and then 10.1.0.0/16: 10.1.2.7 finds no route, 10.1.3.7 finds the second.
missed_group :
    let t = with_route 0x0a010000 16 4 (with_route 0x0a0102c0 26 3 created) in
    (lookup_ipv4_dir24 t 0x0a010207 ≡ 0xffff_ffff) × (lookup_ipv4_dir24 t 0x0a010307 ≡ 4)
unfolding with_route created lookup_ipv4_dir24 dir24_lookup entry_next_hop with_default
missed_group = (refl, refl)

-- 10.1.2.192/32 and then 10.1.2.128/25: the shorter one answers.
longer_lost :
    lookup_ipv4_dir24 (with_route 0x0a010280 25 4 (with_route 0x0a0102c0 32 3 created)) 0x0a0102c0
    ≡ 4
unfolding with_route created lookup_ipv4_dir24 dir24_lookup entry_next_hop with_default
longer_lost = refl

-- Without 10.1.2.0/24 there is no fallback to 10.1.0.0/16.
no_fallback :
    let out =
      without_route 0x0a010200 24
        (with_route 0x0a010200 24 4 (with_route 0x0a010000 16 3 created)) in
    (out.0 ≡ ok) × (lookup_ipv4_dir24 out.1 0x0a010207 ≡ 0xffff_ffff)
unfolding with_route without_route created lookup_ipv4_dir24 dir24_lookup entry_next_hop
    with_default
no_fallback = (refl, refl)

-- Without 10.1.2.192/26 there is no fallback to 10.1.2.0/24, and 10.1.2.0/26, which was never added,
-- takes the addresses that it covers from 10.1.2.0/24 as well.
no_fallback_in_group :
    let out =
      without_route 0x0a010200 26
        (without_route 0x0a0102c0 26
          (with_route 0x0a0102c0 26 4 (with_route 0x0a010200 24 3 created))).1 in
    (out.0 ≡ ok)
    × (lookup_ipv4_dir24 out.1 0x0a0102c7 ≡ 0xffff_ffff)
    × (lookup_ipv4_dir24 out.1 0x0a010207 ≡ 0xffff_ffff)
unfolding with_route without_route created lookup_ipv4_dir24 dir24_lookup entry_next_hop
    with_default
no_fallback_in_group = (refl, refl, refl)
