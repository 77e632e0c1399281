-- ===== src/Wide16/Add.antt =====
-- `lpm_add_ipv6_wide16` by the routes of the trie.
use liblpm.Base.{
  ℕ, ◌-◌, ◌/◌, ◌<◌, ◌≡◌, refl, arith, ap, sym, subst, true, false, ◌==◌, ltb, some, ◌⊎◌, Bool-cases,
  inl, inr,
}
use liblpm.Word.{invalid_index}
use liblpm.Trie.{Bytes, Trie, Allocator, Status, ok, failed}
use liblpm.Prefix.{agree_bits, last_byte}
use liblpm.Pool.Rest.{IsBounded}
use liblpm.Dir24.Index.{IsBytes}
use liblpm.Stride8.{make_valid, count_added}
use liblpm.Stride8.Paint.{make_valid-Stores}
use liblpm.Stride8.Update.{add_from}
use liblpm.Stride8.Add.{Added, added, refused, add_from-Added}
use liblpm.History.{Placed, IsAdd}
use liblpm.Wide16.{wide_index, wide_stride_levels, open_wide_child, fill_wide_partial}
use liblpm.Wide16.Update.{add_levels, add_ipv6_wide16, no_update}
use liblpm.Wide16.Entries.{make_valid-KeepsWide}
use liblpm.Wide16.Valid.{IsWide, wide_head, wide_kind, wide_level, Stored-Placed, IsForest-IsWide}
use liblpm.Wide16.Fill.{fill_wide_partial-Placed, set_wide_entry-Placed}
use liblpm.Wide16.Open.{Entered, open_wide_child-Entered}
use liblpm.Wide16.Effect.{Placed-recounted, Placed-Entered, IsWide-default}

-- The prefix is stored, or the call fails; the invariant holds in both cases.
abbrev Stores16 : Trie → Bytes → ℕ → ℕ → Status × Trie → Type 0
Stores16 t p len nh out =
    ((out.0 ≡ ok) × Placed wide_kind t (wide_level len) (agree_bits len p) (some nh) out.1)
    ⊎ ((out.0 ≡ failed) × IsWide out.1)

module _ (al : Allocator) (t : Trie) (p : Bytes) (len nh : ℕ) (bounded : IsBounded al)
    (wide : IsWide t) (bytes : IsBytes p) (pos : 0 < len) where
  -- A prefix that ends in the wide root.
  in_root :
      (u : Trie)
      → len < 17
      → Placed wide_kind t 1 (agree_bits len p) (some nh) u
      → Stores16 t p len nh (count_added u)
  in_root u short placed =
      let level : wide_level len ≡ 1 = ground arith in
      inl (refl, rw level (Placed-recounted t u 1 (agree_bits len p) (some nh) _ placed))

  abbrev out : ℕ × Trie
  out = open_wide_child al 0 t.root_idx (wide_index p 0) t

  -- A longer one: the loop over the bytes goes on from the node below the wide root.
  below_root :
      16 < len
      → Entered t p out
      → Stores16 t p len nh
          (add_from al (make_valid nh) p len nh no_update ((len - 16) / 8) 16 out.0 out.1)
  below_root long entered = stored (
      add_from-Added (wide_head out.1) al p len nh no_update (make_valid nh) bounded bytes
        (λ u. refl) (make_valid-Stores nh) ((len - 16) / 8) 2 16 out.0 out.1 entered.wide.forest
        refl (sym entered.next) entered.present long (omega arith))
    where
      level : wide_level len ≡ last_byte len
      level = ground arith

      stored :
          {last : Status × Trie}
          → Added (wide_head out.1) al out.1 p len nh last
          → Stores16 t p len nh last
      stored {last} (added e s) = inl (
        e,
        rw level (
            Placed-Entered t p out (last_byte len) (agree_bits len p) (some nh) last.1 entered
              (Stored-Placed entered.wide (omega arith) s)),
      )
      stored (refused e kept) = inr (e, IsForest-IsWide entered.wide kept.rest kept.trie)

  add_levels-Stores :
      Stores16 t p len nh (add_levels al p len nh wide_stride_levels 0 0 t.root_idx t)
  unfolding add_levels
  add_levels-Stores = elim (Bool-cases (ltb len 16)) [
    | inl short ↦
        let some_bits : ltb 0 len ≡ true = ground arith in
        rw (some_bits, short)
          (in_root (fill_wide_partial p len 0 0 t.root_idx (make_valid nh) t) (ground arith) (
            fill_wide_partial-Placed t p len (make_valid nh) (some nh) (make_valid-Stores nh)
              (make_valid-KeepsWide nh) wide bytes pos (ground arith)))
    | inr not_short ↦
        let some_bits : ltb 0 len ≡ true = ground arith in
        elim (Bool-cases (16 == len)) [
          | inl whole ↦
              rw (some_bits, not_short, whole)
                (in_root _ (ground arith) (
                  set_wide_entry-Placed t p len (make_valid nh) (some nh) (make_valid-Stores nh)
                    (make_valid-KeepsWide nh) wide bytes pos (ground arith)))
          | inr longer ↦ elim (open_wide_child-Entered t p wide bytes al bounded) [
            | inl entered ↦
                let there : (out.0 == invalid_index) ≡ false = ground (arith, entered.present) in
                rw (some_bits, not_short, longer, there) (below_root (ground arith) entered)
            | inr (unchanged, denied) ↦
                let gone = ap (λ (o : ℕ × Trie). o.0 == invalid_index) unchanged in
                let same : out.1 ≡ t = ap (λ (o : ℕ × Trie). o.1) unchanged in
                rw (some_bits, not_short, longer, gone) (inr (refl, subst IsWide (sym same) wide))
          ]
        ]
  ]

-- What `lpm_add_ipv6_wide16` does: the default route is set; a prefix of 1 to 128 bits is stored at
-- its level and nothing else changes, or the call fails and the invariant still holds; a longer one
-- is refused.
pub add_ipv6_wide16-IsAdd : (al : Allocator) → IsBounded al → IsAdd wide_kind (add_ipv6_wide16 al)
unfolding add_ipv6_wide16
add_ipv6_wide16-IsAdd al bounded = record {
  default = λ t p nh wide. record {
    sound = IsWide-default t _ nh true wide;
    default = refl;
    hop = refl;
    routes = λ a bytes k. refl;
  };
  stores = λ t p len nh wide bytes pos fits.
      let allowed : ltb 128 len ≡ false = ground arith in
      let some_bits : (len == 0) ≡ false = ground arith in
      rw (allowed, some_bits) (add_levels-Stores al t p len nh bounded wide bytes pos);
  too_long = λ t p len nh h. ground arith;
}
