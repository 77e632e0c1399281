-- ===== src/Wide16/Remove.antt =====
-- `lpm_delete_ipv6_wide16` by the routes of the trie.
use liblpm.Base.{
  ℕ, ◌-◌, ◌/◌, ◌≤◌, ◌<◌, ◌≡◌, refl, arith, sym, ◌∙◌, true, false, ◌==◌, ltb, none, Bool-cases, inl,
  inr,
}
use liblpm.Trie.{Bytes, Trie, Status, ok, failed}
use liblpm.Prefix.{agree_bits, last_byte}
use liblpm.Dir24.Index.{IsBytes}
use liblpm.Stride8.{make_invalid, count_deleted, child_of}
use liblpm.Stride8.Paint.{make_invalid-Stores}
use liblpm.Stride8.Tree.{node_on-base}
use liblpm.Stride8.Valid.{node_under, route_under}
use liblpm.Stride8.Update.{delete_from}
use liblpm.Stride8.Remove.{Removed, removed, absent, delete_from-Removed, no_route-below}
use liblpm.History.{Placed}
use liblpm.Wide16.{wide_index, wide_stride_levels, fill_wide_partial}
use liblpm.Wide16.Update.{delete_levels, delete_ipv6_wide16}
use liblpm.Wide16.Entries.{make_invalid-KeepsWide}
use liblpm.Wide16.Valid.{
  IsWide, wide_head, wide_entry, wide_route, wide_kind, wide_level, Stored-Placed, IsForest-IsWide,
  same_wide_routes,
}
use liblpm.Wide16.Open.{enter_lem}
use liblpm.Wide16.Fill.{fill_wide_partial-Placed, set_wide_entry-Placed}
use liblpm.Wide16.Effect.{Placed-recounted}

-- There was nothing to delete, and the trie is as it was.
pub record Missing (t : Trie) (p : Bytes) (len : ℕ) (u : Trie) : Type 0 where
  pub wide : IsWide u
  pub routes : (a : Bytes) (k : ℕ) → wide_route u a k ≡ wide_route t a k
  pub no_route : (a : Bytes) → agree_bits len p a ≡ true → wide_route t a (wide_level len) ≡ none

-- The agreeing addresses have no route left at the level of the prefix, or had none.
pub data Erased (t : Trie) (p : Bytes) (len : ℕ) (out : Status × Trie) : Type 0 where
  erased :
      out.0 ≡ ok
      → Placed wide_kind t (wide_level len) (agree_bits len p) none out.1
      → Erased t p len out
  missing : out.0 ≡ failed → Missing t p len out.1 → Erased t p len out

module _ (t : Trie) (p : Bytes) (len : ℕ) (wide : IsWide t) (bytes : IsBytes p)
    (pos : 0 < len) where
  in_root :
      (u : Trie)
      → len < 17
      → Placed wide_kind t 1 (agree_bits len p) none u
      → Erased t p len (count_deleted u)
  in_root u short placed =
      let level : wide_level len ≡ 1 = ground arith in
      erased refl (rw level (Placed-recounted t u 1 (agree_bits len p) none _ placed))

  start : node_under (wide_head t) t p 2 ≡ child_of (wide_entry t p)
  start = node_on-base t.node_pool (wide_head t) p 2 refl ∙ enter_lem t p wide bytes

  -- Below the wide root the routes are those of the tree.
  module _ (long : 16 < len) where
    level : wide_level len ≡ last_byte len
    level = ground arith

    no_route-deep :
        (a : Bytes)
        → route_under (wide_head t) t a (last_byte len) ≡ none
        → wide_route t a (wide_level len) ≡ none
    no_route-deep a e =
        let other : (last_byte len == 1) ≡ false = ground arith in rw (level, other) e

    below_root :
        0 < child_of (wide_entry t p)
        → Erased t p len (delete_from p len ((len - 16) / 8) 16 (child_of (wide_entry t p)) t)
    below_root goes = deleted (
        delete_from-Removed (wide_head t) p len bytes ((len - 16) / 8) 2 16
          (child_of (wide_entry t p)) t wide.forest refl (sym start) goes long (omega arith))
      where
        deleted : {last : Status × Trie} → Removed (wide_head t) t p len last → Erased t p len last
        deleted (removed e s) = erased e (rw level (Stored-Placed wide (omega arith) s))
        deleted {last} (absent e r) = missing e (record {
          wide = IsForest-IsWide wide r.rest r.trie;
          routes = same_wide_routes r.rest r.routes;
          no_route = λ a agree. no_route-deep a (r.no_route a agree);
        })

    no_child : child_of (wide_entry t p) ≡ 0 → Missing t p len t
    no_child ends = record {
      wide = wide;
      routes = λ a k. refl;
      no_route = λ a agree. no_route-deep a (
          no_route-below (wide_head t) t p 1 len wide.forest.tree.respects (omega arith)
            (start ∙ ends) (omega arith) a agree);
    }

  pub delete_levels-Erased :
      Erased t p len (delete_levels p len wide_stride_levels 0 0 t.root_idx t)
  unfolding delete_levels
  delete_levels-Erased =
      let some_bits : ltb 0 len ≡ true = ground arith in
      elim (Bool-cases (ltb len 16)) [
        | inl short ↦
            rw (some_bits, short)
              (in_root (fill_wide_partial p len 0 0 t.root_idx make_invalid t) (ground arith) (
                fill_wide_partial-Placed t p len make_invalid none make_invalid-Stores
                  make_invalid-KeepsWide wide bytes pos (ground arith)))
        | inr not_short ↦ elim (Bool-cases (16 == len)) [
          | inl whole ↦
              rw (some_bits, not_short, whole)
                (in_root _ (ground arith) (
                  set_wide_entry-Placed t p len make_invalid none make_invalid-Stores
                    make_invalid-KeepsWide wide bytes pos (ground arith)))
          | inr longer ↦ elim (Bool-cases (child_of (wide_entry t p) == 0)) [
            | inl ends ↦
                rw (some_bits, not_short, longer, ends, wide.narrow (wide_index p 0))
                  (missing refl (no_child (ground arith) (ground arith)))
            | inr goes ↦
                rw (some_bits, not_short, longer, goes) (below_root (ground arith) (ground arith))
          ]
        ]
      ]

-- Deleting a prefix of 1 to 128 bits from a trie with a wide root succeeds: then the addresses that
-- agree with it have no route at its level, and every other route is there as before. Or it fails:
-- then no such address had a route at that level, and no route changes.
pub delete_ipv6_wide16-Erased :
    (t : Trie) (p : Bytes) (len : ℕ)
    → IsWide t
    → IsBytes p
    → 0 < len
    → len ≤ 128
    → Erased t p len (delete_ipv6_wide16 t p len)
unfolding delete_ipv6_wide16
delete_ipv6_wide16-Erased t p len wide bytes pos fits =
    let allowed : ltb 128 len ≡ false = ground arith in
    let some_bits : (len == 0) ≡ false = ground arith in
    rw (allowed, some_bits) (delete_levels-Erased t p len wide bytes pos)
