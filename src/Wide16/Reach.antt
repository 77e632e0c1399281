-- ===== src/Wide16/Reach.antt =====
-- The tries that the functions of src/wide16/core.c reach, in any order of calls and with any
-- outcome.
use liblpm.Base.{ℕ, arith, false, ltb, ◌==◌, Bool-cases, inl, inr}
use liblpm.Word.{invalid_next_hop}
use liblpm.Trie.{Bytes, Trie, Allocator}
use liblpm.Dir24.Index.{IsBytes}
use liblpm.Pool.Rest.{IsBounded}
use liblpm.History.{add-IsSound}
use liblpm.History.Reach.{Reached, reached-IsSound}
use liblpm.Wide16.{create_ipv6_wide16}
use liblpm.Wide16.Update.{add_ipv6_wide16, delete_ipv6_wide16}
use liblpm.Wide16.Valid.{IsWide, wide_kind}
use liblpm.Wide16.Fresh.{create_ipv6_wide16-IsNew}
use liblpm.Wide16.Add.{add_ipv6_wide16-IsAdd}
use liblpm.Wide16.Remove.{erased, missing, delete_levels-Erased}
use liblpm.Wide16.Effect.{IsWide-default}

delete-IsWide :
    (t : Trie) (p : Bytes) (len : ℕ) → IsWide t → IsBytes p → IsWide (delete_ipv6_wide16 t p len).1
unfolding delete_ipv6_wide16
delete-IsWide t p len wide bytes = elim (Bool-cases (ltb 128 len)) [
  | inl long ↦ rw long wide
  | inr short ↦ elim (Bool-cases (len == 0)) [
    | inl none_set ↦ rw (short, none_set) (IsWide-default t _ invalid_next_hop false wide)
    | inr some_set ↦
        rw (short, some_set)
          (elim (delete_levels-Erased t p len wide bytes (ground arith)) [
            | erased is_ok placed ↦ placed.sound
            | missing is_failed kept ↦ kept.wide
          ])
  ]
]

-- Every IPv6 trie with a 16-bit root that calls of create, add and delete lead to, in any order, with
-- any lengths and next hops, and with or without success, satisfies the invariant: the nodes below
-- the wide root are a tree, their indices fit in the array and in an entry, and no entry of the wide
-- root is flagged to lead to a wide node.
pub reached_wide16-IsWide :
    (al : Allocator)
    → IsBounded al
    → (t : Trie) → Reached al create_ipv6_wide16 (add_ipv6_wide16 al) delete_ipv6_wide16 t
    → IsWide t
reached_wide16-IsWide al bounded =
    reached-IsSound IsWide al create_ipv6_wide16 (add_ipv6_wide16 al) delete_ipv6_wide16
      (λ t e. (create_ipv6_wide16-IsNew al e).wide)
      (add-IsSound wide_kind (add_ipv6_wide16 al) (add_ipv6_wide16-IsAdd al bounded)) delete-IsWide
