-- ===== src/Dir24/Reach.antt =====
-- The tables that the functions of src/dir24/core.c reach, in any order of calls and with any
-- outcome.
use liblpm.Base.{ℕ, ◌/◌, ◌^◌, ◌≤◌, ◌≡◌, arith, sym, subst, Bool-cases, inl, inr}
use native.Mathlib.Decide.{dec_le}
use liblpm.Word.{u32}
use liblpm.Trie.{Trie, Bytes, Status, Allocator}
use liblpm.History.{AddFunction}
use liblpm.History.Reach.{Reached, reached-IsSound}
use liblpm.Dir24.{add_ipv4_dir24, delete_ipv4_dir24}
use liblpm.Dir24.Index.{IsBytes, word}
use liblpm.Dir24.Valid.{IsValid, extended, used-le}
use liblpm.Dir24.Create.{create_ipv4_dir24, create_ipv4_dir24-IsNew}
use liblpm.Dir24.Delete.{
  delete_ipv4_dir24-failed, delete_default-IsValid, delete_short-Deleted, delete_long-Deleted,
  delete_unextended-Deleted,
}
use liblpm.Dir24.Refusal.{add_ipv4_dir24-Refusal}

-- The call with its next hop converted to `uint32_t`.
abbrev pub add_word : Allocator → AddFunction
add_word al t p len nh = add_ipv4_dir24 al t p len (u32 nh)

add_word-IsValid :
    (al : Allocator) (t : Trie) (p : Bytes) (len nh : ℕ)
    → IsValid t
    → IsBytes p
    → IsValid (add_word al t p len nh).1
add_word-IsValid al t p len nh valid bytes =
    elim (add_ipv4_dir24-Refusal al t valid p bytes len (u32 nh) (omega arith)) [
      | inl (same, reason) ↦ subst (λ (o : Status × Trie). IsValid o.1) (sym same) valid
      | inr (is_ok, sound, no_reason) ↦ sound
    ]

delete_ipv4_dir24-IsValid :
    (t : Trie) (p : Bytes) (len : ℕ) → IsValid t → IsBytes p → IsValid (delete_ipv4_dir24 t p len).1
delete_ipv4_dir24-IsValid t p len valid bytes = elim (dec_le len 32) [
  | no long ↦
      subst (λ (o : Status × Trie). IsValid o.1)
        (sym (delete_ipv4_dir24-failed t valid p len (omega arith))) valid
  | yes fits ↦ elim (dec_le len 0) [
    | yes none_set ↦ let e : len ≡ 0 = omega arith in rw e (delete_default-IsValid t valid p len)
    | no some_set ↦ elim (dec_le len 24) [
      | yes short ↦ (delete_short-Deleted t valid p len bytes (omega arith) short).valid
      | no long ↦ elim (Bool-cases (extended t (word p / 256))) [
        | inl leads ↦ (delete_long-Deleted t valid p len bytes (omega arith) fits leads).valid
        | inr plain ↦ (delete_unextended-Deleted t valid p len bytes (omega arith) fits plain).valid
      ]
    ]
  ]
]

-- Every DIR-24-8 table that calls of create, add and delete lead to, in any order, with any lengths
-- and next hops, and with or without success, satisfies the invariant: the groups in use and the
-- dir24 entries that lead to a group are in bijection, no entry leads beyond the groups in use, and
-- the groups that are not in use are zero. At most 2^24 groups are in use.
pub reached_dir24-IsValid :
    (al : Allocator) (t : Trie)
    → Reached al create_ipv4_dir24 (add_word al) delete_ipv4_dir24 t
    → IsValid t × (t.tbl8_groups_used ≤ 2 ^ 24)
reached_dir24-IsValid al t reached = (valid, used-le valid)
  where
    valid : IsValid t
    valid =
        reached-IsSound IsValid al create_ipv4_dir24 (add_word al) delete_ipv4_dir24
          (λ u e. (create_ipv4_dir24-IsNew al e).valid) (add_word-IsValid al)
          delete_ipv4_dir24-IsValid t reached
