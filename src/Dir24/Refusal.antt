-- ===== src/Dir24/Refusal.antt =====
-- src/dir24/core.c: when `lpm_add_ipv4_dir24` returns -1.
use liblpm.Base.{ℕ, ◌^◌, ◌≤◌, ◌<◌, ◌≡◌, ◌⊎◌, arith, ap, inl, inr}
use native.Mathlib.Decide.{dec_le}
use liblpm.Trie.{Trie, Bytes, Status, ok, failed, Allocator}
use liblpm.Dir24.{add_ipv4_dir24}
use liblpm.Dir24.Index.{IsBytes}
use liblpm.Dir24.Valid.{IsValid}
use liblpm.Dir24.Add.{Unplaced}
use liblpm.Dir24.Correct.{
  add-DefaultAdded, add-ShortAdded, add-LongAdded, add-Unplaced, add_ipv4_dir24-failed,
}

-- The reasons for which an add is refused.
pub data Refusal (al : Allocator) (t : Trie) (p : Bytes) (len nh : ℕ) : Type 0 where
  too_long : 32 < len → Refusal al t p len nh
  too_wide : 2 ^ 30 ≤ nh → Refusal al t p len nh
  no_place : 24 < len → Unplaced al t p → Refusal al t p len nh

-- An add is refused for a reason and changes nothing, or it succeeds, keeps the invariant, and there
-- is no reason to refuse it.
abbrev pub Decided : Allocator → Trie → Bytes → ℕ → ℕ → Status × Trie → Type 0
Decided al t p len nh out =
    ((out ≡ (failed, t)) × Refusal al t p len nh)
    ⊎ ((out.0 ≡ ok) × IsValid out.1 × ¬ Refusal al t p len nh)

module _ (al : Allocator) (t : Trie) (valid : IsValid t) (p : Bytes) (bytes : IsBytes p)
    (len nh : ℕ) (word_sized : nh < 2 ^ 32) where
  abbrev out : Status × Trie
  out = add_ipv4_dir24 al t p len nh

  refused-failed : Refusal al t p len nh → out ≡ (failed, t)
  refused-failed (too_long h) = add_ipv4_dir24-failed al t valid p nh word_sized len (inl h)
  refused-failed (too_wide h) = add_ipv4_dir24-failed al t valid p nh word_sized len (inr h)
  refused-failed (no_place long unplaced) = elim (dec_le len 32) [
    | no h ↦ add_ipv4_dir24-failed al t valid p nh word_sized len (inl (omega arith))
    | yes fits ↦ elim (dec_le (2 ^ 30) nh) [
      | yes wide ↦ add_ipv4_dir24-failed al t valid p nh word_sized len (inr wide)
      | no h ↦ add-Unplaced al t valid p nh (omega arith) bytes len long fits unplaced
    ]
  ]

  no_reason : out.0 ≡ ok → ¬ Refusal al t p len nh
  no_reason is_ok r =
      let is_failed : out.0 ≡ failed = ap (λ (o : Status × Trie). o.0) (refused-failed r) in
      cc (is_ok, is_failed)

  refused_for : Refusal al t p len nh → Decided al t p len nh out
  refused_for r = inl (refused-failed r, r)

  accepted : out.0 ≡ ok → IsValid out.1 → Decided al t p len nh out
  accepted is_ok sound = inr (is_ok, sound, no_reason is_ok)

  by_length : len ≤ 32 → nh < 2 ^ 30 → Decided al t p len nh out
  by_length fits hop = elim (dec_le len 0) [
    | yes none_set ↦
        let e : len ≡ 0 = omega arith in
        let added = add-DefaultAdded al t valid p nh hop in
        accepted (rw e added.returns) (rw e added.valid)
    | no some_set ↦ elim (dec_le len 24) [
      | yes short ↦
          let added = add-ShortAdded al t valid p nh hop bytes len (omega arith) short in
          accepted added.returns added.valid
      | no long ↦ elim (add-LongAdded al t valid p nh hop bytes len (omega arith) fits) [
        | inl (failed_so, unplaced) ↦ refused_for (no_place (omega arith) unplaced)
        | inr added ↦ accepted added.returns added.valid
      ]
    ]
  ]

  -- An add returns -1 exactly when the length is beyond 32, the next hop is beyond 30 bits, or the
  -- prefix has 25 bits or more, its dir24 entry leads to no group, all groups are in use and the
  -- allocator refuses the array of twice the size. The trie then stays as it is; in all other cases
  -- the add succeeds and keeps the invariant.
  pub add_ipv4_dir24-Refusal : Decided al t p len nh (add_ipv4_dir24 al t p len nh)
  add_ipv4_dir24-Refusal = elim (dec_le len 32) [
    | no h ↦ refused_for (too_long (omega arith))
    | yes fits ↦ elim (dec_le (2 ^ 30) nh) [
      | yes wide ↦ refused_for (too_wide wide)
      | no h ↦ by_length fits (omega arith)
    ]
  ]
