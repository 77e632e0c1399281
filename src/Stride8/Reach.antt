-- ===== src/Stride8/Reach.antt =====
-- The tries that the functions of src/4stride8/core.c and src/6stride8/core.c reach, in any order of
-- calls and with any outcome.
use liblpm.Base.{ℕ, ◌≤◌, ◌<◌, arith, ltb, ◌==◌, Bool-cases, inl, inr}
use liblpm.Trie.{Bytes, Trie, Allocator}
use liblpm.Dir24.Index.{IsBytes}
use liblpm.Pool.Rest.{IsBounded}
use liblpm.Stride8.Create.{create_ipv4_8stride, create_ipv6_8stride}
use liblpm.Stride8.Update.{
  add_ipv4_8stride, add_ipv6_8stride, delete_ipv4_8stride, delete_ipv6_8stride, delete_8stride,
}
use liblpm.Stride8.Valid.{IsTrie}
use liblpm.Stride8.Fresh.{create_ipv4_8stride-IsFresh, create_ipv6_8stride-IsFresh, fresh-IsTrie}
use liblpm.Stride8.Remove.{
  Removed, removed, absent, delete_ipv4_8stride-Removed, delete_ipv6_8stride-Removed,
}
use liblpm.History.{add-IsSound}
use liblpm.History.Reach.{Reached, reached-IsSound}
use liblpm.Stride8.Tree.{plain}
use liblpm.Stride8.Lpm.{kind8, IsForest-IsTrie, add_ipv4_8stride-IsAdd, add_ipv6_8stride-IsAdd}

-- The delete functions, by their greatest length.
abbrev Removes : ℕ → Type 0
Removes max_len =
    (p : Bytes) (len : ℕ)
    → IsBytes p
    → (t : Trie) → IsTrie t
    → 0 < len
    → len ≤ max_len
    → Removed (plain t.root_idx) t p len (delete_8stride max_len t p len)

delete-IsTrie :
    (max_len : ℕ)
    → Removes max_len
    → (t : Trie) (p : Bytes) (len : ℕ) → IsTrie t
    → IsBytes p
    → IsTrie (delete_8stride max_len t p len).1
unfolding delete_8stride
delete-IsTrie max_len removes t p len trie bytes = elim (Bool-cases (ltb max_len len)) [
  | inl long ↦ rw long trie
  | inr short ↦ elim (Bool-cases (len == 0)) [
    | inl none_set ↦
        rw (short, none_set)
          (record {
            tree = trie.tree;
            no_dir24 = trie.no_dir24;
            in_array = trie.in_array;
            small = trie.small;
          })
    | inr some_set ↦ elim (removes p len bytes t trie (ground arith) (ground arith)) [
      | removed is_ok effect ↦ IsForest-IsTrie effect.rest effect.trie
      | absent is_failed stays ↦ IsForest-IsTrie stays.rest stays.trie
    ]
  ]
]

-- Every IPv4 trie of 8-bit strides that calls of create, add and delete lead to, in any order, with
-- any lengths and next hops, and with or without success, satisfies the invariant: the nodes in use
-- are a tree, and their indices fit in the array and in an entry.
pub reached_ipv4-IsTrie :
    (al : Allocator)
    → IsBounded al
    → (t : Trie) → Reached al create_ipv4_8stride (add_ipv4_8stride al) delete_ipv4_8stride t
    → IsTrie t
unfolding delete_ipv4_8stride
reached_ipv4-IsTrie al bounded =
    reached-IsSound IsTrie al create_ipv4_8stride (add_ipv4_8stride al) delete_ipv4_8stride
      (λ t e. fresh-IsTrie (create_ipv4_8stride-IsFresh al e))
      (add-IsSound (kind8 4) (add_ipv4_8stride al) (add_ipv4_8stride-IsAdd al bounded))
      (delete-IsTrie 32 delete_ipv4_8stride-Removed)

-- Every IPv6 trie of 8-bit strides that calls of create, add and delete lead to, in any order, with
-- any lengths and next hops, and with or without success, satisfies the invariant.
pub reached_ipv6-IsTrie :
    (al : Allocator)
    → IsBounded al
    → (t : Trie) → Reached al create_ipv6_8stride (add_ipv6_8stride al) delete_ipv6_8stride t
    → IsTrie t
unfolding delete_ipv6_8stride
reached_ipv6-IsTrie al bounded =
    reached-IsSound IsTrie al create_ipv6_8stride (add_ipv6_8stride al) delete_ipv6_8stride
      (λ t e. fresh-IsTrie (create_ipv6_8stride-IsFresh al e))
      (add-IsSound (kind8 16) (add_ipv6_8stride al) (add_ipv6_8stride-IsAdd al bounded))
      (delete-IsTrie 128 delete_ipv6_8stride-Removed)
