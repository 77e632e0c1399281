-- ===== src/History/Reach.antt =====
-- The tries that calls of a create, an add and a delete function lead to, in any order of calls and
-- with any outcome.
use liblpm.Base.{ℕ, ◌≡◌, Option, some}
use liblpm.Trie.{Bytes, Trie, Allocator, Status}
use liblpm.Dir24.Index.{IsBytes}
use liblpm.History.{AddFunction}

-- From a created trie, by calls of add and delete with any arguments.
pub data Reached (al : Allocator) (create : Allocator → Option Trie) (add : AddFunction)
    (delete : Trie → Bytes → ℕ → Status × Trie) : Trie → Type 0 where
  created : (t : Trie) → create al ≡ some t → Reached al create add delete t
  then_add :
      (t : Trie) (p : Bytes) (len nh : ℕ)
      → IsBytes p
      → Reached al create add delete t
      → Reached al create add delete (add t p len nh).1
  then_delete :
      (t : Trie) (p : Bytes) (len : ℕ)
      → IsBytes p
      → Reached al create add delete t
      → Reached al create add delete (delete t p len).1

pub reached-IsSound :
    (IsSound : Trie → Type 0) (al : Allocator) (create : Allocator → Option Trie)
    (add : AddFunction) (delete : Trie → Bytes → ℕ → Status × Trie)
    → ((t : Trie) → create al ≡ some t → IsSound t)
    → ((t : Trie) (p : Bytes) (len nh : ℕ) → IsSound t → IsBytes p → IsSound (add t p len nh).1)
    → ((t : Trie) (p : Bytes) (len : ℕ) → IsSound t → IsBytes p → IsSound (delete t p len).1)
    → (t : Trie) → Reached al create add delete t
    → IsSound t
reached-IsSound IsSound al create add delete at_first by_add by_delete _ (created t e) =
    at_first t e
reached-IsSound IsSound al create add delete at_first by_add by_delete _
      (then_add t p len nh bytes before) =
    by_add t p len nh
      (reached-IsSound IsSound al create add delete at_first by_add by_delete t before) bytes
reached-IsSound IsSound al create add delete at_first by_add by_delete _
      (then_delete t p len bytes before) =
    by_delete t p len
      (reached-IsSound IsSound al create add delete at_first by_add by_delete t before) bytes
