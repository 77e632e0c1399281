-- ===== src/Stride8/Remove.antt =====
-- `lpm_delete_ipv4_8stride` and `lpm_delete_ipv6_8stride` by the routes of the trie.
use liblpm.Base.{
  ℕ, zero, suc, ◌+◌, ◌-◌, ◌*◌, ◌/◌, ◌≤◌, ◌<◌, ◌≡◌, refl, arith, sym, ◌∙◌, true, false, ◌==◌, ltb,
  none, Bool-cases, inl, inr,
}
use liblpm.Word.{◌>>>◌, invalid_index}
use liblpm.Trie.{Bytes, Trie, Status, ok, failed}
use liblpm.Prefix.{agree_bytes, agree_bytes_le, agree_bits, last_byte}
use liblpm.Pool.Rest.{SameRest, SameRest-other, SameRest-trans}
use liblpm.Dir24.Index.{IsBytes}
use liblpm.Stride8.{child_of, make_invalid, count_deleted, clear_cache}
use liblpm.Stride8.Update.{delete_from, delete_8stride, delete_ipv4_8stride, delete_ipv6_8stride}
use liblpm.Stride8.Tree.{
  Head, plain, node_on-step, base-le, node_on, step, route_at, node_on-agree, node_on-ended,
}
use liblpm.Stride8.Paint.{make_invalid-Stores}
use liblpm.Stride8.Valid.{IsForest, IsTrie, node_under, route_under}
use liblpm.Stride8.Store.{whole-Stored, partial-Stored}
use liblpm.Stride8.Effect.{Stored, Stored-other, Stored-after, IsForest-other}

-- The trie has no node for the last byte of the prefix; nothing but other fields has changed.
pub record Absent (head : Head) (t : Trie) (p : Bytes) (len : ℕ) (u : Trie) : Type 0 where
  pub trie : IsForest head u
  pub rest : SameRest t u
  pub routes : (a : Bytes) (k : ℕ) → route_under head u a k ≡ route_under head t a k
  pub no_route :
      (a : Bytes) → agree_bits len p a ≡ true → route_under head t a (last_byte len) ≡ none

pub data Removed (head : Head) (t : Trie) (p : Bytes) (len : ℕ) (out : Status × Trie) : Type 0 where
  removed :
      out.0 ≡ ok
      → Stored head t (last_byte len) (agree_bits len p) none out.1
      → Removed head t p len out
  absent : out.0 ≡ failed → Absent head t p len out.1 → Removed head t p len out

-- Where the path of the prefix ends, no route is below.
pub no_route-below :
    (head : Head) (t : Trie) (p : Bytes) (d len : ℕ)
    → ((a b : Bytes) → agree_bytes head.base a b ≡ true → head.enter a ≡ head.enter b)
    → head.base ≤ suc d
    → node_under head t p (suc d) ≡ 0
    → suc d ≤ last_byte len
    → (a : Bytes) → agree_bits len p a ≡ true
    → route_under head t a (last_byte len) ≡ none
unfolding route_at
no_route-below head t p d len respects starts ended deep a agree =
    let levels : last_byte len - suc d + suc d ≡ last_byte len = omega arith in
    let whole : agree_bytes (last_byte len - suc d + suc d) p a ≡ true = rw levels (ground arith) in
    let meet =
      node_on-agree t.node_pool head p a (suc d) respects
        (agree_bytes_le (last_byte len - suc d) (suc d) p a whole) in
    let stop =
      node_on-ended t.node_pool head a (suc d) (last_byte len - suc d) starts (sym meet ∙ ended) in
    ground (arith, rw levels at stop)

counted_out-Stored :
    {head : Head} (p : Bytes) (len : ℕ) {t u : Trie}
    → Stored head t (last_byte len) (agree_bits len p) none u
    → Stored head t (last_byte len) (agree_bits len p) none (count_deleted u).1
counted_out-Stored p len stored = Stored-other _ _ _ stored

module _ (head : Head) (p : Bytes) (len : ℕ) (bytes : IsBytes p) where
  -- The loop over the whole bytes, from the byte `d` on.
  pub delete_from-Removed :
      (rounds d depth node : ℕ) (t : Trie)
      → IsForest head t
      → depth ≡ 8 * d
      → node ≡ node_under head t p d
      → 0 < node
      → depth < len
      → len / 8 ≡ d + rounds
      → Removed head t p len (delete_from p len rounds depth node t)
  unfolding delete_from
  delete_from-Removed zero d depth node t trie e f inner below count =
      let inside : ltb depth len ≡ true = ground arith in
      rw (inside, e, f)
        (removed refl (
          counted_out-Stored p len (
            partial-Stored head t p len d make_invalid none trie (omega arith) make_invalid-Stores
              (bytes d) (omega arith) (omega arith))))
  delete_from-Removed (suc rounds) d depth node t trie e f inner below count =
      let at_d : depth >>> 3 ≡ d = omega arith in
      elim (Bool-cases (depth + 8 == len)) [
        | inl last ↦
            rw (last, at_d, f)
              (removed refl (
                counted_out-Stored p len (
                  whole-Stored head t p len d make_invalid none trie (omega arith)
                    make_invalid-Stores (ground arith))))
        | inr more ↦
            elim (Bool-cases
              (child_of (t.node_pool (node_under head t p d) (p d)) == invalid_index)) [
                | inl ends ↦
                    let ended : node_under head t p (suc d) ≡ 0 =
                      unfold step in
                      node_on-step t.node_pool head p d (base-le t.node_pool head p d (omega arith))
                      ∙ ground arith in
                    rw (more, at_d, f, ends)
                      (absent refl (record {
                        trie = trie;
                        rest = SameRest-other t _ _ _ _ _ _ _;
                        routes = λ a k. refl;
                        no_route =
                            no_route-below head t p d len trie.tree.respects
                              (omega (arith, base-le t.node_pool head p d (omega arith))) ended
                              (ground arith);
                      }))
                | inr goes ↦
                    let next : child_of (t.node_pool (node_under head t p d) (p d))
                        ≡ node_under head t p (suc d) =
                      sym (
                        unfold step in
                        node_on-step t.node_pool head p d
                          (base-le t.node_pool head p d (omega arith))
                        ∙ ground arith) in
                    rw (more, at_d, f, goes)
                      (delete_from-Removed rounds (suc d) (depth + 8)
                        (child_of (t.node_pool (node_under head t p d) (p d))) t trie (omega arith)
                        next (ground arith) (ground arith) (omega arith))
              ]
      ]

  Removed-after :
      (t u : Trie) (out : Status × Trie)
      → SameRest t u
      → ((a : Bytes) (k : ℕ) → route_under head u a k ≡ route_under head t a k)
      → Removed head u p len out
      → Removed head t p len out
  Removed-after t u out rest same (removed e s) = removed e (Stored-after rest same s)
  Removed-after t u out rest same (absent e r) = absent e (record {
    trie = r.trie;
    rest = SameRest-trans rest r.rest;
    routes = λ a k. r.routes a k ∙ same a k;
    no_route = λ a agree. sym (same a (last_byte len)) ∙ r.no_route a agree;
  })

module _ (p : Bytes) (len : ℕ) (bytes : IsBytes p) where
  delete_8stride-Removed :
      (max_len : ℕ) (t : Trie)
      → IsTrie t
      → 0 < len
      → len ≤ max_len
      → Removed (plain t.root_idx) t p len (delete_8stride max_len t p len)
  unfolding delete_8stride
  delete_8stride-Removed max_len t trie pos fits =
      let allowed : ltb max_len len ≡ false = ground arith in
      let some_bits : (len == 0) ≡ false = ground arith in
      rw (allowed, some_bits)
        (Removed-after (plain t.root_idx) p len bytes t (clear_cache t) _
          (SameRest-other t _ _ _ _ _ _ _) (λ a k. refl)
          (delete_from-Removed (plain t.root_idx) p len bytes (len / 8) 0 0 t.root_idx
            (clear_cache t) (IsForest-other _ _ _ trie) (omega arith) (unfold node_on in refl)
            (trie.tree.rooted p refl) pos (omega arith)))

  -- Deleting a prefix of 1 to 32 bits from an IPv4 trie of 8-bit strides succeeds: then the addresses
  -- that agree with it have no route at the level of its last byte, and every other route is there
  -- as before. Or it fails: then no such address had a route at that level, and no route changes.
  pub delete_ipv4_8stride-Removed :
      (t : Trie)
      → IsTrie t
      → 0 < len
      → len ≤ 32
      → Removed (plain t.root_idx) t p len (delete_ipv4_8stride t p len)
  unfolding delete_ipv4_8stride
  delete_ipv4_8stride-Removed t trie pos fits = delete_8stride-Removed 32 t trie pos fits

  -- Deleting a prefix of 1 to 128 bits from an IPv6 trie of 8-bit strides succeeds and takes away the
  -- routes of the agreeing addresses at the level of its last byte and no other, or fails where no
  -- such address had a route at that level, and changes no route.
  pub delete_ipv6_8stride-Removed :
      (t : Trie)
      → IsTrie t
      → 0 < len
      → len ≤ 128
      → Removed (plain t.root_idx) t p len (delete_ipv6_8stride t p len)
  unfolding delete_ipv6_8stride
  delete_ipv6_8stride-Removed t trie pos fits = delete_8stride-Removed 128 t trie pos fits
