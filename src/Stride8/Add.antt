-- ===== src/Stride8/Add.antt =====
-- `lpm_add_ipv4_8stride` and `lpm_add_ipv6_8stride` by the routes of the trie.
use liblpm.Base.{
  ℕ, zero, suc, ◌+◌, ◌*◌, ◌/◌, ◌≤◌, ◌<◌, ◌≡◌, refl, arith, ap, sym, subst, ◌∙◌, true, false, ◌&&◌,
  ◌==◌, ltb, leb, some, Bool-cases, inl, inr,
}
use liblpm.Word.{◌>>>◌, invalid_index, ipv4_max_depth}
use liblpm.Trie.{Bytes, Entry, Trie, Allocator, Status, ok, failed}
use liblpm.Prefix.{agree_bits, last_byte}
use liblpm.Pool.Rest.{SameRest, SameRest-other, SameRest-trans, IsBounded, NoRoom}
use liblpm.Stride8.{
  open_child, make_valid, set_valid, direct_table_update, count_added, clear_cache,
}
use liblpm.Stride8.Update.{
  add_from, add_8stride, add_ipv4_8stride, add_ipv6_8stride, no_direct_table,
}
use liblpm.Stride8.Tree.{Head, plain, node_on}
use liblpm.Stride8.Paint.{Stores, make_valid-Stores, set_valid-Stores}
use liblpm.Stride8.Valid.{IsForest, IsTrie, node_under, route_under}
use liblpm.Stride8.Open.{open_child-Opened}
use liblpm.Stride8.Store.{whole-Stored, partial-Stored}
use liblpm.Dir24.Index.{IsBytes}
use liblpm.Stride8.Effect.{Stored, Stored-other, Stored-after, IsForest-other}

-- No route changes. A node that the prefix needs is missing, all nodes of the array are in use, and
-- the allocator refuses to double the array.
pub record Refused (head : Head) (al : Allocator) (t : Trie) (p : Bytes) (len : ℕ) (u : Trie)
    : Type 0 where
  pub trie : IsForest head u
  pub rest : SameRest t u
  pub routes : (a : Bytes) (k : ℕ) → route_under head u a k ≡ route_under head t a k
  pub level : ℕ
  pub needed : level ≤ last_byte len
  pub missing : node_under head u p level ≡ 0
  pub no_room : NoRoom al u

-- The prefix is stored, or there is no room for a node that it needs.
pub data Added (head : Head) (al : Allocator) (t : Trie) (p : Bytes) (len nh : ℕ)
    (out : Status × Trie) : Type 0 where
  added :
      out.0 ≡ ok
      → Stored head t (last_byte len) (agree_bits len p) (some nh) out.1
      → Added head al t p len nh out
  refused : out.0 ≡ failed → Refused head al t p len out.1 → Added head al t p len nh out

-- An update that changes only the fields that no lookup reads.
abbrev IsQuiet : (Trie → Trie) → Type 0
IsQuiet update = (t : Trie) → update t ≡ record t { direct_table = (update t).direct_table }

module _ (head : Head) (al : Allocator) (p : Bytes) (len nh : ℕ) (update : Trie → Trie)
    (finish : Entry → Entry) (bounded : IsBounded al) (bytes : IsBytes p) (quiet : IsQuiet update)
    (finishes : Stores finish (some nh)) where
  counted-Stored :
      (t u : Trie)
      → Stored head t (last_byte len) (agree_bits len p) (some nh) u
      → Stored head t (last_byte len) (agree_bits len p) (some nh) (count_added (update u)).1
  counted-Stored t u stored =
      subst (Stored head t (last_byte len) (agree_bits len p) (some nh))
        (sym (ap (λ (v : Trie). (count_added v).1) (quiet u))) (Stored-other _ _ _ stored)

  Added-after :
      (t u : Trie) (out : Status × Trie)
      → SameRest t u
      → ((a : Bytes) (k : ℕ) → route_under head u a k ≡ route_under head t a k)
      → Added head al u p len nh out
      → Added head al t p len nh out
  Added-after t u out rest same (added e s) = added e (Stored-after rest same s)
  Added-after t u out rest same (refused e r) = refused e (record {
    trie = r.trie;
    rest = SameRest-trans rest r.rest;
    routes = λ a k. r.routes a k ∙ same a k;
    level = r.level;
    needed = r.needed;
    missing = r.missing;
    no_room = r.no_room;
  })

  -- The loop over the whole bytes, from the byte `d` on.
  pub add_from-Added :
      (rounds d depth node : ℕ) (t : Trie)
      → IsForest head t
      → depth ≡ 8 * d
      → node ≡ node_under head t p d
      → 0 < node
      → depth < len
      → len / 8 ≡ d + rounds
      → Added head al t p len nh (add_from al finish p len nh update rounds depth node t)
  unfolding add_from
  add_from-Added zero d depth node t trie e f inner below count =
      let inside : ltb depth len ≡ true = ground arith in
      rw (inside, e, f)
        (added refl (
          counted-Stored t _ (
            partial-Stored head t p len d (make_valid nh) (some nh) trie (omega arith)
              (make_valid-Stores nh) (bytes d) (omega arith) (omega arith))))
  add_from-Added (suc rounds) d depth node t trie e f inner below count =
      let at_d : depth >>> 3 ≡ d = omega arith in
      elim (Bool-cases (depth + 8 == len)) [
        | inl last ↦
            rw (last, at_d, f)
              (added refl (
                counted-Stored t _ (
                  whole-Stored head t p len d finish (some nh) trie (omega arith) finishes
                    (ground arith))))
        | inr more ↦
            rw (more, at_d, f)
              (elim (open_child-Opened head al t p d bounded trie (omega arith)) [
                | inl opened ↦
                    let there : ((open_child al (node_under head t p d) (p d) t).0 == invalid_index)
                        ≡ false =
                      ground (arith, opened.present) in
                    rw there (
                      Added-after t _ _ opened.rest opened.routes (
                        add_from-Added rounds (suc d) (depth + 8)
                          (open_child al (node_under head t p d) (p d) t).0
                          (open_child al (node_under head t p d) (p d) t).1 opened.trie
                          (omega arith) (sym opened.next) opened.present (ground arith)
                          (omega arith)))
                | inr (unchanged, gap, no_room) ↦
                    let gone = ap (λ (o : ℕ × Trie). o.0 == invalid_index) unchanged in
                    let same : (open_child al (node_under head t p d) (p d) t).1 ≡ t =
                      ap (λ (o : ℕ × Trie). o.1) unchanged in
                    rw gone (
                      refused refl (
                        subst (Refused head al t p len) (sym same) (record {
                          trie = trie;
                          rest = SameRest-other t _ _ _ _ _ _ _;
                          routes = λ a k. refl;
                          level = suc d;
                          needed = ground arith;
                          missing = gap;
                          no_room = no_room;
                        })))
              ])
      ]

-- The trie that the loop starts with differs only in its hot cache.
add_8stride-Added :
    (al : Allocator) (p : Bytes) (len nh max_len : ℕ) (direct : Bytes → ℕ → ℕ → Trie → Trie)
    (t : Trie)
    → IsBounded al
    → IsBytes p
    → IsQuiet (direct p len nh)
    → IsTrie t
    → 0 < len
    → len ≤ max_len
    → Added (plain t.root_idx) al t p len nh (add_8stride max_len direct al t p len nh)
unfolding add_8stride
add_8stride-Added al p len nh max_len direct t bounded bytes quiet trie pos fits =
    let allowed : ltb max_len len ≡ false = ground arith in
    let some_bits : (len == 0) ≡ false = ground arith in
    rw (allowed, some_bits)
      (Added-after (plain t.root_idx) al p len nh (direct p len nh) (set_valid nh) bounded bytes
        quiet (set_valid-Stores nh) t (clear_cache t) _ (SameRest-other t _ _ _ _ _ _ _)
        (λ a k. refl)
        (add_from-Added (plain t.root_idx) al p len nh (direct p len nh) (set_valid nh) bounded
          bytes quiet (set_valid-Stores nh) (len / 8) 0 0 t.root_idx (clear_cache t)
          (IsForest-other _ _ _ trie) (omega arith) (unfold node_on in refl)
          (trie.tree.rooted p refl) pos (omega arith)))

direct_table_update-IsQuiet : (p : Bytes) (len nh : ℕ) → IsQuiet (direct_table_update p len nh)
unfolding direct_table_update
direct_table_update-IsQuiet p len nh t =
    elim (Bool-cases (t.has_direct_table && t.max_depth == ipv4_max_depth && leb len 16)) [
      | inl e ↦ rw e refl
      | inr e ↦ rw e refl
    ]

module _ (al : Allocator) (t : Trie) (p : Bytes) (len nh : ℕ) (bounded : IsBounded al)
    (trie : IsTrie t) (bytes : IsBytes p) (pos : 0 < len) where
  -- Adding a prefix of 1 to 32 bits to an IPv4 trie of 8-bit strides succeeds or fails. If it
  -- succeeds, the addresses that agree with the prefix have its next hop at the level of its last
  -- byte, and every other route is there as before. If it fails, every route is there as before, a
  -- node that the prefix needs is missing, every node of the array is in use, and the allocator
  -- refuses the array of twice the size. The invariant holds in both cases.
  pub add_ipv4_8stride-Added :
      len ≤ 32 → Added (plain t.root_idx) al t p len nh (add_ipv4_8stride al t p len nh)
  unfolding add_ipv4_8stride
  add_ipv4_8stride-Added fits =
      add_8stride-Added al p len nh 32 direct_table_update t bounded bytes
        (direct_table_update-IsQuiet p len nh) trie pos fits

  -- Adding a prefix of 1 to 128 bits to an IPv6 trie of 8-bit strides succeeds or fails. If it
  -- succeeds, the addresses that agree with the prefix have its next hop at the level of its last
  -- byte, and every other route is there as before. If it fails, every route is there as before, a
  -- node that the prefix needs is missing, every node of the array is in use, and the allocator
  -- refuses the array of twice the size. The invariant holds in both cases.
  pub add_ipv6_8stride-Added :
      len ≤ 128 → Added (plain t.root_idx) al t p len nh (add_ipv6_8stride al t p len nh)
  unfolding add_ipv6_8stride
  add_ipv6_8stride-Added fits =
      add_8stride-Added al p len nh 128 no_direct_table t bounded bytes (λ u. refl) trie pos fits
