-- ===== src/Php/Script.antt =====
-- Calls of `insert` on a table of class LpmTableIPv6 with its default algorithm, as adds to the trie
-- with a 16-bit root.
use liblpm.Base.{
  ℕ, ◌≡◌, refl, arith, ap, sym, subst, ◌∙◌, Bool, true, false, ◌&&◌, ◌==◌, ltb, if◌then◌else◌,
  Option, Option-cases, none, some, ◌⊎◌, List, [], ◌∷◌, Bool-cases, inl, inr,
}
use liblpm.Word.{ipv4_max_depth, ipv6_max_depth}
use liblpm.Trie.{Bytes, Trie, Allocator, Status, ok, failed}
use liblpm.Dir24.Lpm.{if_ok, if_ok-some}
use liblpm.Pool.Rest.{IsBounded}
use liblpm.History.{ByteRoute, AllBytes, add_history, add-IsSound}
use liblpm.Stride8.Update.{add_ipv4_8stride, add_ipv6_8stride}
use liblpm.Dir24.{add_ipv4_dir24}
use liblpm.Wide16.Update.{add_ipv6_wide16}
use liblpm.Wide16.Valid.{IsWide, wide_kind}
use liblpm.Wide16.Add.{add_ipv6_wide16-IsAdd}
use liblpm.Api.{add, dispatch_add}
use liblpm.Lua.Text.{◌>>=◌, bind-some, some-eq, Text}
use liblpm.Php.Prefix.{Pton, parse_prefix}
use liblpm.Php.Methods.{table_ipv6_insert}
use liblpm.Php.Table.{
  PhpTable, ZendLong, php_false, php_true, php_long, Reply, returned_array, operation_error,
  prefix_error, warned, returned, returned_nothing, return_bool, hop_in_range, insert,
}

-- What a script hands to `insert`.
pub record PhpRoute : Type 0 where
  pub prefix : Text
  pub next_hop : ZendLong

-- The route that a text and a number stand for.
abbrev pub read_route : Pton → PhpRoute → Option ByteRoute
read_route pton r = elim (parse_prefix pton true r.prefix) [
  | none ↦ none
  | some (addr, len) ↦ elim (hop_in_range r.next_hop) [
    | none ↦ none
    | some nh ↦ some (record { bytes = addr; len = len; next_hop = nh })
  ]
]

unfoldable pub read_routes : Pton → List PhpRoute → Option (List ByteRoute)
read_routes pton [] = some []
read_routes pton (r ∷ older) = do
  first ← read_route pton r
  rest ← read_routes pton older
  some (first ∷ rest)

-- `insert` returns true.
abbrev pub accepted : Reply × PhpTable → Option PhpTable
accepted (reply, table) = elim reply [
  | returned v ↦ elim v [ php_false ↦ none | php_true ↦ some table | php_long n ↦ none ]
  | returned_array vs ↦ none
  | returned_nothing ↦ none
  | operation_error ↦ none
  | prefix_error ↦ none
  | warned ↦ none
]

-- Calls of `insert`, the oldest first, that all return true.
unfoldable pub insert_history : Allocator → Pton → PhpTable → List PhpRoute → Option PhpTable
insert_history al pton table [] = some table
insert_history al pton table (r ∷ older) = do
  before ← insert_history al pton table older
  accepted (table_ipv6_insert al pton before r.prefix r.next_hop)

-- The open object with a trie.
abbrev pub table_of : Trie → PhpTable
table_of t = record { trie = some t; is_ipv6 = true; closed = false }

abbrev pub tables : Option Trie → Option PhpTable
tables none = none
tables (some t) = some (table_of t)

-- The generic interface picks the functions of the 16-bit root.
pub wide_flags : {t : Trie} → IsWide t → (t.use_ipv6_wide_stride && t.has_wide_nodes_pool) ≡ true
wide_flags wide = ground (arith, wide.strided, wide.present)

dispatch_add-wide :
    (al : Allocator) (t : Trie) (p : Bytes) (len nh : ℕ)
    → IsBounded al
    → IsWide t
    → dispatch_add al t p len nh ≡ add_ipv6_wide16 al t p len nh
unfolding dispatch_add
dispatch_add-wide al t p len nh bounded wide =
    ap
      (λ (d : ℕ).
        if ltb d len
        then (failed, t)
        else if d == ipv4_max_depth
        then (if t.use_ipv4_dir24 && t.has_dir24_table
            then add_ipv4_dir24 al t p len nh
            else add_ipv4_8stride al t p len nh)
        else if d == ipv6_max_depth
        then (if t.use_ipv6_wide_stride && t.has_wide_nodes_pool
            then add_ipv6_wide16 al t p len nh
            else add_ipv6_8stride al t p len nh)
        else (failed, t))
      wide.depth
    ∙ ap
        (λ (b : Bool).
          if ltb 128 len
          then (failed, t)
          else if b
          then add_ipv6_wide16 al t p len nh
          else add_ipv6_8stride al t p len nh)
        (wide_flags wide)
    ∙ in_range (Bool-cases (ltb 128 len))
  where
    in_range :
        (ltb 128 len ≡ true) ⊎ (ltb 128 len ≡ false)
        → (if ltb 128 len then (failed, t) else add_ipv6_wide16 al t p len nh)
          ≡ add_ipv6_wide16 al t p len nh
    in_range (inl long) =
        rw long (sym ((add_ipv6_wide16-IsAdd al bounded).too_long t p len nh (ground arith)))
    in_range (inr short) = rw short refl

module _ (al : Allocator) (pton : Pton) (bounded : IsBounded al) where
  -- One call of `insert` on an open table.
  insert_lem :
      (t : Trie) (r : PhpRoute) (b : ByteRoute)
      → IsWide t
      → read_route pton r ≡ some b
      → accepted (insert al pton true (table_of t) r.prefix r.next_hop)
        ≡ tables (if_ok (add_ipv6_wide16 al t b.bytes b.len b.next_hop))
  unfolding insert add
  insert_lem t r b wide e = elim (Option-cases (parse_prefix pton true r.prefix)) [
    | inl bad ↦ absurd (cc (rw (read_route, bad) at e))
    | inr ((addr, len), good) ↦ elim (Option-cases (hop_in_range r.next_hop)) [
      | inl beyond ↦ absurd (cc (rw (read_route, good, beyond) at e))
      | inr (nh, held) ↦
          let same : some (record { bytes = addr; len = len; next_hop = nh }) ≡ some b =
            rw (read_route, good, held) at e in
          let route : the_route addr len nh ≡ b = cc in
          rw (insert, good, held)
            (outcome (dispatch_add al t addr len nh)
              ∙ ap (λ (o : Status × Trie). tables (if_ok o))
                  (dispatch_add-wide al t addr len nh bounded wide)
              ∙ ap
                  (λ (c : ByteRoute).
                    tables (if_ok (add_ipv6_wide16 al t c.bytes c.len c.next_hop)))
                  route)
    ]
  ]
    where
      the_route : Bytes → ℕ → ℕ → ByteRoute
      the_route addr len nh = record { bytes = addr; len = len; next_hop = nh }

      outcome :
          (o : Status × Trie)
          → accepted (returned (return_bool o.0), record (table_of t) { trie = some o.1 })
            ≡ tables (if_ok o)
      outcome (ok, v) = refl
      outcome (failed, v) = refl

  pub history-IsWide :
      (t u : Trie) (h : List ByteRoute)
      → IsWide t
      → AllBytes h
      → add_history (add_ipv6_wide16 al) t h ≡ some u
      → IsWide u
  unfolding add_history
  history-IsWide t u [] wide fit e = let same : t ≡ u = cc in subst IsWide same wide
  history-IsWide t u (b ∷ older) wide fit e =
      elim (Option-cases (add_history (add_ipv6_wide16 al) t older)) [
        | inl stopped ↦ absurd (ground (arith, stopped))
        | inr (v, before) ↦
            let last =
              if_ok-some (add_ipv6_wide16 al v b.bytes b.len b.next_hop) u (rw before at e) in
            subst IsWide last.1 (
              add-IsSound wide_kind (add_ipv6_wide16 al) (add_ipv6_wide16-IsAdd al bounded) v
                b.bytes b.len b.next_hop (history-IsWide t v older wide fit.2 before) fit.0)
      ]

  pub insert_history_lem :
      (t : Trie) (h : List PhpRoute) (bs : List ByteRoute)
      → IsWide t
      → read_routes pton h ≡ some bs
      → AllBytes bs
      → insert_history al pton (table_of t) h ≡ tables (add_history (add_ipv6_wide16 al) t bs)
  unfolding read_routes insert_history add_history
  insert_history_lem t [] bs wide e fit =
      let same : [] ≡ bs = cc in
      subst
        (λ (l : List ByteRoute). some (table_of t) ≡ tables (add_history (add_ipv6_wide16 al) t l))
        same refl
  insert_history_lem t (r ∷ older) bs wide e fit =
      let first = bind-some (read_route pton r) _ bs e in
      let rest = bind-some (read_routes pton older) _ bs first.1.1 in
      let same : (first.0 ∷ rest.0) ≡ bs = some-eq rest.1.1 in
      subst
        (λ (l : List ByteRoute).
          (insert_history al pton (table_of t) older >>= λ before.
          accepted (table_ipv6_insert al pton before r.prefix r.next_hop))
          ≡ tables (add_history (add_ipv6_wide16 al) t l))
        same
        (next first.0 rest.0 first.1.0 (subst AllBytes (sym same) fit)
          (insert_history_lem t older rest.0 wide rest.1.0 (subst AllBytes (sym same) fit).2)
          (Option-cases (add_history (add_ipv6_wide16 al) t rest.0)))
    where
      next :
          (b : ByteRoute) (bs : List ByteRoute)
          → read_route pton r ≡ some b
          → AllBytes (b ∷ bs)
          → insert_history al pton (table_of t) older
            ≡ tables (add_history (add_ipv6_wide16 al) t bs)
          → (add_history (add_ipv6_wide16 al) t bs ≡ none)
            ⊎ ((v : Trie) × (add_history (add_ipv6_wide16 al) t bs ≡ some v))
          → (insert_history al pton (table_of t) older >>= λ before.
              accepted (table_ipv6_insert al pton before r.prefix r.next_hop))
            ≡ tables (add_history (add_ipv6_wide16 al) t (b ∷ bs))
      next b bs f all earlier (inl stopped) = rw earlier (rw (add_history, stopped) refl)
      next b bs f all earlier (inr (v, before)) =
          rw earlier (
            rw (add_history, before) (insert_lem v r b (history-IsWide t v bs wide all.2 before) f))
