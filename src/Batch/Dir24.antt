-- ===== src/Batch/Dir24.antt =====
-- src/dir24/batch.c: the scalar batch lookup, beside the lookup of one address.
use liblpm.Base.{
  ℕ, ◌/◌, ◌^◌, ◌<◌, ◌≡◌, ap, sym, ◌∙◌, arith, true, ◌==◌, bit_and, bit_or, if◌then◌else◌, ltb,
}
use liblpm.Word.{u32, ◌<<<◌, ◌>>>◌, test, invalid_next_hop, ext_flag, nh_mask}
use liblpm.Trie.{Table, Trie}
use liblpm.Dir24.{dir24_index}
use liblpm.Dir24.Index.{dir24_index_lem}
use liblpm.Dir24.Answer.{address_bytes_lem}
use liblpm.Dir24.Lookup.{
  entry_next_hop, dir24_lookup, with_default, address_bytes, lookup_ipv4_dir24,
}
use liblpm.Batch.{batch_loop, batched, batch_loop_lem}

-- The result for one address, before the default route.
unfoldable pub batch_result : Table → Table → ℕ → ℕ
batch_result dir24 tbl8 ip =
    if test (dir24 (ip >>> 8)) ext_flag
    then entry_next_hop
        (tbl8 (bit_or (u32 (bit_and (dir24 (ip >>> 8)) nh_mask <<< 8)) (bit_and ip 0xff)))
    else entry_next_hop (dir24 (ip >>> 8))

abbrev pub default_nh : Trie → ℕ
default_nh t = if t.has_default_route then t.default_next_hop else invalid_next_hop

-- `lpm_lookup_batch_ipv4_dir24_scalar`
unfoldable pub lookup_batch_ipv4_dir24_scalar : Trie → Table → Table → ℕ → Table
lookup_batch_ipv4_dir24_scalar t ips next_hops count =
    batch_loop
      (λ i.
        if batch_result t.dir24_table t.tbl8_groups (ips i) == invalid_next_hop
        then default_nh t
        else batch_result t.dir24_table t.tbl8_groups (ips i))
      count 0 next_hops

batch_result_lem :
    (dir24 tbl8 : Table) (ip : ℕ)
    → ip < 2 ^ 32
    → batch_result dir24 tbl8 ip ≡ dir24_lookup dir24 tbl8 (address_bytes ip)
unfolding batch_result dir24_lookup address_bytes
batch_result_lem dir24 tbl8 ip small =
    ap
      (λ (idx : ℕ).
        if test (dir24 idx) ext_flag
        then entry_next_hop
            (tbl8 (bit_or (u32 (bit_and (dir24 idx) nh_mask <<< 8)) (bit_and ip 0xff)))
        else entry_next_hop (dir24 idx))
      (sym index)
  where
    index : dir24_index (address_bytes ip) ≡ ip >>> 8
    index =
        dir24_index_lem (address_bytes ip) (address_bytes_lem ip small).0
        ∙ ap (λ (w : ℕ). w / 256) (address_bytes_lem ip small).1

-- The default route goes in for the same results.
pub default_lem :
    (t : Trie) (result : ℕ)
    → (if result == invalid_next_hop then default_nh t else result) ≡ with_default t result
unfolding with_default
default_lem t result = ground arith

single_lem :
    (t : Trie) (ip : ℕ)
    → t.use_ipv4_dir24 ≡ true
    → t.has_dir24_table ≡ true
    → lookup_ipv4_dir24 t ip
      ≡ with_default t (dir24_lookup t.dir24_table t.tbl8_groups (address_bytes ip))
unfolding lookup_ipv4_dir24
single_lem t ip in_use present = ground arith

-- On a trie made for DIR-24-8, the scalar batch lookup writes the answer of the single lookup for
-- each of the first `count` addresses, and leaves the rest of the output array alone.
pub lookup_batch-eq-lookup_ipv4 :
    (t : Trie) (ips next_hops : Table) (count j : ℕ)
    → t.use_ipv4_dir24 ≡ true
    → t.has_dir24_table ≡ true
    → ips j < 2 ^ 32
    → lookup_batch_ipv4_dir24_scalar t ips next_hops count j
      ≡ batched (λ i. lookup_ipv4_dir24 t (ips i)) count next_hops j
unfolding lookup_batch_ipv4_dir24_scalar
lookup_batch-eq-lookup_ipv4 t ips next_hops count j in_use present small =
    batch_loop_lem _ count next_hops j
    ∙ ap (λ (answer : ℕ). if ltb j count then answer else next_hops j) same
  where
    single :
        lookup_ipv4_dir24 t (ips j)
        ≡ with_default t (dir24_lookup t.dir24_table t.tbl8_groups (address_bytes (ips j)))
    single = single_lem t (ips j) in_use present

    same :
        (if batch_result t.dir24_table t.tbl8_groups (ips j) == invalid_next_hop
          then default_nh t
          else batch_result t.dir24_table t.tbl8_groups (ips j))
        ≡ lookup_ipv4_dir24 t (ips j)
    same =
        default_lem t (batch_result t.dir24_table t.tbl8_groups (ips j))
        ∙ ap (with_default t) (batch_result_lem t.dir24_table t.tbl8_groups (ips j) small)
        ∙ sym single
