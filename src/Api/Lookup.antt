-- ===== src/Api/Lookup.antt =====
-- src/api.c: the lookups of one address.
use liblpm.Base.{ℕ, ◌&&◌, ◌==◌, if◌then◌else◌, Option, none, some}
use liblpm.Word.{invalid_next_hop, ipv4_max_depth, ipv6_max_depth}
use liblpm.Trie.{Bytes, Trie}
use liblpm.Simd.{SimdLevel}
use liblpm.Dir24.Lookup.{lookup_ipv4_dir24, lookup_ipv4_dir24_bytes}
use liblpm.Stride8.Lookup.{lookup_ipv4_8stride, lookup_ipv4_8stride_bytes, lookup_ipv6_8stride}
use liblpm.Wide16.Lookup.{lookup_ipv6_wide16}

-- `lpm_lookup_ipv4`
unfoldable pub lookup_ipv4 : SimdLevel → Option Trie → ℕ → ℕ
lookup_ipv4 level none addr = invalid_next_hop
lookup_ipv4 level (some t) addr =
    if t.use_ipv4_dir24 && t.has_dir24_table
    then lookup_ipv4_dir24 t addr
    else lookup_ipv4_8stride level t addr

-- `lpm_lookup_ipv6` once its arguments are there.
unfoldable pub dispatch_ipv6 : SimdLevel → Trie → Bytes → ℕ
dispatch_ipv6 level t addr =
    if t.use_ipv6_wide_stride && t.has_wide_nodes_pool
    then lookup_ipv6_wide16 level t addr
    else lookup_ipv6_8stride level t addr

-- `lpm_lookup_ipv6`
unfoldable pub lookup_ipv6 : SimdLevel → Option Trie → Option Bytes → ℕ
unfolding dispatch_ipv6
lookup_ipv6 level none addr = invalid_next_hop
lookup_ipv6 level (some t) none = invalid_next_hop
lookup_ipv6 level (some t) (some addr) = dispatch_ipv6 level t addr

-- `lpm_lookup` once its arguments are there.
unfoldable pub dispatch_lookup : SimdLevel → Trie → Bytes → ℕ
unfolding dispatch_ipv6
dispatch_lookup level t addr =
    if t.max_depth == ipv4_max_depth
    then (if t.use_ipv4_dir24 && t.has_dir24_table
        then lookup_ipv4_dir24_bytes t addr
        else lookup_ipv4_8stride_bytes level t addr)
    else if t.max_depth == ipv6_max_depth
    then dispatch_ipv6 level t addr
    else invalid_next_hop

-- `lpm_lookup`
unfoldable pub lookup : SimdLevel → Option Trie → Option Bytes → ℕ
unfolding dispatch_lookup
lookup level none addr = invalid_next_hop
lookup level (some t) none = invalid_next_hop
lookup level (some t) (some addr) = dispatch_lookup level t addr
