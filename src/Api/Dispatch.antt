-- ===== src/Api/Dispatch.antt =====
-- What the functions of src/api.c agree on.
use liblpm.Base.{not, ◌≡◌, refl, arith, Option, none, some}
use liblpm.Word.{ipv4_max_depth, ipv6_max_depth}
use liblpm.Trie.{Allocator, Trie}
use liblpm.Stride8.Lookup.{lookup_ipv6_8stride}
use liblpm.Wide16.Lookup.{lookup_ipv6_wide16}
use liblpm.Simd.{SimdLevel, simd_scalar}
use liblpm.Trie.{Bytes}
use liblpm.Stride8.Variants.{ipv4_8stride_lem, ipv6_8stride_lem}
use liblpm.Wide16.Variants.{wide16_lem}
use liblpm.Api.Lookup.{lookup, dispatch_lookup, dispatch_ipv6}
use liblpm.Api.Create.{Macros, create, create_ipv4, create_ipv6}

-- A build that defines one macro of each pair, as the build files do, makes the same trie through
-- `lpm_create` as through `lpm_create_ipv4` and `lpm_create_ipv6`.
create-create_ipv :
    (macros : Macros) (al : Allocator)
    → macros.ipv4_default_stride8 ≡ not macros.ipv4_default_dir24
    → macros.ipv6_default_stride8 ≡ not macros.ipv6_default_wide16
    → (create macros al ipv4_max_depth ≡ create_ipv4 macros al)
      × (create macros al ipv6_max_depth ≡ create_ipv6 macros al)
unfolding create create_ipv4 create_ipv6
create-create_ipv macros al four six = (rw four (ground arith), rw six (ground arith))

by_variant :
    (level : SimdLevel) (t : Trie) (addr : Bytes)
    → dispatch_lookup level t addr ≡ dispatch_lookup simd_scalar t addr
unfolding dispatch_lookup dispatch_ipv6 lookup_ipv6_8stride lookup_ipv6_wide16
by_variant level t addr =
    rw
      (
        ipv4_8stride_lem level t addr,
        ipv6_8stride_lem level t addr,
        wide16_lem level t addr,
        ipv4_8stride_lem simd_scalar t addr,
        ipv6_8stride_lem simd_scalar t addr,
        wide16_lem simd_scalar t addr,
      )
      refl

-- Whichever variant the resolvers pick for the processor, `lpm_lookup` answers what the scalar
-- variants answer, for every trie and address, NULL or not.
pub lookup-simd_scalar :
    (level : SimdLevel) (t : Option Trie) (addr : Option Bytes)
    → lookup level t addr ≡ lookup simd_scalar t addr
unfolding lookup
lookup-simd_scalar level none addr = refl
lookup-simd_scalar level (some t) none = refl
lookup-simd_scalar level (some t) (some addr) = by_variant level t addr
