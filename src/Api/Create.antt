-- ===== src/Api/Create.antt =====
-- `lpm_create_ipv4` and `lpm_create_ipv6` of src/api.c and `lpm_create` of src/core.c, by the macros
-- that the build defines.
use liblpm.Base.{ℕ, Bool, ◌==◌, if◌then◌else◌, Option, none}
use liblpm.Word.{ipv4_max_depth, ipv6_max_depth}
use liblpm.Trie.{Trie, Allocator}
use liblpm.Dir24.Create.{create_ipv4_dir24}
use liblpm.Stride8.Create.{create_ipv4_8stride, create_ipv6_8stride}
use liblpm.Wide16.{create_ipv6_wide16}

-- Which of the macros `LPM_IPV4_DEFAULT_dir24` and so on are defined.
pub record Macros : Type 0 where
  pub ipv4_default_dir24 : Bool
  pub ipv4_default_stride8 : Bool
  pub ipv6_default_wide16 : Bool
  pub ipv6_default_stride8 : Bool

unfoldable pub create_ipv4 : Macros → Allocator → Option Trie
create_ipv4 macros al =
    if macros.ipv4_default_stride8 then create_ipv4_8stride al else create_ipv4_dir24 al

unfoldable pub create_ipv6 : Macros → Allocator → Option Trie
create_ipv6 macros al =
    if macros.ipv6_default_stride8 then create_ipv6_8stride al else create_ipv6_wide16 al

-- `lpm_create`
unfoldable pub create : Macros → Allocator → ℕ → Option Trie
create macros al max_depth =
    if max_depth == ipv4_max_depth
    then (if macros.ipv4_default_dir24 then create_ipv4_dir24 al else create_ipv4_8stride al)
    else if max_depth == ipv6_max_depth
    then (if macros.ipv6_default_wide16 then create_ipv6_wide16 al else create_ipv6_8stride al)
    else none
