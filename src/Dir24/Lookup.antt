-- ===== src/Dir24/Lookup.antt =====
-- src/dir24/single.c: the lookup of one address.
use liblpm.Base.{ℕ, ◌==◌, bit_and, bit_or, ◌&&◌, if◌then◌else◌}
use liblpm.Word.{u32, ◌<<<◌, ◌>>>◌, test, invalid_next_hop, valid_flag, ext_flag, nh_mask}
use liblpm.Trie.{Table, Bytes, Trie}
use liblpm.Dir24.{dir24_index}

-- The next hop in an entry, or the invalid one.
unfoldable pub entry_next_hop : ℕ → ℕ
entry_next_hop data_word =
    if test data_word valid_flag then bit_and data_word nh_mask else invalid_next_hop

-- `dir24_lookup_inline`
unfoldable pub dir24_lookup : Table → Table → Bytes → ℕ
dir24_lookup dir24 tbl8 addr =
    if test data_word ext_flag
    then entry_next_hop (tbl8 (bit_or (u32 (bit_and data_word nh_mask <<< 8)) (addr 3)))
    else entry_next_hop data_word
  where
    data_word : ℕ
    data_word = dir24 (dir24_index addr)

-- No match gives the default route, if there is one.
unfoldable pub with_default : Trie → ℕ → ℕ
with_default t result =
    if result == invalid_next_hop && t.has_default_route then t.default_next_hop else result

-- `lpm_lookup_ipv4_dir24_bytes`
unfoldable pub lookup_ipv4_dir24_bytes : Trie → Bytes → ℕ
lookup_ipv4_dir24_bytes t addr =
    if t.use_ipv4_dir24 && t.has_dir24_table
    then with_default t (dir24_lookup t.dir24_table t.tbl8_groups addr)
    else invalid_next_hop

-- The bytes of a `uint32_t` address, most significant first.
unfoldable pub address_bytes : ℕ → Bytes
address_bytes addr i =
    if i == 0
    then bit_and (addr >>> 24) 0xff
    else if i == 1
    then bit_and (addr >>> 16) 0xff
    else if i == 2
    then bit_and (addr >>> 8) 0xff
    else bit_and addr 0xff

-- `lpm_lookup_ipv4_dir24`
unfoldable pub lookup_ipv4_dir24 : Trie → ℕ → ℕ
lookup_ipv4_dir24 t addr =
    if t.use_ipv4_dir24 && t.has_dir24_table
    then with_default t (dir24_lookup t.dir24_table t.tbl8_groups (address_bytes addr))
    else invalid_next_hop
