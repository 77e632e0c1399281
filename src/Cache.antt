-- ===== src/Cache.antt =====
-- include/internal.h: the inline functions of the hot cache.
use liblpm.Base.{
  ℕ, zero, suc, ◌+◌, ◌-◌, ◌*◌, ◌≡◌, refl, Bool, Bool-cases, inl, inr, true, false, ◌==◌,
  if◌then◌else◌, bit_and, bit_xor,
}
use liblpm.Word.{u32, u64}
use liblpm.Trie.{Bytes, CacheEntry, Trie, write, hot_cache_size}

-- The loop of `lpm_fast_hash`, with `left` bytes to go.
unfoldable pub hash_loop : ℕ → ℕ → Bytes → ℕ → ℕ
hash_loop zero i addr h = h
hash_loop (suc left) i addr h =
    hash_loop left (i + 1) addr (u64 (bit_xor h (addr i) * 0x100_0000_01b3))

-- `lpm_fast_hash`
unfoldable pub fast_hash : Bytes → ℕ → ℕ
fast_hash addr len = hash_loop len 0 addr 0xcbf2_9ce4_8422_2325

abbrev pub cache_index : ℕ → ℕ
cache_index h = u32 (bit_and h (hot_cache_size - 1))

-- What an entry says about a hash: its next hop, and whether that is a hit.
abbrev pub probed : CacheEntry → ℕ → ℕ × Bool
probed e h = (e.next_hop, e.addr_hash == h)

-- `lpm_cache_probe`: the value it returns, and `*hit`.
unfoldable pub cache_probe : Trie → Bytes → ℕ → ℕ × Bool
cache_probe t addr len =
    if t.has_hot_cache
    then probed (t.hot_cache (cache_index (fast_hash addr len))) (fast_hash addr len)
    else (0, false)

-- `lpm_cache_store`
unfoldable pub cache_store : Trie → Bytes → ℕ → ℕ → Trie
cache_store t addr len next_hop =
    if t.has_hot_cache
    then record t {
      hot_cache =
          write t.hot_cache (cache_index (fast_hash addr len))
            (record { addr_hash = fast_hash addr len; next_hop = next_hop });
    }
    else t

stored_at :
    (cache : ℕ → CacheEntry) (h k next_hop : ℕ)
    → probed
        (write cache
          (cache_index h)
          (record { addr_hash = h; next_hop = next_hop })
          (cache_index k))
        k
      ≡ (if cache_index k == cache_index h
          then (next_hop, h == k)
          else probed (cache (cache_index k)) k)
unfolding write
stored_at cache h k next_hop = elim (Bool-cases (cache_index k == cache_index h)) [
  | inl e ↦ rw e refl
  | inr e ↦ rw e refl
]

-- After the next hop of an address is stored in a cache that is there, a probe for an address whose
-- hash has the same index gives that next hop, as a hit if the hashes are equal; a probe for any
-- other address gives what it gave before.
pub cache_probe-cache_store :
    (t : Trie) (addr other : Bytes) (len other_len next_hop : ℕ)
    → t.has_hot_cache ≡ true
    → cache_probe (cache_store t addr len next_hop) other other_len ≡ (
        if cache_index (fast_hash other other_len) == cache_index (fast_hash addr len)
        then (next_hop, fast_hash addr len == fast_hash other other_len)
        else cache_probe t other other_len)
unfolding cache_probe cache_store
cache_probe-cache_store t addr other len other_len next_hop present =
    simp present (stored_at t.hot_cache (fast_hash addr len) (fast_hash other other_len) next_hop)
