-- ===== src/Dir24/Store.antt =====
-- What the loops of src/dir24/core.c store, entry by entry.
use liblpm.Base.{
  ℕ, zero, suc, ◌+◌, ◌-◌, ◌*◌, ◌/◌, ◌^◌, ◌≤◌, ◌<◌, ◌≡◌, arith, ◌==◌, if◌then◌else◌, Bool-cases, inl,
  inr,
}
use liblpm.Bits.{bit_and_align, block_fits}
use liblpm.Word.{u8, u32, test, ext_flag}
use liblpm.Word.Blocks.{within, mask8_lem}
use liblpm.Trie.{Table, Bytes, write}
use liblpm.Dir24.{fill_entries, fill_group, fill_partial, store_in_group}

pub fill_entries_lem :
    (left i base v : ℕ) (table : Table) (j : ℕ)
    → base + i + left ≤ 2 ^ 32
    → fill_entries left i base v table j ≡ (
        if within (base + i) left j
        then (if test (table j) ext_flag then table j else v)
        else table j)
unfolding fill_entries write
fill_entries_lem zero i base v table j h = ground arith
fill_entries_lem (suc left) i base v table j h =
    let e : u32 (base + i) ≡ base + i = omega arith in
    rw e (
      ground (
        arith,
        fill_entries_lem left (i + 1) base v
            (if test (table (base + i)) ext_flag then table else write table (base + i) v) j
            (omega arith),
      ))

pub fill_group_lem :
    (left i start v : ℕ) (groups : Table) (j : ℕ)
    → fill_group left i start v groups j ≡ (if within (start + i) left j then v else groups j)
unfolding fill_group write
fill_group_lem zero i start v groups j = ground arith
fill_group_lem (suc left) i start v groups j =
    ground (arith, fill_group_lem left (i + 1) start v (write groups (start + i) v) j)

pub fill_partial_lem :
    (left i start base v : ℕ) (groups : Table) (j : ℕ)
    → base + i + left ≤ 256
    → fill_partial left i start base v groups j
      ≡ (if within (start + (base + i)) left j then v else groups j)
unfolding fill_partial write
fill_partial_lem zero i start base v groups j h = ground arith
fill_partial_lem (suc left) i start base v groups j h =
    ground
      (arith, fill_partial_lem left (i + 1) start base v (write groups (start + u8 (base + i)) v) j)

-- A prefix longer than 24 bits is stored into the entries of its group that agree with its last
-- byte above the `32 - len` low bits, and into no other.
pub store_in_group_lem :
    (group : ℕ) (p : Bytes) (len v : ℕ) (groups : Table) (j : ℕ)
    → p 3 < 256
    → 24 < len
    → len ≤ 32
    → store_in_group group p len v groups j ≡ (
        if within (group * 256 + p 3 / 2 ^ (32 - len) * 2 ^ (32 - len)) (2 ^ (32 - len)) j
        then v
        else groups j)
unfolding store_in_group
store_in_group_lem group p len v groups j byte lo hi = elim (Bool-cases (u8 (len - 24) == 8)) [
  | inl exact ↦ let e : 32 - len ≡ 0 = ground arith in rw (exact, e) (unfold write in ground arith)
  | inr partial ↦
      let r : u8 (len - 24) ≡ len - 24 = omega arith in
      let k : 8 - (len - 24) ≡ 32 - len = omega arith in
      let fits : p 3 / 2 ^ (32 - len) * 2 ^ (32 - len) + 2 ^ (32 - len) ≤ 256 =
        block_fits 8 (32 - len) (p 3) (omega arith) byte in
      rw
        (
          partial,
          r,
          k,
          mask8_lem (32 - len) (ground arith) (omega arith),
          bit_and_align 8 (32 - len) (p 3) (omega arith) byte,
        )
        (ground (
          arith,
          fill_partial_lem (1 * 2 ^ (32 - len)) 0 (group * 256)
              (p 3 / 2 ^ (32 - len) * 2 ^ (32 - len)) v groups j (omega arith),
        ))
]
