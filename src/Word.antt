-- ===== src/Word.antt =====
-- The unsigned integers of the C code as native numbers, and the constants of include/lpm.h.
-- A value is a plain number; what C cuts off is cut off by `u8`, `u16`, `u32` and `u64`.
pub mod Flags
pub mod Blocks
use liblpm.Base.{
  ℕ, ◌+◌, ◌-◌, ◌*◌, ◌/◌, ◌%◌, ◌^◌, Bool, true, false, bit_and, bit_or, ◌==◌, if◌then◌else◌,
}

abbrev pub u8 : ℕ → ℕ
u8 n = n % 2 ^ 8

abbrev pub u16 : ℕ → ℕ
u16 n = n % 2 ^ 16

abbrev pub u32 : ℕ → ℕ
u32 n = n % 2 ^ 32

abbrev pub u64 : ℕ → ℕ
u64 n = n % 2 ^ 64

-- `~x` of a `uint32_t`.
abbrev pub not32 : ℕ → ℕ
not32 x = 2 ^ 32 - 1 - x

infixl 75 ◌<<<◌ ◌>>>◌
abbrev pub ◌<<<◌ : ℕ → ℕ → ℕ
x <<< k = x * 2 ^ k

abbrev pub ◌>>>◌ : ℕ → ℕ → ℕ
x >>> k = x / 2 ^ k

-- `if (word & flag)`
unfoldable pub test : ℕ → ℕ → Bool
test word flag = if bit_and word flag == 0 then false else true

abbrev pub invalid_next_hop : ℕ
invalid_next_hop = 0xffff_ffff

abbrev pub invalid_index : ℕ
invalid_index = 0

abbrev pub valid_flag : ℕ
valid_flag = 2 ^ 31

abbrev pub wide_node_flag : ℕ
wide_node_flag = 2 ^ 30

abbrev pub child_mask : ℕ
child_mask = 0x3fff_ffff

abbrev pub ext_flag : ℕ
ext_flag = 2 ^ 30

abbrev pub nh_mask : ℕ
nh_mask = 0x3fff_ffff

abbrev pub ipv4_max_depth : ℕ
ipv4_max_depth = 32

abbrev pub ipv6_max_depth : ℕ
ipv6_max_depth = 128
