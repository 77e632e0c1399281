-- ===== src/Word/Flags.antt =====
-- The flag bits of a 32-bit word, read as arithmetic.
use liblpm.Base.{ℕ, ◌+◌, ◌/◌, ◌%◌, ◌^◌, ◌<◌, bit_and, bit_or, ◌≡◌, arith, leb}
use liblpm.Bits.{bit_and_low, bit_and_shifted, bit_or_fields}
use liblpm.Word.{test, valid_flag, ext_flag, nh_mask}

-- Bit 31 is set in the upper half of the range.
pub test-valid_flag : (d : ℕ) → d < 2 ^ 32 → test d valid_flag ≡ leb (2 ^ 31) d
unfolding test
test-valid_flag d h = ground (arith, bit_and_shifted 31 d 1, bit_and_low 1 (d / 2 ^ 31))

pub test-ext_flag : (d : ℕ) → test d ext_flag ≡ leb (2 ^ 30) (d % 2 ^ 31)
unfolding test
test-ext_flag d = ground (arith, bit_and_shifted 30 d 1, bit_and_low 1 (d / 2 ^ 30))

pub bit_and-nh_mask : (d : ℕ) → bit_and d nh_mask ≡ d % 2 ^ 30
bit_and-nh_mask d = bit_and_low 30 d

pub bit_or-valid_flag : (d : ℕ) → d < 2 ^ 31 → bit_or valid_flag d ≡ 2 ^ 31 + d
bit_or-valid_flag d h = bit_or_fields 31 1 d h

-- `next_hop & 0xC0000000` rejects what does not fit in 30 bits.
pub test-high_bits : (d : ℕ) → d < 2 ^ 32 → test d 0xc000_0000 ≡ leb (2 ^ 30) d
unfolding test
test-high_bits d h = ground (arith, bit_and_shifted 30 d 3, bit_and_low 2 (d / 2 ^ 30))
