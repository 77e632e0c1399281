-- ===== src/Bits.antt =====
-- The bit operations of the C code as arithmetic, at every width.
mod Step
mod Fields
mod Masks
pub use Fields.*
pub use Masks.*
