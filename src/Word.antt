-- ===== src/Word.antt =====
-- Machine words as native numbers: the shifts and the masks of `u64` that the index and the
-- value tables use. A shift by a computed amount takes the amount modulo 64, as a build without
-- overflow checks does; callers keep it below 64.
mod Defs
mod Bits
mod Shift
mod Mask
unfoldable pub use Defs.*
pub use Bits.{bit_or_fields, bit_and_mask, bit_and_bit}
pub use Shift.*
unfoldable pub use Mask.*
