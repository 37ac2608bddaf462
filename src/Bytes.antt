-- ===== src/Bytes.antt =====
-- Bytes, least significant first and most significant first, as Rust's `to_le_bytes`,
-- `from_le_bytes`, `to_be_bytes` and `from_be_bytes` order them, and parts of a byte array: what
-- `&buf[i..i + n]` reads, and what `buf[i..i + n].copy_from_slice(src)` leaves.
mod Codec
mod Slices
mod Offsets
unfoldable pub use Codec.*
unfoldable pub use Slices.*
unfoldable pub use Offsets.*
