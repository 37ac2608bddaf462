-- ===== src/Column/Compression.antt =====
-- src/compress.rs: how the values of a column are compressed. The codecs of lz4 and snappy are
-- parameters.
use blockchain_parity_db.Prelude.{ℕ, ◌^◌, ◌-◌, ◌==◌, if◌then◌else◌}
use blockchain_parity_db.Bytes.{Bytes}
use blockchain_parity_db.Outcome.{Result, ok, panic}

pub data CompressionType : Type 0 where
  no_compression lz4 snappy : CompressionType

-- `CompressionType as u8`
unfoldable pub as_u8 : CompressionType → ℕ
as_u8 no_compression = 0
as_u8 lz4 = 1
as_u8 snappy = 2

-- `From<u8>`
unfoldable pub from_u8 : ℕ → Result CompressionType
from_u8 n =
    if n == as_u8 no_compression
    then ok no_compression
    else if n == as_u8 lz4
    then ok lz4
    else if n == as_u8 snappy
    then ok snappy
    else panic

pub record Codec : Type 0 where
  pub encode : Bytes → Bytes
  pub decode : Bytes → Result Bytes

-- The libraries' codecs
pub record Codecs : Type 0 where
  pub lz4_codec : Codec
  pub snappy_codec : Codec

pub record Compress : Type 0 where
  pub kind : CompressionType
  pub threshold : ℕ

unfoldable pub new : CompressionType → ℕ → Compress
new kind threshold = record { kind = kind; threshold = threshold }

-- `NO_COMPRESSION`
abbrev pub no_compression_at_all : Compress
no_compression_at_all = record { kind = no_compression; threshold = 2 ^ 32 - 1 }

-- `impl NoCompression`
abbrev pub plain_codec : Codec
plain_codec = record { encode = λ buf. buf; decode = λ buf. ok buf }

-- `From<CompressionType> for Compressor`
unfoldable pub compressor : Codecs → CompressionType → Codec
compressor c no_compression = plain_codec
compressor c lz4 = c.lz4_codec
compressor c snappy = c.snappy_codec

unfoldable pub compress : Codecs → Compress → Bytes → Bytes
compress c z buf = let codec = compressor c z.kind in codec.encode buf

unfoldable pub decompress : Codecs → Compress → Bytes → Result Bytes
decompress c z buf = let codec = compressor c z.kind in codec.decode buf
