-- ===== src/Storage/Compression.antt =====
-- storage/src/compression.rs. The compressors of flate2, snap and lz4_flex and the checksum of
-- crc32fast are not in the repository: they are the parameter `Codecs`, and `CodecLaws` says what
-- the storage relies on.
use gaffa.Prelude.{ℕ, zero, suc, ◌<◌, ◌^◌, ◌<>◌, String, ◌≡◌, refl, arith}
use gaffa.Prelude.Bytes.{Bytes}
use gaffa.Prelude.Decimal.{show}
use gaffa.Common.Error.{Result, ok, err, panic, compression, invalid_message}

pub data CompressionType : Type 0 where
  none gzip snappy lz4 : CompressionType

-- `from_u8`
unfoldable pub from_u8 : ℕ → Result CompressionType
from_u8 zero = ok none
from_u8 (suc zero) = ok gzip
from_u8 (suc (suc zero)) = ok snappy
from_u8 (suc (suc (suc zero))) = ok lz4
from_u8 value = err (invalid_message ("Unknown compression type: " <> show value))

unfoldable pub to_u8 : CompressionType → ℕ
to_u8 none = 0
to_u8 gzip = 1
to_u8 snappy = 2
to_u8 lz4 = 3

pub from_u8-to_u8 : (c : CompressionType) → from_u8 (to_u8 c) ≡ ok c
unfolding from_u8 to_u8
from_u8-to_u8 none = refl
from_u8-to_u8 gzip = refl
from_u8-to_u8 snappy = refl
from_u8-to_u8 lz4 = refl

-- What a call of a compression library ends with: its output, or the text of its error.
pub data Outcome : Type 0 where
  output : Bytes → Outcome
  failed : String → Outcome

pub record Codecs : Type 0 where
  pub crc32 : Bytes → ℕ
  pub gzip_encode : Bytes → Outcome
  pub gzip_decode : Bytes → Outcome
  pub snappy_encode : Bytes → Outcome
  pub snappy_decode : Bytes → Outcome
  pub lz4_encode : Bytes → Bytes
  pub lz4_decode : Bytes → Outcome

-- A checksum has 32 bits, and a decoder gives back what its encoder was given.
pub record CodecLaws (lib : Codecs) : Type 0 where
  pub crc32_bound : (bs : Bytes) → lib.crc32 bs < 2 ^ 32
  pub gzip_inverse :
      (bs out : Bytes) → lib.gzip_encode bs ≡ output out → lib.gzip_decode out ≡ output bs
  pub snappy_inverse :
      (bs out : Bytes) → lib.snappy_encode bs ≡ output out → lib.snappy_decode out ≡ output bs
  pub lz4_inverse : (bs : Bytes) → lib.lz4_decode (lib.lz4_encode bs) ≡ output bs

-- `map_err` into `GaffaError::Compression`, behind a fixed text.
or_compression : String → Outcome → Result Bytes
or_compression what (output bs) = ok bs
or_compression what (failed e) = err (compression (what <> e))

module _ (lib : Codecs) where
  unfoldable pub compress : Bytes → CompressionType → Result Bytes
  unfolding or_compression
  compress bytes none = ok bytes
  compress bytes gzip = or_compression "Gzip compression failed: " (lib.gzip_encode bytes)
  compress bytes snappy = or_compression "Snappy compression failed: " (lib.snappy_encode bytes)
  compress bytes lz4 = ok (lib.lz4_encode bytes)

  unfoldable pub decompress : Bytes → CompressionType → Result Bytes
  unfolding or_compression
  decompress bytes none = ok bytes
  decompress bytes gzip = or_compression "Gzip decompression failed: " (lib.gzip_decode bytes)
  decompress bytes snappy = or_compression "Snappy decompression failed: " (lib.snappy_decode bytes)
  decompress bytes lz4 = or_compression "LZ4 decompression failed: " (lib.lz4_decode bytes)

  -- What was compressed is decompressed to the same bytes, with every type, if the codecs keep
  -- their laws.
  pub decompress-compress :
      CodecLaws lib
      → (bytes out : Bytes) (c : CompressionType) → compress bytes c ≡ ok out
      → decompress out c ≡ ok bytes
  unfolding compress decompress
  decompress-compress laws bytes out none h = cc
  decompress-compress laws bytes out gzip h = ground (arith, laws.gzip_inverse bytes out)
  decompress-compress laws bytes out snappy h = ground (arith, laws.snappy_inverse bytes out)
  decompress-compress laws bytes out lz4 h = ground (arith, laws.lz4_inverse bytes)

  -- No compressor makes the thread panic.
  pub compress-ne-panic : (bytes : Bytes) (c : CompressionType) → compress bytes c ≡ panic → ⊥
  unfolding compress
  compress-ne-panic bytes none h = cc
  compress-ne-panic bytes gzip h = ground arith
  compress-ne-panic bytes snappy h = ground arith
  compress-ne-panic bytes lz4 h = cc

  pub decompress-ne-panic : (bytes : Bytes) (c : CompressionType) → decompress bytes c ≡ panic → ⊥
  unfolding decompress
  decompress-ne-panic bytes none h = cc
  decompress-ne-panic bytes gzip h = ground arith
  decompress-ne-panic bytes snappy h = ground arith
  decompress-ne-panic bytes lz4 h = ground arith
