-- ===== src/Storage/Record.antt =====
-- storage/src/record.rs: the on-disk record.
pub mod RoundTrip
pub mod Damage
pub mod Size
use gaffa.Prelude.{
  ℕ, ◌+◌, ◌-◌, ◌%◌, ◌^◌, ◌<>◌, String, Bool, Option, none, some, ◌∷◌, ◌++◌, length, ltb, ◌==◌,
  if◌then◌else◌,
}
use gaffa.Prelude.Bytes.{Bytes, to_be, from_be, read_exact}
use gaffa.Prelude.Decimal.{show}
use gaffa.Common.Error.{Result, ok, err, panic, storage, corruption, ◌>>=◌}
use gaffa.Protocol.Messages.{Message}
use gaffa.Storage.Compression.{CompressionType, Codecs, from_u8, to_u8, compress, decompress}

pub record DiskRecord : Type 0 where
  pub offset : ℕ
  pub timestamp : ℕ
  pub key : Option Bytes
  pub value : Bytes
  pub compression : CompressionType

unfoldable pub new : ℕ → Message → DiskRecord
new offset message = record {
  offset = offset;
  timestamp = message.timestamp;
  key = message.key;
  value = message.value;
  compression = CompressionType.none;
}

unfoldable pub new_with_compression : ℕ → Message → CompressionType → DiskRecord
new_with_compression offset message compression = record {
  offset = offset;
  timestamp = message.timestamp;
  key = message.key;
  value = message.value;
  compression = compression;
}

unfoldable pub to_message : DiskRecord → Message
to_message r = record { key = r.key; value = r.value; timestamp = r.timestamp }

-- `key.len()` where there is a key.
abbrev pub key_size : Option Bytes → ℕ
key_size none = 0
key_size (some key) = length key

unfoldable pub serialized_size : DiskRecord → ℕ
serialized_size r = 8 + 4 + 4 + 1 + 8 + 4 + key_size r.key + 4 + length r.value

-- The key's length as an i32 and the key; -1 stands for no key.
unfoldable pub key_bytes : Option Bytes → Bytes
key_bytes none = to_be 4 (2 ^ 32 - 1)
key_bytes (some key) = to_be 4 (length key % 2 ^ 32) ++ key

-- What stands behind the checksum: `data_to_checksum`.
unfoldable pub payload : DiskRecord → Bytes → Bytes
unfolding key_bytes
payload r value =
    to_u8 r.compression
    ∷ (to_be 8 r.timestamp ++ (key_bytes r.key ++ (to_be 4 (length value % 2 ^ 32) ++ value)))

-- `read_exact` with the error that the source maps it to.
unfoldable pub read_field : String → ℕ → Bytes → Result (Bytes × Bytes)
read_field what k bs = elim (read_exact k bs) [
  | none ↦ err (storage ("Failed to read " <> what <> ": failed to fill whole buffer"))
  | some p ↦ ok p
]

-- A four-byte i32 at or above zero has its top bit clear.
abbrev pub is_key_length : ℕ → Bool
is_key_length n = ltb n (2 ^ 31)

unfoldable pub read_key : ℕ → Bytes → Result (Option Bytes × Bytes)
read_key key_len bs =
    if is_key_length key_len
    then (do (key, rest) ← read_field "key" key_len bs; ok (some key, rest))
    else ok (none, bs)

-- `length - 4` underflows below 4: the subtraction panics, or the buffer's capacity overflows.
unfoldable pub data_length : ℕ → Result ℕ
data_length n = if ltb n 4 then panic else ok (n - 4)

module _ (lib : Codecs) where
  open lib use {crc32}

  -- The frame around a compressed value.
  unfoldable pub frame : DiskRecord → Bytes → Bytes
  frame r value =
      let body_size = 4 + 1 + 8 + 4 + key_size r.key + 4 + length value in
      let checked = payload r value in
      to_be 8 r.offset ++ (to_be 4 (body_size % 2 ^ 32) ++ (to_be 4 (crc32 checked) ++ checked))

  unfoldable pub encode : DiskRecord → Result Bytes
  unfolding frame
  encode r = do value ← compress lib r.value r.compression; ok (frame r value)

  -- The fields behind the checksum.
  unfoldable pub parse_payload : ℕ → Bytes → Result DiskRecord
  parse_payload offset bs = do
    (compression_buf, r1) ← read_field "compression type" 1 bs
    compression ← from_u8 (from_be compression_buf)
    (timestamp_buf, r2) ← read_field "timestamp" 8 r1
    (key_len_buf, r3) ← read_field "key length" 4 r2
    (key, r4) ← read_key (from_be key_len_buf) r3
    (value_len_buf, r5) ← read_field "value length" 4 r4
    (value_data, r6) ← read_field "value" (from_be value_len_buf) r5
    value ← decompress lib value_data compression
    ok (record {
      offset = offset;
      timestamp = from_be timestamp_buf;
      key = key;
      value = value;
      compression = compression;
    })

  unfoldable pub check_crc : ℕ → ℕ → Bytes → Result (Unit {0})
  check_crc offset expected bytes =
      if crc32 bytes == expected
      then ok tt
      else err (
          corruption (
            "CRC mismatch at offset "
            <> show offset
            <> ": expected "
            <> show expected
            <> ", got "
            <> show (crc32 bytes)))

  -- The record at the head of the reader, and what is left of the reader.
  unfoldable pub decode : Bytes → Result (DiskRecord × Bytes)
  decode reader = do
    (offset_buf, r1) ← read_field "offset" 8 reader
    (length_buf, r2) ← read_field "length" 4 r1
    (crc_buf, r3) ← read_field "CRC" 4 r2
    n ← data_length (from_be length_buf)
    (bytes, rest) ← read_field "record data" n r3
    checked ← check_crc (from_be offset_buf) (from_be crc_buf) bytes
    r ← parse_payload (from_be offset_buf) bytes
    ok (r, rest)
