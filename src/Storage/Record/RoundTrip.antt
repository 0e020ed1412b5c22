-- ===== src/Storage/Record/RoundTrip.antt =====
-- The round trip of `encode` and `decode` of storage/src/record.rs.
use gaffa.Prelude.{
  ℕ, ◌+◌, ◌-◌, ◌%◌, ◌^◌, ◌≤◌, ◌<◌, String, ◌≡◌, refl, sym, Option, none, some, [], ◌∷◌, ◌++◌,
  append-nil, append_assoc, arith, length, length-append,
}
use gaffa.Prelude.Bytes.{Bytes, to_be, length-to_be, from_be-to_be, from_be_byte, read_exact-append}
use gaffa.Common.Error.{ok, ◌>>=◌}
use gaffa.Storage.Compression.{
  Codecs, CodecLaws, to_u8, compress, decompress, from_u8-to_u8, decompress-compress,
}
use gaffa.Storage.Record.{
  DiskRecord, key_size, key_bytes, payload, read_field, read_key, frame, encode, parse_payload,
  data_length, check_crc, decode,
}

pub read_field-append :
    (what : String) (xs ys : Bytes) (k : ℕ)
    → length xs ≡ k
    → read_field what k (xs ++ ys) ≡ ok (xs, ys)
unfolding read_field
read_field-append what xs ys k h = rw (read_exact-append xs ys k h, read_field)

read_field_all :
    (what : String) (xs : Bytes) (k : ℕ) → length xs ≡ k → read_field what k xs ≡ ok (xs, [])
read_field_all what xs k h = rw append-nil at (read_field-append what xs [] k h)

pub read_field-to_be :
    (what : String) (k n : ℕ) (rest : Bytes)
    → read_field what k (to_be k n ++ rest) ≡ ok (to_be k n, rest)
read_field-to_be what k n rest = read_field-append what (to_be k n) rest k (length-to_be k n)

-- The key's bytes as its length word and the key.
key_word : Option Bytes → ℕ
key_word none = 2 ^ 32 - 1
key_word (some key) = length key % 2 ^ 32

key_tail : Option Bytes → Bytes
key_tail none = []
key_tail (some key) = key

key_bytes-split : (key : Option Bytes) → key_bytes key ≡ to_be 4 (key_word key) ++ key_tail key
unfolding key_bytes key_word key_tail
key_bytes-split none = sym (append-nil (to_be 4 (2 ^ 32 - 1)))
key_bytes-split (some key) = refl

key_word_bound : (key : Option Bytes) → key_size key < 2 ^ 31 → key_word key < 256 ^ 4
unfolding key_word
key_word_bound none h = omega arith
key_word_bound (some key) h = omega arith

read_key_lem :
    (key : Option Bytes) (rest : Bytes)
    → key_size key < 2 ^ 31
    → read_key (key_word key) (key_tail key ++ rest) ≡ ok (key, rest)
unfolding read_key key_word key_tail
read_key_lem none rest h = refl
read_key_lem (some key) rest h =
    ground (arith, read_field-append "key" key rest (length key % 2 ^ 32) (omega arith))

-- What the fields of the format hold: the offset and the timestamp are u64, the key is shorter
-- than 2^31 bytes, and the whole body has a u32 for its length.
pub record Fits (r : DiskRecord) (value : Bytes) : Type 0 where
  pub offset : r.offset < 2 ^ 64
  pub timestamp : r.timestamp < 2 ^ 64
  pub key : key_size r.key < 2 ^ 31
  pub body : 25 + key_size r.key + length value < 2 ^ 32

length-key_bytes : (key : Option Bytes) → length (key_bytes key) ≡ 4 + key_size key
unfolding key_bytes
length-key_bytes none = length-to_be 4 (2 ^ 32 - 1)
length-key_bytes (some key) =
    omega (
      arith,
      length-append (to_be 4 (length key % 2 ^ 32)) key,
      length-to_be 4 (length key % 2 ^ 32),
    )

pub length-payload :
    (r : DiskRecord) (value : Bytes) → length (payload r value) ≡ 17 + key_size r.key + length value
unfolding payload
length-payload r value = omega (
  arith,
  length-append (to_be 8 r.timestamp)
      (key_bytes r.key ++ (to_be 4 (length value % 2 ^ 32) ++ value)),
  length-append (key_bytes r.key) (to_be 4 (length value % 2 ^ 32) ++ value),
  length-append (to_be 4 (length value % 2 ^ 32)) value,
  length-key_bytes r.key,
  length-to_be 8 r.timestamp,
  length-to_be 4 (length value % 2 ^ 32),
)

check_crc_same :
    (lib : Codecs) (offset : ℕ) (bs : Bytes) → check_crc lib offset (lib.crc32 bs) bs ≡ ok tt
unfolding check_crc
check_crc_same lib offset bs = ground arith

pub data_length_lem : (n : ℕ) → 4 ≤ n → data_length n ≡ ok (n - 4)
unfolding data_length
data_length_lem n h = ground arith

-- `decode` behind a well-formed header: what is left is the checksum and the payload.
pub decode-header :
    (lib : Codecs) (offset crc : ℕ) (bytes rest : Bytes)
    → offset < 2 ^ 64
    → crc < 2 ^ 32
    → 4 + length bytes < 2 ^ 32
    → decode lib
        (to_be 8 offset ++ (to_be 4 (4 + length bytes) ++ (to_be 4 crc ++ (bytes ++ rest))))
      ≡ (do
        checked ← check_crc lib offset crc bytes
        r ← parse_payload lib offset bytes
        ok (r, rest))
unfolding decode
decode-header lib offset crc bytes rest ho hc hb = rw (
  read_field-to_be "offset",
  read_field-to_be "length",
  read_field-to_be "CRC",
  from_be-to_be 4 (4 + length bytes) hb,
  data_length_lem (4 + length bytes) (omega arith),
  read_field-append "record data" bytes rest (4 + length bytes - 4) (omega arith),
  from_be-to_be 8 offset ho,
  from_be-to_be 4 crc hc,
)

module _ (lib : Codecs) (r : DiskRecord) (value : Bytes) (fits : Fits r value) where
  parse_payload-payload :
      decompress lib value r.compression ≡ ok r.value
      → parse_payload lib r.offset (payload r value) ≡ ok r
  unfolding parse_payload payload
  parse_payload-payload h =
      rw
        (
          read_field-append "compression type" (to_u8 r.compression ∷ [])
              (to_be 8 r.timestamp
                ++ (key_bytes r.key ++ (to_be 4 (length value % 2 ^ 32) ++ value)))
              1 refl,
          from_be_byte,
          from_u8-to_u8,
          read_field-to_be "timestamp",
          key_bytes-split,
          append_assoc,
          read_field-to_be "key length",
          from_be-to_be 4 (key_word r.key) (key_word_bound r.key fits.key),
          read_key_lem r.key (to_be 4 (length value % 2 ^ 32) ++ value) fits.key,
          read_field-to_be "value length",
          from_be-to_be 4 (length value % 2 ^ 32) (omega arith),
        )
        (rw (
          read_field_all "value" value (length value % 2 ^ 32) (omega (arith, fits.body)),
          from_be-to_be 8 r.timestamp fits.timestamp,
          h,
        ))

  -- The body length of the header is that of the checksum and the payload.
  pub frame_shape :
      frame lib r value
      ≡ to_be 8 r.offset
        ++ (to_be 4 (4 + length (payload r value))
            ++ (to_be 4 (lib.crc32 (payload r value)) ++ payload r value))
  unfolding frame
  frame_shape = rw size
    where
      size :
          (4 + 1 + 8 + 4 + key_size r.key + 4 + length value) % 2 ^ 32
          ≡ 4 + length (payload r value)
      size = omega (arith, length-payload r value, fits.body)

  -- A whole frame at the head of a reader decodes to its record, and leaves what follows it.
  pub decode-frame :
      (rest : Bytes)
      → lib.crc32 (payload r value) < 2 ^ 32
      → decompress lib value r.compression ≡ ok r.value
      → decode lib (frame lib r value ++ rest) ≡ ok (r, rest)
  decode-frame rest bound h = rw (
    frame_shape,
    append_assoc,
    append_assoc,
    append_assoc,
    decode-header lib r.offset (lib.crc32 (payload r value)) (payload r value) rest fits.offset
        bound (omega (arith, length-payload r value, fits.body)),
    check_crc_same lib r.offset (payload r value),
    parse_payload-payload h,
  )

pub encode-frame :
    (lib : Codecs) (r : DiskRecord) (value : Bytes)
    → compress lib r.value r.compression ≡ ok value
    → encode lib r ≡ ok (frame lib r value)
unfolding encode
encode-frame lib r value h = rw h

-- An encoded record at the head of a reader is decoded to the record, with the bytes behind it
-- left over: for every compression type and whatever follows, if the record's fields fit their
-- places in the format and the codecs keep their laws.
pub decode-encode :
    (lib : Codecs)
    → CodecLaws lib
    → (r : DiskRecord) (value rest : Bytes) → compress lib r.value r.compression ≡ ok value
    → Fits r value
    → (bytes : Bytes) × (encode lib r ≡ ok bytes) × (decode lib (bytes ++ rest) ≡ ok (r, rest))
decode-encode lib laws r value rest h fits = (
  frame lib r value,
  encode-frame lib r value h,
  decode-frame lib r value fits rest (laws.crc32_bound (payload r value))
      (decompress-compress lib laws r.value value r.compression h),
)
