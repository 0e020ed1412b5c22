-- ===== src/Storage/Record/Size.antt =====
-- The size of an encoded record against `serialized_size` of storage/src/record.rs.
use gaffa.Prelude.{ℕ, ◌+◌, ◌%◌, ◌^◌, ◌≡◌, ap, sym, ◌∙◌, ◌++◌, arith, length, length-append}
use gaffa.Prelude.Bytes.{Bytes, to_be, length-to_be}
use gaffa.Common.Error.{ok, ok_inj}
use gaffa.Storage.Compression.{Codecs, compress}
use gaffa.Storage.Record.{DiskRecord, key_size, payload, frame, encode, serialized_size}
use gaffa.Storage.Record.RoundTrip.{length-payload, encode-frame}

pub length-frame :
    (lib : Codecs) (r : DiskRecord) (value : Bytes)
    → length (frame lib r value) ≡ 33 + key_size r.key + length value
unfolding frame
length-frame lib r value =
    let size : ℕ = (4 + 1 + 8 + 4 + key_size r.key + 4 + length value) % 2 ^ 32 in
    let sum : ℕ = lib.crc32 (payload r value) in
    omega (
      arith,
      length-append (to_be 8 r.offset) (to_be 4 size ++ (to_be 4 sum ++ payload r value)),
      length-append (to_be 4 size) (to_be 4 sum ++ payload r value),
      length-append (to_be 4 sum) (payload r value),
      length-to_be 8 r.offset,
      length-to_be 4 size,
      length-to_be 4 sum,
      length-payload r value,
    )

-- Where the value is compressed and the record encoded without an error, the bytes that `encode`
-- writes are as many as `serialized_size` says with the size of the compressed value in place of
-- the value's.
pub length-encode :
    (lib : Codecs) (r : DiskRecord) (value bytes : Bytes)
    → compress lib r.value r.compression ≡ ok value
    → encode lib r ≡ ok bytes
    → length bytes + length r.value ≡ serialized_size r + length value
unfolding serialized_size
length-encode lib r value bytes hc he =
    omega
      (arith, length-frame lib r value, ap length (ok_inj (sym (encode-frame lib r value hc) ∙ he)))
