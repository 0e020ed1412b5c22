-- ===== src/Storage/Segment/Log.antt =====
-- The abstract view of a segment: the list of its records, and the bytes that the list stands for.
use gaffa.Prelude.{
  ℕ, ◌+◌, ◌≤◌, String, ◌≡◌, refl, sym, ap, ◌∙◌, List, [], ◌∷◌, ◌++◌, append_assoc, arith, length,
  All, length-append,
}
use gaffa.Prelude.Bytes.{Bytes}
use gaffa.Common.Error.{ok, err, panic, storage}
use gaffa.Storage.Compression.{Codecs, CodecLaws, compress, decompress-compress}
use gaffa.Storage.Record.{DiskRecord, payload, frame, encode, decode}
use gaffa.Storage.Record.RoundTrip.{Fits, decode-frame, encode-frame}
use gaffa.Storage.Record.Size.{length-frame}
use gaffa.Storage.Record.Damage.{read_field_short}

-- Records in a row: the first has offset `n`, each next one more.
abbrev pub IsFrom : ℕ → List DiskRecord → Type 0
IsFrom n [] = Unit
IsFrom n (r ∷ rs) = (r.offset ≡ n) × IsFrom (n + 1) rs

module _ (lib : Codecs) where
  -- A record that `encode` can write.
  abbrev pub IsStored : DiskRecord → Type 0
  IsStored r = (value : Bytes) × (compress lib r.value r.compression ≡ ok value) × Fits r value

  unfoldable pub record_bytes : DiskRecord → Bytes
  record_bytes r = elim (encode lib r) [ ok bs ↦ bs | err e ↦ [] | panic ↦ [] ]

  abbrev pub log_bytes : List DiskRecord → Bytes
  log_bytes [] = []
  log_bytes (r ∷ rs) = record_bytes r ++ log_bytes rs

  record_bytes-frame :
      (r : DiskRecord) (value : Bytes)
      → compress lib r.value r.compression ≡ ok value
      → record_bytes r ≡ frame lib r value
  unfolding record_bytes
  record_bytes-frame r value h = rw (encode-frame lib r value h, record_bytes)

  pub encode-record_bytes : (r : DiskRecord) → IsStored r → encode lib r ≡ ok (record_bytes r)
  encode-record_bytes r (value, h, fits) =
      encode-frame lib r value h ∙ ap ok (sym (record_bytes-frame r value h))

  pub length-record_bytes : (r : DiskRecord) → IsStored r → 1 ≤ length (record_bytes r)
  length-record_bytes r (value, h, fits) =
      omega (arith, ap length (record_bytes-frame r value h), length-frame lib r value)

  pub log_bytes-append :
      (rs more : List DiskRecord) → log_bytes (rs ++ more) ≡ log_bytes rs ++ log_bytes more
  log_bytes-append [] more = refl
  log_bytes-append (r ∷ rs) more =
      rw (log_bytes-append rs more)
        (sym (append_assoc (record_bytes r) (log_bytes rs) (log_bytes more)))

  -- The bytes of a log have at least as many entries as the log has records.
  pub length-log_bytes :
      (rs : List DiskRecord) → All IsStored rs → length rs ≤ length (log_bytes rs)
  length-log_bytes [] v = omega arith
  length-log_bytes (r ∷ rs) (v, vs) = omega (
    arith,
    length-append (record_bytes r) (log_bytes rs),
    length-record_bytes r v,
    length-log_bytes rs vs,
  )

  pub decode_end : (text : String) × (decode lib [] ≡ err (storage text))
  unfolding decode
  decode_end = let (text, p) = read_field_short "offset" 8 [] (omega arith) in (text, rw p)

  pub decode-record_bytes :
      CodecLaws lib
      → (r : DiskRecord) (rest : Bytes) → IsStored r
      → decode lib (record_bytes r ++ rest) ≡ ok (r, rest)
  decode-record_bytes laws r rest (value, h, fits) = rw (record_bytes-frame r value h) (
      decode-frame lib r value fits rest (laws.crc32_bound (payload r value))
        (decompress-compress lib laws r.value value r.compression h))
