-- ===== src/Storage/Examples.antt =====
-- Concrete runs of the record format, the index and the retention of storage/src.
pub mod Fixtures
pub mod Logs
mod Topics
use gaffa.Prelude.{
  ℕ, ◌≤◌, ◌<◌, ◌^◌, ◌+◌, ◌*◌, ap, All, ◌≡◌, ◌≢◌, refl, none, some, List, [], ◌∷◌, ◌++◌, String,
  arith, ◌⊎◌, inl, inr, length, map, take, drop, zero, suc,
}
use gaffa.Prelude.Bytes.{Bytes, to_be}
use gaffa.Common.Error.{Result, ok, err, corruption, storage}
use gaffa.Storage.Compression
use gaffa.Storage.Compression.{CompressionType, to_u8, compress, decompress, decompress-compress}
use gaffa.Storage.Record.{DiskRecord, encode, decode, frame, key_bytes, payload, serialized_size}
use gaffa.Storage.Record.RoundTrip.{decode-encode}
use gaffa.Storage.Record.Damage.{decode_corrupt, decode_torn}
use gaffa.Storage.Record.Size.{length-encode}
use gaffa.Storage.Segment.Log.{record_bytes, encode-record_bytes}
use gaffa.Storage.Index
use gaffa.Storage.Index.{lookup}
use gaffa.Storage.Index.Entries
use gaffa.Storage.Index.Entries.{IsEntry, entries_bytes, create-Holds, append-Holds_entries}
use gaffa.Storage.Index.Lookup.{
  IsSorted, Splits, offset_at, position_before, IsSorted-append, lookup-Splits,
}
use gaffa.Storage.Index.Reopen.{open_existing-Reads, append-open_existing}
use gaffa.Storage.Retention.{
  RetentionConfig, RetentionPolicy, SegmentMetadata, from_secs, segments_to_delete,
}
use gaffa.Storage.Retention.Deletion.{Cuts, bytes_of, segments_to_delete-Cuts, kept_size}
use gaffa.Storage.Examples.Fixtures.{plain, plain-CodecLaws, order, order-Fits}

decode-encode_example :
    (bytes : Bytes) × (encode plain order ≡ ok bytes)
    × (decode plain (bytes ++ 9 ∷ []) ≡ ok (order, 9 ∷ []))
decode-encode_example =
    decode-encode plain plain-CodecLaws order (7 ∷ 8 ∷ []) (9 ∷ []) (unfold compress in refl)
      order-Fits

decode_corrupt_example :
    (text : String) × (decode plain
        (to_be 8 5 ++ (to_be 4 6 ++ (to_be 4 4 ++ ((1 ∷ 2 ∷ []) ++ []))))
      ≡ err (corruption text))
decode_corrupt_example =
    decode_corrupt plain 5 4 (1 ∷ 2 ∷ []) [] (omega arith) (omega arith) (omega arith)
      (λ e. omega (arith, e))

cut : record_bytes plain order ≡ take 35 (record_bytes plain order) ++ 8 ∷ []
unfolding record_bytes encode frame payload key_bytes to_be to_u8 compress
cut = refl

-- The last byte of the record is missing.
decode_torn_example :
    (text : String) × (decode plain (take 35 (record_bytes plain order)) ≡ err (storage text))
decode_torn_example =
    decode_torn plain order (7 ∷ 8 ∷ []) (record_bytes plain order)
      (take 35 (record_bytes plain order)) [] 8 (unfold compress in refl) order-Fits
      (encode-record_bytes plain order (7 ∷ 8 ∷ [], unfold compress in refl, order-Fits)) cut

lookup-Splits_example :
    (r : ℕ) × Splits ((5, 0) ∷ (9, 70) ∷ []) 7 r
    × (lookup (Index.open_existing (entries_bytes ((5, 0) ∷ (9, 70) ∷ []))) 7
        ≡ ok (position_before ((5, 0) ∷ (9, 70) ∷ []) r))
lookup-Splits_example =
    lookup-Splits (Index.open_existing (entries_bytes ((5, 0) ∷ (9, 70) ∷ [])))
      ((5, 0) ∷ (9, 70) ∷ []) 7 (open_existing-Reads ((5, 0) ∷ (9, 70) ∷ []) entries_valid)
      (IsSorted-append ((5, 0) ∷ []) (9, 70) one_sorted last)
  where
    entries_valid : All IsEntry ((5, 0) ∷ (9, 70) ∷ [])
    entries_valid = ((omega arith, omega arith), ((omega arith, omega arith), tt))

    one_sorted : IsSorted ((5, 0) ∷ [])
    one_sorted i j h k = omega (arith, ap (offset_at ((5, 0) ∷ [])) {x = i} {y = j} (omega arith))

    last : (i : ℕ) → i < 1 → offset_at ((5, 0) ∷ []) i ≤ 9
    last i h = omega (arith, ap (offset_at ((5, 0) ∷ [])) {x = i} {y = 0} (omega arith))

append-open_existing_example :
    let idx = Index.append (Index.open_existing (entries_bytes ((5, 0) ∷ []))) 9 70 in
    (idx.file.contents ≡ entries_bytes ((9, 70) ∷ []))
    × (idx.size ≡ 2)
    × (length idx.file.contents < 16 * idx.size)
append-open_existing_example = append-open_existing (5, 0) [] 9 70

abbrev two_hours : RetentionConfig
two_hours = record { policy = RetentionPolicy.time (from_secs 7200); min_segments = 1 }

abbrev segments : List SegmentMetadata
segments =
    record { base_offset = 0; size = 600; created_at = 1000 }
    ∷ record { base_offset = 40; size = 600; created_at = 8000 }
    ∷ []

segments_to_delete-Cuts_example :
    (k : ℕ) × (segments_to_delete two_hours (λ i. 10000 + i) segments
      ≡ map (λ s. s.base_offset) (take k segments))
    × Cuts two_hours (λ i. 10000 + i) segments k
segments_to_delete-Cuts_example =
    segments_to_delete-Cuts two_hours (λ i. 10000 + i) segments (omega arith)
