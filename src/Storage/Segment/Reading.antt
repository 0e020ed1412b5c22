-- ===== src/Storage/Segment/Reading.antt =====
-- `read` and `read_batch` of storage/src/segment.rs against the list of the segment's records.
pub mod Marks
use gaffa.Prelude.{
  ℕ, zero, suc, ◌+◌, ◌-◌, ◌≤◌, ◌<◌, ◌≡◌, refl, sym, ap, ◌∙◌, false, Option, none, some, List, [],
  ◌∷◌, arith, length, get_elem?, get_elem?_below, get_elem?_above, get_elem?-drop, take, drop,
  drop-drop, drop_all, take_nil, take-append-drop, drop-append_length, All, All-drop, All-get_elem?,
  length-append, le_cases, ◌⊎◌, inl, inr, ltb, if◌then◌else◌,
}
use mathlib.Core.Path.{subst}
use gaffa.Prelude.Bytes.{Bytes}
use gaffa.Common.Error.{Result, ok, err, invalid_offset}
use gaffa.Storage.Compression.{Codecs, CodecLaws}
use gaffa.Storage.Record.{DiskRecord}
use gaffa.Storage.Index.{lookup}
use gaffa.Storage.Index.Entries
use gaffa.Storage.Index.Entries.{Entry}
use gaffa.Storage.Index.Lookup.{
  IsSorted, Splits, position_before, lookup-Splits, get_elem?-offset_at, get_elem?-position_before,
}
use gaffa.Storage.Segment.{LogSegment, slice_from_index, read, read_loop, read_batch, batch_loop}
use gaffa.Storage.Segment.Log.{IsFrom, IsStored, log_bytes, log_bytes-append, length-log_bytes}
use gaffa.Storage.Segment.Scanning.{read_loop-log_bytes, batch_loop-log_bytes}
pub use Marks.{IsMark, Reads, IsFrom-drop}
use Marks.{
  start_of_scan, read_below, read_past, read_batch_below, read_batch_past, read_scan,
  read_batch_scan,
}

-- What a reader of the list sees at an offset.
abbrev pub record_at : ℕ → List DiskRecord → ℕ → Result DiskRecord
record_at base rs offset =
    if ltb offset base then err (invalid_offset offset) else (elim (get_elem? rs (offset - base)) [
      | none ↦ err (invalid_offset offset)
      | some r ↦ ok r
    ])

-- What a reader of the list sees from an offset on, `max` records at most.
abbrev pub records_from : ℕ → List DiskRecord → ℕ → ℕ → Result (List DiskRecord)
records_from base rs start max =
    if ltb start base then err (invalid_offset start) else ok (take max (drop (start - base) rs))

module _ (lib : Codecs) (laws : CodecLaws lib) (s : LogSegment) (rs : List DiskRecord)
    (h : Reads lib s rs) where
  module _ (offset : ℕ) (low : s.base_offset ≤ offset)
      (high : offset < s.base_offset + length rs) where
    -- The records from the start of the scan on.
    abbrev Scan : Type 0
    Scan =
        (k : ℕ) × (k ≤ length rs)
        × (s.base_offset + k ≤ offset)
        × (slice_from_index s (log_bytes lib rs) offset ≡ ok (log_bytes lib (drop k rs)))

    scan_fuel : (k : ℕ) → length (drop k rs) ≤ suc (length (log_bytes lib (drop k rs)))
    scan_fuel k =
        omega (arith, length-log_bytes lib (drop k rs) (All-drop (IsStored lib) k rs h.stored))

    read_inside :
        (r : DiskRecord) → get_elem? rs (offset - s.base_offset) ≡ some r → read lib s offset ≡ ok r
    read_inside r g =
        let (k, inside, at, e) = start_of_scan lib laws s rs h offset low in
        read_scan lib s offset (log_bytes lib rs) (log_bytes lib (drop k rs)) low
          (omega (arith, h.next)) (h.mmap (omega arith)) e
        ∙ read_loop-log_bytes lib laws (drop k rs) (s.base_offset + k) _ offset r
            (All-drop (IsStored lib) k rs h.stored) (IsFrom-drop k s.base_offset rs h.from)
            (scan_fuel k) at
            (get_elem?-drop k (offset - (s.base_offset + k)) rs
              ∙ ap (get_elem? rs) {x = k + (offset - (s.base_offset + k))}
                  {y = offset - s.base_offset} (omega arith)
              ∙ g)

    read_batch_inside :
        (max : ℕ) → read_batch lib s offset max ≡ ok (take max (drop (offset - s.base_offset) rs))
    read_batch_inside max =
        let (k, inside, at, e) = start_of_scan lib laws s rs h offset low in
        read_batch_scan lib s offset (log_bytes lib rs) (log_bytes lib (drop k rs)) low
          (omega (arith, h.next)) max (h.mmap (omega arith)) e
        ∙ batch_loop-log_bytes lib laws (drop k rs) (s.base_offset + k) _ offset max false []
            (All-drop (IsStored lib) k rs h.stored) (IsFrom-drop k s.base_offset rs h.from)
            (scan_fuel k)
        ∙ ap (λ n. ok (take n (drop (offset - (s.base_offset + k)) (drop k rs)))) {x = max - 0}
            {y = max} (omega arith)
        ∙ ap (λ l. ok (take max l)) (drop-drop (offset - (s.base_offset + k)) k rs)
        ∙ ap (λ n. ok (take max (drop n rs))) {x = k + (offset - (s.base_offset + k))}
            {y = offset - s.base_offset} (omega arith)

  module _ (offset : ℕ) where
    record_at_below :
        offset < s.base_offset → record_at s.base_offset rs offset ≡ err (invalid_offset offset)
    record_at_below b = ground arith

    record_at_past :
        s.base_offset + length rs ≤ offset
        → record_at s.base_offset rs offset ≡ err (invalid_offset offset)
    record_at_past p = ground (arith, get_elem?_above rs (offset - s.base_offset) (omega arith))

    record_at_inside :
        (r : DiskRecord)
        → s.base_offset ≤ offset
        → get_elem? rs (offset - s.base_offset) ≡ some r
        → record_at s.base_offset rs offset ≡ ok r
    record_at_inside r low g = ground arith

    module _ (max : ℕ) where
      records_from_below :
          offset < s.base_offset
          → records_from s.base_offset rs offset max ≡ err (invalid_offset offset)
      records_from_below b = ground arith

      records_from_inside :
          s.base_offset ≤ offset
          → records_from s.base_offset rs offset max
            ≡ ok (take max (drop (offset - s.base_offset) rs))
      records_from_inside low = ground arith

      records_from_past :
          s.base_offset + length rs ≤ offset → records_from s.base_offset rs offset max ≡ ok []
      records_from_past p =
          records_from_inside (omega arith)
          ∙ ap (λ l. ok (take max l)) (drop_all (offset - s.base_offset) rs (omega arith))
          ∙ ap ok (take_nil max)

  -- On a segment that can be read as a list of records, `read` returns the record of the list at
  -- the offset, and `InvalidOffset` below the base and from the next offset on, if the codecs keep
  -- their laws.
  pub read-record_at : (offset : ℕ) → read lib s offset ≡ record_at s.base_offset rs offset
  read-record_at offset = elim (le_cases s.base_offset offset) [
    | inr below ↦ read_below lib s offset below ∙ sym (record_at_below offset below)
    | inl low ↦ elim (le_cases (s.base_offset + length rs) offset) [
      | inl past ↦
          read_past lib s offset low (omega (arith, h.next)) ∙ sym (record_at_past offset past)
      | inr high ↦
          let (r, g) = get_elem?_below rs (offset - s.base_offset) (omega arith) in
          read_inside offset low high r g ∙ sym (record_at_inside offset r low g)
    ]
  ]

  -- On a segment that can be read as a list of records, `read_batch` returns the records of the
  -- list from the offset on, up to the maximum, and `InvalidOffset` below the base, if the codecs
  -- keep their laws.
  pub read_batch-records_from :
      (start max : ℕ) → read_batch lib s start max ≡ records_from s.base_offset rs start max
  read_batch-records_from start max = elim (le_cases s.base_offset start) [
    | inr below ↦ read_batch_below lib s start max below ∙ sym (records_from_below start max below)
    | inl low ↦ elim (le_cases (s.base_offset + length rs) start) [
      | inl past ↦
          read_batch_past lib s start max low (omega (arith, h.next))
          ∙ sym (records_from_past start max past)
      | inr high ↦ read_batch_inside start low high max ∙ sym (records_from_inside start max low)
    ]
  ]
