-- ===== src/Storage/Segment/Recovery.antt =====
-- `open` of storage/src/segment.rs on the files of a segment: the records can be read again.
use gaffa.Prelude.{
  ℕ, suc, ◌+◌, ◌^◌, ◌<◌, ◌≡◌, refl, sym, ap, ◌∙◌, none, some, List, [], ◌∷◌, arith, length, All,
  add64,
}
use mathlib.Core.Path.{subst}
use gaffa.Prelude.Bytes.{Bytes}
use gaffa.Common.Error.{ok}
use gaffa.Storage.Compression.{Codecs, CodecLaws}
use gaffa.Storage.Record.{DiskRecord}
use gaffa.Storage.Index
use gaffa.Storage.Index.{mapped}
use gaffa.Storage.Index.Entries
use gaffa.Storage.Index.Entries.{Entry, entries_bytes, mapped_nonempty}
use gaffa.Storage.Index.Reopen.{open_existing-Reads}
use gaffa.Storage.Segment.{
  LogSegment, SegmentConfig, open_existing, scan_for_next_offset, scan_loop, read,
}
use gaffa.Storage.Segment.Log.{IsFrom, IsStored, log_bytes, length-log_bytes}
use gaffa.Storage.Segment.Scanning.{scan_loop-log_bytes, scan_loop_cons}
use gaffa.Storage.Segment.Reading.{Reads, read-record_at, record_at}
use gaffa.Storage.Segment.Appending.Whole.{Holds}

module _ (lib : Codecs) (laws : CodecLaws lib) where
  scan_nonempty :
      (bs : Bytes) (base last : ℕ)
      → 0 < length bs
      → scan_loop lib (suc (length bs)) bs base ≡ ok last
      → scan_for_next_offset lib bs base ≡ ok (add64 last 1)
  unfolding scan_for_next_offset
  scan_nonempty bs base last h e = ground arith

  -- The scan of a log finds the offset behind its last record.
  pub scan_for_next_offset-log_bytes :
      (rs : List DiskRecord) (base : ℕ)
      → All (IsStored lib) rs
      → IsFrom base rs
      → base + length rs < 2 ^ 64
      → scan_for_next_offset lib (log_bytes lib rs) base ≡ ok (base + length rs)
  scan_for_next_offset-log_bytes [] base vs f h =
      unfold scan_for_next_offset in ap ok {x = base} {y = base + 0} (omega arith)
  scan_for_next_offset-log_bytes (r ∷ rs) base (v, vs) (f, fs) h =
      let count = length-log_bytes lib (r ∷ rs) (v, vs) in
      scan_nonempty (log_bytes lib (r ∷ rs)) base (base + length rs) (omega (arith, count)) (
        scan_loop_cons lib laws r rs v _ base
        ∙ ap (scan_loop lib (length (log_bytes lib (r ∷ rs))) (log_bytes lib rs)) f
        ∙ scan_loop-log_bytes lib laws rs base _ vs fs (omega (arith, count)))
      ∙ ap ok {x = add64 (base + length rs) 1} {y = base + suc (length rs)} (omega arith)

  -- The state that `open` builds, once the scan is done.
  reopened : ℕ → Bytes → Bytes → SegmentConfig → ℕ → LogSegment
  reopened base log index_bytes c next = record {
    base_offset = base;
    log_file = record { contents = log; cursor = 0 };
    mmap = mapped log none;
    index = Index.open_existing index_bytes;
    size = length log;
    next_offset = next;
    config = c;
    records_since_index = 0;
  }

  open_existing_run :
      (base : ℕ) (log index_bytes : Bytes) (c : SegmentConfig) (next : ℕ)
      → scan_for_next_offset lib log base ≡ ok next
      → open_existing lib base (some log) (some index_bytes) c
        ≡ ok (reopened base log index_bytes c next)
  unfolding open_existing reopened
  open_existing_run base log index_bytes c next e = rw (e, open_existing)

  Reads-reopened :
      (s : LogSegment) (rs : List DiskRecord) (c : SegmentConfig)
      → Holds lib s rs
      → Reads lib
          (reopened s.base_offset s.log_file.contents s.index.file.contents c
            (s.base_offset + length rs))
          rs
  unfolding reopened
  Reads-reopened s rs c h = record {
    stored = h.stored;
    from = h.from;
    next = refl;
    mmap = λ p.
        mapped_nonempty s.log_file.contents none
          (omega (arith, ap length h.contents, length-log_bytes lib rs h.stored))
        ∙ ap some h.contents;
    entries = h.entries;
    marks = h.marks;
    sorted = h.sorted;
    index =
        subst (λ bs. Entries.Reads (Index.open_existing bs) h.entries) (sym h.index.contents)
          (open_existing-Reads h.entries h.index.valid);
  }

  -- After a restart, `open` on the files of a segment that stands for a list of records succeeds
  -- with the same next offset, and every offset reads as the record of the list there, or as
  -- `InvalidOffset` outside of it, if the offsets stay below 2 ^ 64 and the codecs keep their laws.
  pub open_existing-Holds :
      (s : LogSegment) (rs : List DiskRecord) (c : SegmentConfig)
      → Holds lib s rs
      → s.base_offset + length rs < 2 ^ 64
      → (s' : LogSegment) × (open_existing lib s.base_offset
            (some s.log_file.contents)
            (some s.index.file.contents)
            c
          ≡ ok s')
        × (s'.next_offset ≡ s.next_offset)
        × ((offset : ℕ) → read lib s' offset ≡ record_at s.base_offset rs offset)
  open_existing-Holds s rs c h small =
      let next : ℕ = s.base_offset + length rs in
      let s' : LogSegment =
        reopened s.base_offset s.log_file.contents s.index.file.contents c next in
      (
        s',
        open_existing_run s.base_offset s.log_file.contents s.index.file.contents c next (
            ap (λ bs. scan_for_next_offset lib bs s.base_offset) h.contents
            ∙ scan_for_next_offset-log_bytes rs s.base_offset h.stored h.from small),
        unfold reopened in sym h.next,
        unfold reopened in read-record_at lib laws s' rs (Reads-reopened s rs c h),
      )
