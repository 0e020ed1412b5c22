-- ===== src/Storage/Segment/Appending.antt =====
-- `append` of storage/src/segment.rs adds the messages' records to the log and keeps its index.
pub mod Rounds
pub mod Whole
use gaffa.Prelude.{
  ℕ, zero, suc, ◌+◌, ◌-◌, ◌^◌, ◌≤◌, ◌<◌, ◌≡◌, refl, sym, ap, ◌∙◌, Bool, true, false, Option, none,
  some, List, [], ◌∷◌, ◌++◌, append-nil, append_assoc, arith, length, get_elem?_below, take,
  take_all, take-append_left, All, All-append, All-map, All-get_elem?, length-append, le_cases, ◌⊎◌,
  inl, inr, leb, if◌then◌else◌, Bool-cases,
}
use mathlib.Core.Path.{subst, subst₂}
use gaffa.Prelude.Bytes.{Bytes}
use gaffa.Common.Error.{Result, ok, err, panic, invalid_message}
use gaffa.Protocol.Messages.{Message}
use gaffa.Storage.Compression.{Codecs, CodecLaws}
use gaffa.Storage.Record.{DiskRecord, encode}
use gaffa.Storage.File.{File, write_all, seek_end}
use gaffa.Storage.Index
use gaffa.Storage.Index.Entries
use gaffa.Storage.Index.Entries.{Entry, IsEntry, append-Holds_entries, create-Holds, write_all-end}
use gaffa.Storage.Index.Lookup.{IsSorted, IsSorted-append, offset_at, get_elem?-offset_at}
use gaffa.Storage.Segment.{
  LogSegment, SegmentConfig, create, record_of, write_record, append_loop, append, remap,
}
use gaffa.Storage.Segment.Log.{
  IsFrom, IsStored, record_bytes, log_bytes, log_bytes-append, length-log_bytes,
  encode-record_bytes, length-record_bytes,
}
use gaffa.Storage.Segment.Reading.{IsMark, Reads}

-- The files of the segment hold these records, and `position` is the end of the log.
pub record Log (lib : Codecs) (s : LogSegment) (position : ℕ) (rs : List DiskRecord) : Type 0 where
  pub stored : All (IsStored lib) rs
  pub from : IsFrom s.base_offset rs
  pub next : s.next_offset ≡ s.base_offset + length rs
  pub contents : s.log_file.contents ≡ log_bytes lib rs
  pub end : position ≡ length (log_bytes lib rs)
  pub entries : List Entry
  pub marks : All (IsMark lib s.base_offset rs) entries
  pub sorted : IsSorted entries
  pub index : Entries.Holds s.index entries

pub IsFrom-append :
    (n : ℕ) (rs more : List DiskRecord)
    → IsFrom n rs
    → IsFrom (n + length rs) more
    → IsFrom n (rs ++ more)
IsFrom-append n [] more f g = subst (λ m. IsFrom m more) {x = n + 0} {y = n} (omega arith) g
IsFrom-append n (r ∷ rs) more (f, fs) g = (
  f,
  IsFrom-append (n + 1) rs more fs (
      subst (λ m. IsFrom m more) {x = n + suc (length rs)} {y = n + 1 + length rs} (omega arith) g),
)

module _ (lib : Codecs) (base : ℕ) (rs : List DiskRecord) where
  -- A mark stays one when the log grows.
  IsMark-append :
      (more : List DiskRecord) (e : Entry) → IsMark lib base rs e → IsMark lib base (rs ++ more) e
  IsMark-append more e (k, inside, at, position) = (
    k,
    omega (arith, length-append rs more),
    at,
    position ∙ ap (λ l. length (log_bytes lib l)) (sym (take-append_left k rs more inside)),
  )

  IsMark-end :
      (more : List DiskRecord)
      → IsMark lib base (rs ++ more) (base + length rs, length (log_bytes lib rs))
  IsMark-end more = (
    length rs,
    omega (arith, length-append rs more),
    refl,
    ap (λ l. length (log_bytes lib l))
        (sym (
          take-append_left (length rs) rs more (omega arith)
          ∙ take_all (length rs) rs (omega arith))),
  )

  marks_below :
      (es : List Entry)
      → All (IsMark lib base rs) es
      → (i : ℕ) → i < length es
      → offset_at es i ≤ base + length rs
  marks_below es m i h =
      let (e, g) = get_elem?_below es i h in
      let (k, inside, at, position) = All-get_elem? (IsMark lib base rs) es i m g in
      omega (arith, get_elem?-offset_at es i e g)

module _ (lib : Codecs) (s : LogSegment) (position : ℕ) (rs : List DiskRecord)
    (h : Log lib s position rs) (small_next : s.next_offset < 2 ^ 64)
    (small_end : position < 2 ^ 64) (more : List DiskRecord) where
  -- The index after a round, entered or not.
  abbrev Indexed : Bool → Type 0
  Indexed due =
      (es : List Entry) × All (IsMark lib s.base_offset (rs ++ more)) es
      × IsSorted es
      × Entries.Holds (if due then Index.append s.index s.next_offset position else s.index) es

  index_round : (due : Bool) → Indexed due
  index_round false = (
    h.entries,
    All-map (IsMark lib s.base_offset rs) (IsMark lib s.base_offset (rs ++ more)) h.entries
        (IsMark-append lib s.base_offset rs more) h.marks,
    h.sorted,
    h.index,
  )
  index_round true =
      let entry : Entry = (s.next_offset, position) in
      (
        h.entries ++ entry ∷ [],
        All-append (IsMark lib s.base_offset (rs ++ more)) h.entries (entry ∷ [])
            (All-map (IsMark lib s.base_offset rs) (IsMark lib s.base_offset (rs ++ more)) h.entries
              (IsMark-append lib s.base_offset rs more) h.marks)
            (
              subst₂ (λ o p. IsMark lib s.base_offset (rs ++ more) (o, p)) (sym h.next) (sym h.end)
                  (IsMark-end lib s.base_offset rs more),
              tt,
            ),
        IsSorted-append h.entries entry h.sorted
            (λ i p. omega (arith, h.next, marks_below lib s.base_offset rs h.entries h.marks i p)),
        append-Holds_entries s.index h.entries s.next_offset position h.index
            (small_next, small_end),
      )
