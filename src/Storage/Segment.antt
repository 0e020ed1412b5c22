-- ===== src/Storage/Segment.antt =====
-- storage/src/segment.rs: a log segment, one file of records and its index. Each lock is held for
-- the whole operation, so a method is one step on the state. File operations succeed.
pub mod Log
pub mod Scanning
pub mod Reading
pub mod Appending
pub mod Recovery
use gaffa.Prelude.{
  ℕ, zero, suc, ◌+◌, ◌*◌, ◌^◌, Bool, true, false, not, Option, none, some, List, [], ◌∷◌, ◌++◌,
  length, drop, ltb, leb, ◌==◌, if◌then◌else◌, add32, add64,
}
use gaffa.Prelude.Bytes.{Bytes}
use gaffa.Common.Error.{Result, ok, err, panic, io, invalid_message, invalid_offset, storage, ◌>>=◌}
use gaffa.Protocol.Messages.{Message}
use gaffa.Storage.Compression.{CompressionType, Codecs}
use gaffa.Storage.Record.{DiskRecord, new, new_with_compression, encode, decode}
use gaffa.Storage.File.{File, opened, open_or_create, write_all, seek_end}
use gaffa.Storage.Index
use gaffa.Storage.Index.{OffsetIndex, mapped, lookup}
use gaffa.Storage.Retention
use gaffa.Storage.Retention.{RetentionConfig}

pub record SegmentConfig : Type 0 where
  pub max_size : ℕ
  pub index_interval : ℕ
  pub compression : CompressionType
  pub retention : RetentionConfig

abbrev pub default : SegmentConfig
default = record {
  max_size = 1024 * 1024 * 1024;
  index_interval = 10;
  compression = CompressionType.none;
  retention = Retention.default;
}

unfoldable pub with_compression : SegmentConfig → CompressionType → SegmentConfig
with_compression c compression = record c { compression = compression }

unfoldable pub with_retention : SegmentConfig → RetentionConfig → SegmentConfig
with_retention c retention = record c { retention = retention }

pub record LogSegment : Type 0 where
  pub base_offset : ℕ
  pub log_file : File
  pub mmap : Option Bytes
  pub index : OffsetIndex
  pub size : ℕ
  pub next_offset : ℕ
  pub config : SegmentConfig
  pub records_since_index : ℕ

-- The two `Option`s are what the directory holds at the segment's paths.
unfoldable pub create : ℕ → Option Bytes → Option Bytes → SegmentConfig → LogSegment
create base_offset log_there index_there config = record {
  base_offset = base_offset;
  log_file = open_or_create log_there;
  mmap = none;
  index = Index.create index_there;
  size = 0;
  next_offset = base_offset;
  config = config;
  records_since_index = 0;
}

missing : Result LogSegment
missing = err (io "No such file or directory (os error 2)")

-- The record that a message becomes.
unfoldable pub record_of : SegmentConfig → ℕ → Message → DiskRecord
record_of c offset message = elim c.compression [
  | CompressionType.none ↦ new offset message
  | other ↦ new_with_compression offset message other
]

-- One round of the loop of `append`, behind `encode`. `size` stands for `current_position`: the
-- field itself is set when the loop is over.
unfoldable pub write_record : LogSegment → ℕ → Bytes → LogSegment × ℕ
write_record s current_position encoded =
    let due = leb s.config.index_interval s.records_since_index in
    (
      record s {
        log_file = write_all s.log_file encoded;
        index = if due then Index.append s.index s.next_offset current_position else s.index;
        next_offset = add64 s.next_offset 1;
        records_since_index = add32 (if due then 0 else s.records_since_index) 1;
      },
      add64 current_position (length encoded),
    )

unfoldable pub remap : LogSegment → LogSegment
remap s = record s { mmap = mapped s.log_file.contents s.mmap }

pub finish : ℕ → LogSegment × Result ℕ → LogSegment × Result ℕ
unfolding remap
finish base_offset (s, ok current_position) =
    (remap (record s { size = current_position }), ok base_offset)
finish base_offset (s, err e) = (s, err e)
finish base_offset (s, panic) = (s, panic)

-- `&mmap_ref[position..]` at the position that the index gives, 0 if it gives none.
unfoldable pub slice_from_index : LogSegment → Bytes → ℕ → Result Bytes
slice_from_index s mmap offset = do
  found ← lookup s.index offset
  let position : ℕ = elim found [ none ↦ 0 | some p ↦ p ]
  if leb position (length mmap) then ok (drop position mmap) else panic

module _ (lib : Codecs) where
  -- `while let Ok(record) = decode(..)`; a record takes at least a byte, so the bytes' number is
  -- enough fuel.
  unfoldable pub scan_loop : ℕ → Bytes → ℕ → Result ℕ
  scan_loop zero bs last_offset = ok last_offset
  scan_loop (suc fuel) bs last_offset = elim (decode lib bs) [
    | ok (r, rest) ↦ scan_loop fuel rest r.offset
    | err e ↦ ok last_offset
    | panic ↦ panic
  ]

  unfoldable pub scan_for_next_offset : Bytes → ℕ → Result ℕ
  unfolding scan_loop
  scan_for_next_offset bs base_offset =
      if length bs == 0
      then ok base_offset
      else (do last_offset ← scan_loop (suc (length bs)) bs base_offset; ok (add64 last_offset 1))

  -- `open`; the two `Option`s are what the directory holds at the segment's paths.
  unfoldable pub open_existing : ℕ → Option Bytes → Option Bytes → SegmentConfig → Result LogSegment
  unfolding scan_for_next_offset missing
  open_existing base_offset none index_there config = missing
  open_existing base_offset (some log) none config = missing
  open_existing base_offset (some log) (some index_bytes) config = do
    next_offset ← scan_for_next_offset log base_offset
    ok (record {
      base_offset = base_offset;
      log_file = opened log;
      mmap = mapped log none;
      index = Index.open_existing index_bytes;
      size = length log;
      next_offset = next_offset;
      config = config;
      records_since_index = 0;
    })

  -- What is written before an error stays written.
  unfoldable pub append_loop : LogSegment → ℕ → List Message → LogSegment × Result ℕ
  unfolding write_record record_of
  append_loop s current_position [] = (s, ok current_position)
  append_loop s current_position (m ∷ ms) = elim (encode lib (record_of s.config s.next_offset m)) [
    | ok encoded ↦
        let (s', position) = write_record s current_position encoded in append_loop s' position ms
    | err e ↦ (s, err e)
    | panic ↦ (s, panic)
  ]

  unfoldable pub append : LogSegment → List Message → LogSegment × Result ℕ
  unfolding append_loop finish
  append s [] = (s, err (invalid_message "No messages to append"))
  append s (m ∷ ms) =
      finish s.next_offset
        (append_loop (record s { log_file = seek_end s.log_file }) s.size (m ∷ ms))

  -- The loop of `read`; the last clause of fuel is not reached, since each record takes a byte.
  unfoldable pub read_loop : ℕ → Bytes → ℕ → Result DiskRecord
  read_loop zero bs offset = panic
  read_loop (suc fuel) bs offset = elim (decode lib bs) [
    | ok (r, rest) ↦
        let more = read_loop fuel rest offset in
        if r.offset == offset
        then ok r
        else if ltb offset r.offset
        then err (invalid_offset offset)
        else more
    | err e ↦ err e
    | panic ↦ panic
  ]

  unfoldable pub read : LogSegment → ℕ → Result DiskRecord
  unfolding read_loop slice_from_index
  read s offset =
      if ltb offset s.base_offset
      then err (invalid_offset offset)
      else if leb s.next_offset offset
      then err (invalid_offset offset)
      else (elim s.mmap [
        | none ↦ err (storage "Segment not memory-mapped")
        | some mmap ↦ do bs ← slice_from_index s mmap offset; read_loop (suc (length bs)) bs offset
      ])

  -- The loop of `read_batch`; `records` is what it has pushed so far.
  unfoldable pub batch_loop : ℕ → Bytes → ℕ → ℕ → Bool → List DiskRecord → Result (List DiskRecord)
  batch_loop zero bs start_offset max_count found_start records = ok records
  batch_loop (suc fuel) bs start_offset max_count found_start records =
      let next : Result (List DiskRecord) = elim (decode lib bs) [
        | ok (r, rest) ↦
            let pushed = batch_loop fuel rest start_offset max_count true (records ++ r ∷ []) in
            let passed = batch_loop fuel rest start_offset max_count found_start records in
            if leb start_offset r.offset then pushed else passed
        | err e ↦ ok records
        | panic ↦ panic
      ] in
      if ltb (length records) max_count then next else ok records

  unfoldable pub read_batch : LogSegment → ℕ → ℕ → Result (List DiskRecord)
  unfolding batch_loop slice_from_index
  read_batch s start_offset max_count =
      if ltb start_offset s.base_offset
      then err (invalid_offset start_offset)
      else if leb s.next_offset start_offset
      then ok []
      else (elim s.mmap [
        | none ↦ err (storage "Segment not memory-mapped")
        | some mmap ↦ do
          bs ← slice_from_index s mmap start_offset
          batch_loop (suc (length bs)) bs start_offset max_count false []
      ])

unfoldable pub should_rotate : LogSegment → Bool
should_rotate s = leb s.config.max_size s.size
