-- ===== src/Storage/Segment/Appending/Whole.antt =====
-- `create` and `append` of storage/src/segment.rs on the list of the segment's records.
use gaffa.Prelude.{
  ℕ, ◌+◌, ◌^◌, ◌<◌, ◌≡◌, refl, ap, ◌∙◌, none, some, List, [], ◌∷◌, ◌++◌, arith, length, All,
}
use gaffa.Common.Error.{ok}
use gaffa.Protocol.Messages.{Message}
use gaffa.Storage.Compression.{Codecs}
use gaffa.Storage.Record.{DiskRecord}
use gaffa.Storage.File.{seek_end}
use gaffa.Storage.Index.Entries.{create-Holds, mapped_nonempty}
use gaffa.Storage.Segment.{LogSegment, SegmentConfig, create, append_loop, append, remap, finish}
use gaffa.Storage.Segment.Log.{IsStored, log_bytes, length-log_bytes}
use gaffa.Storage.Segment.Reading.{Reads}
use gaffa.Storage.Segment.Appending.{Log}
use gaffa.Storage.Segment.Appending.Rounds.{Writing, records_of, append_loop-Writing}

-- The segment stands for these records, in its files and in its map, and is open for more.
pub record Holds (lib : Codecs) (s : LogSegment) (rs : List DiskRecord) : Type 0 where
  pub log : Log lib s s.size rs
  pub open log use *
  pub mapping : 0 < length rs → s.mmap ≡ some (log_bytes lib rs)

pub Holds-Reads :
    (lib : Codecs) (s : LogSegment) (rs : List DiskRecord) → Holds lib s rs → Reads lib s rs
Holds-Reads lib s rs h = record {
  stored = h.stored;
  from = h.from;
  next = h.next;
  mmap = h.mapping;
  entries = h.entries;
  marks = h.marks;
  sorted = h.sorted;
  index = h.index.reads;
}

-- In an empty directory a new segment holds no records.
pub create-Holds_lem :
    (lib : Codecs) (base : ℕ) (c : SegmentConfig) → Holds lib (create base none none c) []
unfolding create
create-Holds_lem lib base c = record {
  log = record {
    stored = tt;
    from = tt;
    next = omega arith;
    contents = refl;
    end = refl;
    entries = [];
    marks = tt;
    sorted = λ i j p q. absurd (omega arith);
    index = create-Holds;
  };
  mapping = λ p. absurd (omega arith);
}

module _ (lib : Codecs) (s : LogSegment) (rs : List DiskRecord) (h : Holds lib s rs) where
  seeked : LogSegment
  seeked = record s { log_file = seek_end s.log_file }

  Writing-seeked : Writing lib seeked s.size rs
  unfolding seeked seek_end
  Writing-seeked = record {
    log = record {
      stored = h.stored;
      from = h.from;
      next = h.next;
      contents = h.contents;
      end = h.end;
      entries = h.entries;
      marks = h.marks;
      sorted = h.sorted;
      index = h.index;
    };
    cursor = refl;
  }

-- The end of `append`: the size is set and the file is mapped.
Holds-remap :
    (lib : Codecs) (s : LogSegment) (position : ℕ) (rs : List DiskRecord)
    → Writing lib s position rs
    → Holds lib (remap (record s { size = position })) rs
unfolding remap
Holds-remap lib s position rs w = record {
  log = record {
    stored = w.stored;
    from = w.from;
    next = w.next;
    contents = w.contents;
    end = w.end;
    entries = w.entries;
    marks = w.marks;
    sorted = w.sorted;
    index = w.index;
  };
  mapping = λ p.
      mapped_nonempty s.log_file.contents s.mmap
        (omega (arith, ap length w.contents, length-log_bytes lib rs w.stored))
      ∙ ap some w.contents;
}

append_run :
    (lib : Codecs) (s s' : LogSegment) (position : ℕ) (m : Message) (ms : List Message)
    → append_loop lib (record s { log_file = seek_end s.log_file }) s.size (m ∷ ms)
      ≡ (s', ok position)
    → append lib s (m ∷ ms) ≡ (remap (record s' { size = position }), ok s.next_offset)
unfolding append
append_run lib s s' position m ms e = ap (finish s.next_offset) e

-- `append` of at least one message to a segment that stands for a list of records, if the records
-- of the messages fit the format and the offsets and bytes stay below 2 ^ 64, succeeds with the
-- offset of the first message; the segment then stands for the old records with those of the
-- messages behind them, and keeps its base offset and configuration.
pub append-Holds :
    (lib : Codecs) (s : LogSegment) (rs : List DiskRecord) (m : Message) (ms : List Message)
    → Holds lib s rs
    → All (IsStored lib) (records_of s.config s.next_offset (m ∷ ms))
    → s.next_offset + length (m ∷ ms) < 2 ^ 64
    → s.size + length (log_bytes lib (records_of s.config s.next_offset (m ∷ ms))) < 2 ^ 64
    → (s' : LogSegment) × (append lib s (m ∷ ms) ≡ (s', ok s.next_offset))
      × Holds lib s' (rs ++ records_of s.config s.next_offset (m ∷ ms))
      × (s'.base_offset ≡ s.base_offset)
      × (s'.config ≡ s.config)
append-Holds lib s rs m ms h vs hn hp =
    let (s', position, run, w, base, config) =
      append_loop-Writing lib s.config (m ∷ ms) s.next_offset
        (record s { log_file = seek_end s.log_file }) s.size rs
        (unfold seeked in Writing-seeked lib s rs h) refl refl vs hn hp in
    (
      remap (record s' { size = position }),
      append_run lib s s' position m ms run,
      Holds-remap lib s' position (rs ++ records_of s.config s.next_offset (m ∷ ms)) w,
      unfold remap in base,
      unfold remap in config,
    )
