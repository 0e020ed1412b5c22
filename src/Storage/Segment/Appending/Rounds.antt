-- ===== src/Storage/Segment/Appending/Rounds.antt =====
-- The rounds of `append` of storage/src/segment.rs, and the whole of it.
use gaffa.Prelude.{
  ℕ, suc, ◌+◌, ◌^◌, ◌<◌, ◌≡◌, refl, sym, ap, ◌∙◌, List, [], ◌∷◌, ◌++◌, append-nil, append_assoc,
  arith, length, All, All-append, length-append, leb,
}
use mathlib.Core.Path.{subst, ap₂}
use gaffa.Prelude.Bytes.{Bytes}
use gaffa.Common.Error.{ok}
use gaffa.Protocol.Messages.{Message}
use gaffa.Storage.Compression.{Codecs}
use gaffa.Storage.Record.{DiskRecord, encode, new, new_with_compression}
use gaffa.Storage.File.{write_all}
use gaffa.Storage.Index.Entries.{write_all-end}
use gaffa.Storage.Segment.{LogSegment, SegmentConfig, record_of, write_record, append_loop}
use gaffa.Storage.Segment.Log.{
  IsStored, record_bytes, log_bytes, log_bytes-append, encode-record_bytes,
}
use gaffa.Storage.Segment.Appending.{Log, IsFrom-append, index_round}

-- The records that the messages become, from an offset on.
abbrev pub records_of : SegmentConfig → ℕ → List Message → List DiskRecord
records_of c n [] = []
records_of c n (m ∷ ms) = record_of c n m ∷ records_of c (n + 1) ms

pub length-records_of :
    (c : SegmentConfig) (n : ℕ) (ms : List Message) → length (records_of c n ms) ≡ length ms
length-records_of c n [] = refl
length-records_of c n (m ∷ ms) = ap suc (length-records_of c (n + 1) ms)

offset-record_of : (c : SegmentConfig) (n : ℕ) (m : Message) → (record_of c n m).offset ≡ n
unfolding record_of new new_with_compression
offset-record_of c n m = ground arith

-- A segment that is being written to: the cursor is at the end of the log.
pub record Writing (lib : Codecs) (s : LogSegment) (position : ℕ) (rs : List DiskRecord)
    : Type 0 where
  pub log : Log lib s position rs
  pub open log use *
  pub cursor : s.log_file.cursor ≡ length s.log_file.contents

module _ (lib : Codecs) (s : LogSegment) (position : ℕ) (rs : List DiskRecord)
    (h : Writing lib s position rs) where
  module _ (r : DiskRecord) (stored : IsStored lib r) (at : r.offset ≡ s.next_offset)
      (small_next : s.next_offset + 1 < 2 ^ 64)
      (small_end : position + length (record_bytes lib r) < 2 ^ 64) where
    abbrev written : LogSegment × ℕ
    written = write_record s position (record_bytes lib r)

    log_round : (written.0).log_file.contents ≡ log_bytes lib (rs ++ r ∷ [])
    unfolding write_record
    log_round =
        write_all-end s.log_file (record_bytes lib r) h.cursor
        ∙ ap (λ bs. bs ++ record_bytes lib r) h.contents
        ∙ sym (
            log_bytes-append lib rs (r ∷ [])
            ∙ ap (λ bs. log_bytes lib rs ++ bs) (append-nil (record_bytes lib r)))

    end_round : written.1 ≡ length (log_bytes lib (rs ++ r ∷ []))
    unfolding write_record
    end_round = omega (
      arith,
      h.end,
      ap length (log_bytes-append lib rs (r ∷ [])),
      length-append (log_bytes lib rs) (record_bytes lib r ++ []),
      length-append (record_bytes lib r) [],
    )

    cursor_round : (written.0).log_file.cursor ≡ length (written.0).log_file.contents
    unfolding write_record write_all
    cursor_round = omega (
      arith,
      h.cursor,
      ap length log_round,
      ap length h.contents,
      ap length (log_bytes-append lib rs (r ∷ [])),
      length-append (log_bytes lib rs) (record_bytes lib r ++ []),
      length-append (record_bytes lib r) [],
    )

    Writing-write_record : Writing lib written.0 written.1 (rs ++ r ∷ [])
    unfolding write_record
    Writing-write_record =
        let (es, marks, sorted, index) =
          index_round lib s position rs h.log (omega arith) (omega arith) (r ∷ [])
            (leb s.config.index_interval s.records_since_index) in
        record {
          log = record {
            stored = All-append (IsStored lib) rs (r ∷ []) h.stored (stored, tt);
            from = IsFrom-append s.base_offset rs (r ∷ []) h.from (omega (arith, at, h.next), tt);
            next = omega (arith, h.next, length-append rs (r ∷ []));
            contents = log_round;
            end = end_round;
            entries = es;
            marks = marks;
            sorted = sorted;
            index = index;
          };
          cursor = cursor_round;
        }

append_loop_cons :
    (lib : Codecs) (s : LogSegment) (position : ℕ) (m : Message) (ms : List Message) (bs : Bytes)
    → encode lib (record_of s.config s.next_offset m) ≡ ok bs
    → append_loop lib s position (m ∷ ms)
      ≡ append_loop lib (write_record s position bs).0 (write_record s position bs).1 ms
unfolding append_loop
append_loop_cons lib s position m ms bs e = rw (e, append_loop)

module _ (lib : Codecs) (c : SegmentConfig) where
  -- What the loop comes to: it has written all the records.
  abbrev pub Appends : LogSegment → ℕ → List DiskRecord → List Message → Type 0
  Appends s position rs ms =
      (s' : LogSegment) × (position' : ℕ) × (append_loop lib s position ms ≡ (s', ok position'))
      × Writing lib s' position' rs
      × (s'.base_offset ≡ s.base_offset)
      × (s'.config ≡ c)

  module _ (s : LogSegment) (position : ℕ) (r : DiskRecord) where
    kept_config : s.config ≡ c → (write_record s position (record_bytes lib r)).0.config ≡ c
    unfolding write_record
    kept_config e = e

    kept_base : (write_record s position (record_bytes lib r)).0.base_offset ≡ s.base_offset
    unfolding write_record
    kept_base = refl

    next_round :
        {n : ℕ}
        → s.next_offset ≡ n
        → n + 1 < 2 ^ 64
        → (write_record s position (record_bytes lib r)).0.next_offset ≡ n + 1
    unfolding write_record
    next_round e h = omega arith

    position_round :
        position + length (record_bytes lib r) < 2 ^ 64
        → (write_record s position (record_bytes lib r)).1 ≡ position + length (record_bytes lib r)
    unfolding write_record
    position_round h = omega arith

  pub append_loop-Writing :
      (ms : List Message) (n : ℕ) (s : LogSegment) (position : ℕ) (rs : List DiskRecord)
      → Writing lib s position rs
      → s.config ≡ c
      → s.next_offset ≡ n
      → All (IsStored lib) (records_of c n ms)
      → n + length ms < 2 ^ 64
      → position + length (log_bytes lib (records_of c n ms)) < 2 ^ 64
      → Appends s position (rs ++ records_of c n ms) ms
  append_loop-Writing [] n s position rs h ec en vs hn hp = (
    s,
    position,
    unfold append_loop in refl,
    subst (Writing lib s position) (sym (append-nil rs)) h,
    refl,
    ec,
  )
  append_loop-Writing (m ∷ ms) n s position rs h ec en (v, vs) hn hp =
      let r : DiskRecord = record_of c n m in
      let same : record_of s.config s.next_offset m ≡ r = ap₂ (λ k t. record_of k t m) ec en in
      let size = length-append (record_bytes lib r) (log_bytes lib (records_of c (n + 1) ms)) in
      let at : r.offset ≡ s.next_offset = offset-record_of c n m ∙ sym en in
      let w = Writing-write_record lib s position rs h r v at (omega arith) (omega (arith, size)) in
      let (s', position', run, done, base, config) =
        append_loop-Writing ms (n + 1) (write_record s position (record_bytes lib r)).0
          (write_record s position (record_bytes lib r)).1 (rs ++ r ∷ []) w
          (kept_config s position r ec) (next_round s position r en (omega arith)) vs (omega arith)
          (omega (arith, size, position_round s position r (omega (arith, size)))) in
      (
        s',
        position',
        append_loop_cons lib s position m ms (record_bytes lib r)
              (ap (encode lib) same ∙ encode-record_bytes lib r v)
            ∙ run,
        subst (Writing lib s' position') (append_assoc rs (r ∷ []) (records_of c (n + 1) ms)) done,
        base ∙ kept_base s position r,
        config,
      )
