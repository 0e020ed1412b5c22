-- ===== src/Storage/Segment/Reading/Marks.antt =====
-- Where the index of a segment of storage/src/segment.rs points to in its log.
use gaffa.Prelude.{
  ℕ, zero, suc, ◌+◌, ◌≤◌, ◌<◌, ◌≡◌, refl, sym, ap, ◌∙◌, false, Option, none, some, List, [], ◌∷◌,
  arith, length, get_elem?_below, take, drop, take-append-drop, drop-append_length, All,
  All-get_elem?, length-append, ◌⊎◌, inl, inr,
}
use mathlib.Core.Path.{subst}
use gaffa.Prelude.Bytes.{Bytes}
use gaffa.Common.Error.{ok, err, invalid_offset}
use gaffa.Storage.Compression.{Codecs, CodecLaws}
use gaffa.Storage.Record.{DiskRecord}
use gaffa.Storage.Index.{lookup}
use gaffa.Storage.Index.Entries
use gaffa.Storage.Index.Entries.{Entry}
use gaffa.Storage.Index.Lookup.{
  IsSorted, Splits, position_before, lookup-Splits, get_elem?-offset_at, get_elem?-position_before,
}
use gaffa.Storage.Segment.{LogSegment, slice_from_index, read, read_loop, read_batch, batch_loop}
use gaffa.Storage.Segment.Log.{IsFrom, IsStored, log_bytes, log_bytes-append}

-- An index entry that marks where one of the records begins.
abbrev pub IsMark : Codecs → ℕ → List DiskRecord → Entry → Type 0
IsMark lib base rs e =
    (k : ℕ) × (k ≤ length rs) × (e.0 ≡ base + k) × (e.1 ≡ length (log_bytes lib (take k rs)))

-- The segment can be read as these records.
pub record Reads (lib : Codecs) (s : LogSegment) (rs : List DiskRecord) : Type 0 where
  pub stored : All (IsStored lib) rs
  pub from : IsFrom s.base_offset rs
  pub next : s.next_offset ≡ s.base_offset + length rs
  pub mmap : 0 < length rs → s.mmap ≡ some (log_bytes lib rs)
  pub entries : List Entry
  pub marks : All (IsMark lib s.base_offset rs) entries
  pub sorted : IsSorted entries
  pub index : Entries.Reads s.index entries

pub IsFrom-drop : (k n : ℕ) (rs : List DiskRecord) → IsFrom n rs → IsFrom (n + k) (drop k rs)
IsFrom-drop zero n rs f = subst (λ m. IsFrom m rs) (omega arith) f
IsFrom-drop (suc k) n [] f = tt
IsFrom-drop (suc k) n (r ∷ rs) (f, fs) =
    subst (λ m. IsFrom m (drop k rs)) {x = n + 1 + k} {y = n + suc k} (omega arith)
      (IsFrom-drop k (n + 1) rs fs)

-- Where the position of a mark cuts the log.
drop-log_bytes :
    (lib : Codecs) (k : ℕ) (rs : List DiskRecord)
    → drop (length (log_bytes lib (take k rs))) (log_bytes lib rs) ≡ log_bytes lib (drop k rs)
drop-log_bytes lib k rs =
    ap (drop (length (log_bytes lib (take k rs)))) (
      sym (ap (log_bytes lib) (take-append-drop k rs))
      ∙ log_bytes-append lib (take k rs) (drop k rs))
    ∙ drop-append_length (log_bytes lib (take k rs)) (log_bytes lib (drop k rs))

length-log_bytes-take :
    (lib : Codecs) (k : ℕ) (rs : List DiskRecord)
    → length (log_bytes lib (take k rs)) ≤ length (log_bytes lib rs)
length-log_bytes-take lib k rs = omega (
  arith,
  ap length (
      sym (ap (log_bytes lib) (take-append-drop k rs))
      ∙ log_bytes-append lib (take k rs) (drop k rs)),
  length-append (log_bytes lib (take k rs)) (log_bytes lib (drop k rs)),
)

slice_found :
    (s : LogSegment) (mmap : Bytes) (offset : ℕ) (found : Option ℕ) (position : ℕ)
    → lookup s.index offset ≡ ok found
    → (found ≡ some position) ⊎ ((found ≡ none) × (position ≡ 0))
    → position ≤ length mmap
    → slice_from_index s mmap offset ≡ ok (drop position mmap)
unfolding slice_from_index
slice_found s mmap offset found position e c h = ground arith

module _ (lib : Codecs) (laws : CodecLaws lib) (s : LogSegment) (rs : List DiskRecord)
    (h : Reads lib s rs) where
  -- The scan starts at a record that is not past the offset.
  pub start_of_scan :
      (offset : ℕ)
      → s.base_offset ≤ offset
      → (k : ℕ) × (k ≤ length rs)
        × (s.base_offset + k ≤ offset)
        × (slice_from_index s (log_bytes lib rs) offset ≡ ok (log_bytes lib (drop k rs)))
  start_of_scan offset low = go (lookup-Splits s.index h.entries offset h.index h.sorted)
    where
      go :
          (r : ℕ) × Splits h.entries offset r
            × (lookup s.index offset ≡ ok (position_before h.entries r))
          → (k : ℕ) × (k ≤ length rs)
            × (s.base_offset + k ≤ offset)
            × (slice_from_index s (log_bytes lib rs) offset ≡ ok (log_bytes lib (drop k rs)))
      go (zero, split, e) = (
        0,
        omega arith,
        omega arith,
        slice_found s (log_bytes lib rs) offset none 0 e (inr (refl, refl)) (omega arith),
      )
      go (suc r, (inside, below, above), e) =
          let (entry, g) = get_elem?_below h.entries r (omega arith) in
          let (k, inside_rs, at, position) =
            All-get_elem? (IsMark lib s.base_offset rs) h.entries r h.marks g in
          (
            k,
            inside_rs,
            omega (arith, below r (omega arith), get_elem?-offset_at h.entries r entry g, at),
            slice_found s (log_bytes lib rs) offset (position_before h.entries (suc r))
                  (length (log_bytes lib (take k rs))) e
                  (inl (get_elem?-position_before h.entries r entry g ∙ ap some position))
                  (length-log_bytes-take lib k rs)
                ∙ ap ok (drop-log_bytes lib k rs),
          )

-- The branches of `read` and `read_batch`.
module _ (lib : Codecs) (s : LogSegment) (offset : ℕ) where
  pub read_below : offset < s.base_offset → read lib s offset ≡ err (invalid_offset offset)
  unfolding read
  read_below h = ground arith

  pub read_past :
      s.base_offset ≤ offset
      → s.next_offset ≤ offset
      → read lib s offset ≡ err (invalid_offset offset)
  unfolding read
  read_past h k = ground arith

  pub read_batch_below :
      (max : ℕ) → offset < s.base_offset → read_batch lib s offset max ≡ err (invalid_offset offset)
  unfolding read_batch
  read_batch_below max h = ground arith

  pub read_batch_past :
      (max : ℕ)
      → s.base_offset ≤ offset
      → s.next_offset ≤ offset
      → read_batch lib s offset max ≡ ok []
  unfolding read_batch
  read_batch_past max h k = ground arith

  module _ (mmap bs : Bytes) (low : s.base_offset ≤ offset) (high : offset < s.next_offset) where
    pub read_scan :
        s.mmap ≡ some mmap
        → slice_from_index s mmap offset ≡ ok bs
        → read lib s offset ≡ read_loop lib (suc (length bs)) bs offset
    unfolding read
    read_scan e c = ground arith

    pub read_batch_scan :
        (max : ℕ)
        → s.mmap ≡ some mmap
        → slice_from_index s mmap offset ≡ ok bs
        → read_batch lib s offset max ≡ batch_loop lib (suc (length bs)) bs offset max false []
    unfolding read_batch
    read_batch_scan max e c = ground arith
