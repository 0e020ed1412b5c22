-- ===== src/Storage/Partition.antt =====
-- storage/src/partition.rs: a partition is the list of its segments, the last of them active. The
-- list's lock is held for the whole operation, so a method is one step.
pub mod Chain
pub mod Search
pub mod Fetching
pub mod Appending
pub mod RoundTrip
use gaffa.Prelude.{
  ℕ, zero, suc, ◌+◌, ◌-◌, ◌/◌, ◌%◌, ◌^◌, ◌<>◌, String, Bool, Option, none, some, List, [], ◌∷◌,
  ◌++◌, map, length, get_elem?, drop, ltb, leb, ◌==◌, if◌then◌else◌, add64, sub32,
}
use gaffa.Prelude.Bytes.{Bytes}
use gaffa.Common.Error.{Result, ok, err, panic, invalid_message, invalid_offset, storage, ◌>>=◌}
use gaffa.Protocol.Messages.{Message, Record}
use gaffa.Storage.Compression.{Codecs}
use gaffa.Storage.Record.{DiskRecord, to_message}
use gaffa.Storage.Segment
use gaffa.Storage.Segment.{LogSegment, SegmentConfig, should_rotate, read_batch}

-- What the partition's directory holds at the paths of a base offset.
pub record Directory : Type 0 where
  pub log : ℕ → Option Bytes
  pub index : ℕ → Option Bytes

pub record Partition : Type 0 where
  pub partition_id : ℕ
  pub topic_name : String
  pub segments : List LogSegment
  pub config : SegmentConfig

unfoldable pub create_segment : Directory → SegmentConfig → ℕ → LogSegment
create_segment dir c base_offset =
    Segment.create base_offset (dir.log base_offset) (dir.index base_offset) c

unfoldable pub with_config : String → ℕ → Directory → SegmentConfig → Partition
unfolding create_segment
with_config topic_name partition_id dir c = record {
  partition_id = partition_id;
  topic_name = topic_name;
  segments = create_segment dir c 0 ∷ [];
  config = c;
}

-- `Partition::new`
unfoldable pub new : String → ℕ → Directory → Partition
unfolding with_config
new topic_name partition_id dir = with_config topic_name partition_id dir Segment.default

-- `sort_unstable` on the base offsets.
insert_sorted : ℕ → List ℕ → List ℕ
insert_sorted x [] = x ∷ []
insert_sorted x (y ∷ ys) = let rest = insert_sorted x ys in if leb x y then x ∷ y ∷ ys else y ∷ rest

unfoldable pub sort_unstable : List ℕ → List ℕ
unfolding insert_sorted
sort_unstable [] = []
sort_unstable (x ∷ xs) = insert_sorted x (sort_unstable xs)

get_last? {ℓ} : {A : Type ℓ} → List A → Option A
get_last? [] = none
get_last? (x ∷ []) = some x
get_last? (x ∷ y ∷ ys) = get_last? (y ∷ ys)

unfoldable pub last_record : List DiskRecord → Option DiskRecord
unfolding get_last?
last_record rs = get_last? rs

unfoldable pub last_segment : List LogSegment → Option LogSegment
unfolding get_last?
last_segment ss = get_last? ss

module _ (lib : Codecs) where
  open_segments : Directory → SegmentConfig → List ℕ → Result (List LogSegment)
  open_segments dir c [] = ok []
  open_segments dir c (base ∷ bases) = do
    s ← Segment.open_existing lib base (dir.log base) (dir.index base) c
    ss ← open_segments dir c bases
    ok (s ∷ ss)

  -- `open_with_config`; `bases` are the offsets that the names of the directory's `.log` files spell,
  -- in the order of the listing, and `path` is the directory's.
  unfoldable pub open_with_config :
      String → ℕ → Directory → String → List ℕ → SegmentConfig → Result Partition
  unfolding open_segments sort_unstable
  open_with_config topic_name partition_id dir path [] c =
      err (storage ("No segments found in partition directory: " <> path))
  open_with_config topic_name partition_id dir path (base ∷ bases) c = do
    segments ← open_segments dir c (sort_unstable (base ∷ bases))
    ok (record {
      partition_id = partition_id;
      topic_name = topic_name;
      segments = segments;
      config = c;
    })

  -- `segments.last().unwrap().append(messages)`
  unfoldable pub append_last : List LogSegment → List Message → List LogSegment × Result ℕ
  append_last [] messages = ([], panic)
  append_last (s ∷ []) messages =
      let (s', base_offset) = Segment.append lib s messages in (s' ∷ [], base_offset)
  append_last (s ∷ t ∷ ss) messages =
      let (ss', base_offset) = append_last (t ∷ ss) messages in (s ∷ ss', base_offset)

  -- A full active segment is closed by a new one behind it.
  unfoldable pub rotated : Directory → Partition → LogSegment → List LogSegment
  unfolding create_segment
  rotated dir p active =
      if should_rotate active
      then p.segments ++ create_segment dir p.config active.next_offset ∷ []
      else p.segments

  unfoldable pub append : Directory → Partition → List Message → Partition × Result ℕ
  unfolding append_last rotated last_segment
  append dir p [] = (p, err (invalid_message "No messages to append"))
  append dir p (m ∷ ms) = elim (last_segment p.segments) [
    | none ↦ (p, err (storage "No active segment"))
    | some active ↦
        let (segments, base_offset) = append_last (rotated dir p active) (m ∷ ms) in
        (record p { segments = segments }, base_offset)
  ]

-- The binary search of `find_segment_index`; fuel `right - left` is enough. `segments[mid]` past
-- the end would panic.
unfoldable pub search_loop : ℕ → List LogSegment → ℕ → ℕ → ℕ → Result ℕ
search_loop zero segments offset left right = ok left
search_loop (suc fuel) segments offset left right =
    let mid = (left + right) / 2 in
    let upper = search_loop fuel segments offset (mid + 1) right in
    let lower = search_loop fuel segments offset left mid in
    if ltb left right
    then (elim (get_elem? segments mid) [
      | none ↦ panic
      | some s ↦ if leb s.base_offset offset then upper else lower
    ])
    else ok left

unfoldable pub find_segment_index : List LogSegment → ℕ → Result ℕ
unfolding search_loop
find_segment_index segments offset = do
  left ← search_loop (length segments) segments offset 0 (length segments)
  if ltb 0 left then ok (left - 1) else err (invalid_offset offset)

unfoldable pub to_record : String → ℕ → DiskRecord → Record
to_record topic_name partition_id r = record {
  topic = topic_name;
  partition = partition_id;
  offset = r.offset;
  message = to_message r;
}

-- The offset behind the last record that was read.
unfoldable pub offset_behind : ℕ → List DiskRecord → ℕ
unfolding last_record
offset_behind current_offset rs = elim (last_record rs) [
  | none ↦ current_offset
  | some r ↦ add64 r.offset 1
]

module _ (lib : Codecs) where
  -- The loop of `fetch` over the segments from the first one on; it gathers what it has read.
  unfoldable pub fetch_loop : List LogSegment → ℕ → ℕ → List DiskRecord → Result (List DiskRecord)
  unfolding offset_behind
  fetch_loop [] current_offset remaining out = ok out
  fetch_loop (s ∷ ss) current_offset remaining out =
      let more = λ (rs : List DiskRecord).
        fetch_loop ss (offset_behind current_offset rs) (sub32 remaining (length rs % 2 ^ 32))
          (out ++ rs) in
      if remaining == 0 then ok out else (do
        disk_records ← read_batch lib s current_offset remaining
        if length disk_records == 0 then ok out else more disk_records)

  unfoldable pub fetch : Partition → ℕ → ℕ → Result (List Record)
  unfolding find_segment_index fetch_loop to_record
  fetch p offset max_messages = do
    start ← find_segment_index p.segments offset
    disk_records ← fetch_loop (drop start p.segments) offset max_messages []
    ok (map (to_record p.topic_name p.partition_id) disk_records)

unfoldable pub next_offset : Partition → ℕ
unfolding last_segment
next_offset p = elim (last_segment p.segments) [ none ↦ 0 | some s ↦ s.next_offset ]
