-- ===== src/Storage/Partition/RoundTrip.antt =====
-- What `append` of storage/src/partition.rs has taken, `fetch` gives back.
use gaffa.Prelude.{
  String, [], zero, suc, refl, ap, ℕ, ◌+◌, ◌-◌, ◌^◌, ◌<◌, ◌≡◌, ◌∙◌, none, List, ◌∷◌, ◌++◌, map,
  arith, length, length-append, All, take, drop, drop-append_length,
}
use gaffa.Common.Error.{ok}
use gaffa.Protocol.Messages.{Message, Record}
use mathlib.Core.Path.{ap₂}
use gaffa.Storage.Compression.{Codecs, CodecLaws}
use gaffa.Storage.Record.{DiskRecord, new, new_with_compression}
use gaffa.Storage.Segment.{SegmentConfig, record_of}
use gaffa.Storage.Segment.Log.{IsStored, log_bytes}
use gaffa.Storage.Segment.Reading.{Reads}
use gaffa.Storage.Segment.Appending.Rounds.{records_of, length-records_of}
use gaffa.Storage.Partition.{Directory, Partition, append, fetch}
use gaffa.Storage.Partition.Chain.{Chain, Chain-map, all_records}
use gaffa.Storage.Partition.Fetching.{shown, fetched, fetch-records_from}
use gaffa.Storage.Partition.Appending.{append-Chain}
use gaffa.Storage.Partition.Appending.Active.{Kept, Kept-Reads}

-- The messages as a reader is owed them: each as it was sent, at consecutive offsets.
abbrev pub delivered : String → ℕ → ℕ → List Message → List Record
delivered topic partition n [] = []
delivered topic partition n (m ∷ ms) =
    record { topic = topic; partition = partition; offset = n; message = m }
    ∷ delivered topic partition (n + 1) ms

shown-record_of :
    (topic : String) (partition : ℕ) (c : SegmentConfig) (n : ℕ) (m : Message)
    → shown topic partition (record_of c n m)
      ≡ record { topic = topic; partition = partition; offset = n; message = m }
unfolding record_of new new_with_compression
shown-record_of topic partition c n m = ground arith

map-records_of :
    (topic : String) (partition : ℕ) (c : SegmentConfig) (n : ℕ) (ms : List Message)
    → map (shown topic partition) (records_of c n ms) ≡ delivered topic partition n ms
map-records_of topic partition c n [] = refl
map-records_of topic partition c n (m ∷ ms) =
    ap₂ ◌∷◌ (shown-record_of topic partition c n m) (map-records_of topic partition c (n + 1) ms)

map-take :
    (f : DiskRecord → Record) (k : ℕ) (rs : List DiskRecord) → map f (take k rs) ≡ take k (map f rs)
map-take f zero rs = refl
map-take f (suc k) [] = refl
map-take f (suc k) (r ∷ rs) = ap (λ l. f r ∷ l) (map-take f k rs)

-- What a fetch of the messages' records gives.
fetched_messages :
    (topic : String) (partition max : ℕ) (c : SegmentConfig) (n : ℕ) (ms : List Message)
    → map (shown topic partition) (take max (records_of c n ms))
      ≡ take max (delivered topic partition n ms)
fetched_messages topic partition max c n ms =
    map-take (shown topic partition) max (records_of c n ms)
    ∙ ap (take max) (map-records_of topic partition c n ms)

fetched_at_end :
    (p : Partition) (b max : ℕ) (rs more : List DiskRecord)
    → fetched p b (rs ++ more) (b + length rs) max
      ≡ ok (map (shown p.topic_name p.partition_id) (take max more))
fetched_at_end p b max rs more =
    inside
    ∙ ap (λ l. ok (map (shown p.topic_name p.partition_id) (take max l)))
        (ap (λ n. drop n (rs ++ more)) {x = b + length rs - b} {y = length rs} (omega arith)
          ∙ drop-append_length rs more)
  where
    inside :
        fetched p b (rs ++ more) (b + length rs) max
        ≡ ok (
            map
              (shown p.topic_name p.partition_id)
              (take max (drop (b + length rs - b) (rs ++ more))))
    inside = ground arith

module _ (lib : Codecs) (laws : CodecLaws lib) where
  -- After `append` of at least one message to a chain of segments, a fetch from the offset that
  -- `append` returned gives exactly these messages, each with the key, the value and the timestamp
  -- that it was sent with, at consecutive offsets under the partition's name and number, up to the
  -- maximum of the fetch. The maximum is below 2 ^ 32, the codecs keep their laws, the segments have
  -- been open since they were created, and the conditions of `append` hold: no file is in the way of
  -- a new segment, the records fit the format, and offsets and bytes stay below 2 ^ 64.
  pub append-fetch :
      (c : SegmentConfig) (dir : Directory) (p : Partition) (b : ℕ) (rss : List (List DiskRecord))
      (m : Message) (ms : List Message) (max : ℕ)
      → p.config ≡ c
      → Chain (Kept lib c) b p.segments rss
      → 0 < length p.segments
      → 0 < c.max_size
      → dir.log (b + length (all_records rss)) ≡ none
      → dir.index (b + length (all_records rss)) ≡ none
      → All (IsStored lib) (records_of c (b + length (all_records rss)) (m ∷ ms))
      → b + length (all_records rss) + length (m ∷ ms) + length (all_records rss) < 2 ^ 64
      → length (log_bytes lib (all_records rss))
          + length (log_bytes lib (records_of c (b + length (all_records rss)) (m ∷ ms)))
        < 2 ^ 64
      → max < 2 ^ 32
      → (p' : Partition) × (append lib dir p (m ∷ ms) ≡ (p', ok (b + length (all_records rss))))
        × (fetch lib p' (b + length (all_records rss)) max
            ≡ ok (
                take max
                  (delivered p.topic_name p.partition_id (b + length (all_records rss)) (m ∷ ms))))
  append-fetch c dir p b rss m ms max config h some_segment limit no_log no_index stored room small
        bound =
      let n = b + length (all_records rss) in
      let (ss, rss', e, h', all, left) =
        append-Chain lib c dir p config b rss m ms h some_segment limit no_log no_index stored
          (omega arith) small in
      (
        record p { segments = ss },
        e,
        fetch-records_from lib laws (record p { segments = ss }) rss' b n max
              (Chain-map (Kept lib c) (Reads lib) (Kept-Reads lib c) b ss rss' h') left
              (omega (
                arith,
                ap length all,
                length-append (all_records rss) (records_of c n (m ∷ ms)),
                length-records_of c n (m ∷ ms),
              ))
              bound
            ∙ ap (λ l. fetched p b l n max) all
            ∙ fetched_at_end p b max (all_records rss) (records_of c n (m ∷ ms))
            ∙ ap ok (fetched_messages p.topic_name p.partition_id max c n (m ∷ ms)),
      )
