-- ===== src/Broker/Server/RoundTrip.antt =====
-- What broker/src/server.rs has produced it fetches.
use gaffa.Prelude.{
  str_eq, ℕ, ◌+◌, ◌%◌, ◌^◌, ◌<◌, ◌≡◌, ap, String, none, some, List, ◌∷◌, length, take, All, add64,
}
use gaffa.Prelude.Maps.{find-put_same, str-Lawful}
use gaffa.Common.Error.{ok}
use gaffa.Protocol.Messages.{Message, Record, Request, Response}
use gaffa.Storage.Compression.{Codecs, CodecLaws}
use gaffa.Storage.Record.{DiskRecord}
use gaffa.Storage.Segment.{SegmentConfig}
use gaffa.Storage.Segment.Log.{IsStored, log_bytes}
use gaffa.Storage.Segment.Appending.Rounds.{records_of}
use gaffa.Storage.Partition.{Partition}
use gaffa.Storage.Partition.RoundTrip.{delivered}
use gaffa.Storage.Partition.Chain.{Chain, all_records}
use gaffa.Storage.Partition.Appending.Active.{Kept}
use gaffa.Storage.Partition.RoundTrip as PartitionRoundTrip
use gaffa.Storage.Topic
use gaffa.Storage.Topic.{Topic, TopicManager, get_topic, get_partition}
use gaffa.Storage.Topic.RoundTrip as TopicRoundTrip
use gaffa.Storage.Topic.RoundTrip.{after}
use gaffa.Broker.Replication.{update_leader_offset}
use gaffa.Broker.Server.Logs.{set_topic}
use gaffa.Broker.Server.{Server, World, process_request, on_produce, on_fetch}

get_topic-set_topic :
    (m : TopicManager) (name : String) (t : Topic) → get_topic (set_topic name t m) name ≡ ok t
unfolding get_topic
get_topic-set_topic m name t = rw (get_topic, find-put_same str_eq str-Lawful name t m.topics)

module _ (lib : Codecs) (w : World) (s : Server) (name : String) (i : ℕ) (t t' : Topic) where
  -- The server after messages went to the topic.
  abbrev stored : ℕ → Server
  stored offset = record s {
    topic_manager = set_topic name t' s.topic_manager;
    cluster = update_leader_offset s.cluster name i offset;
  }

  produced :
      (messages : List Message) (base : ℕ)
      → get_topic s.topic_manager name ≡ ok t
      → Topic.append lib (w.dirs name) t i messages ≡ (t', ok base)
      → process_request lib w s (Request.produce name i messages) ≡ (
        stored (add64 base (length messages % 2 ^ 32)),
        some (Response.produce_success name i base (length messages % 2 ^ 32)),
      )
  unfolding process_request on_produce
  produced messages base h a = rw (on_produce, h, a, ap (λ r. r.0) a)

  fetched :
      (v : World) (end offset max : ℕ) (records : List Record)
      → Topic.fetch lib t' i offset max ≡ ok records
      → process_request lib v (stored end) (Request.fetch name i offset max)
        ≡ (stored end, some (Response.fetch_success name i records))
  unfolding process_request on_fetch
  fetched v end offset max records f = rw (on_fetch, get_topic-set_topic s.topic_manager name t', f)

module _ (lib : Codecs) (laws : CodecLaws lib) where
  -- A server that has the topic and the partition answers `Produce` of at least one message with the
  -- next offset of the partition and the number of messages, and then answers `Fetch` from that
  -- offset with exactly the messages, up to the maximum of the request, and is not
  -- changed by it: under the conditions that `append` and `fetch` of the partition have.
  pub produce-fetch :
      (w v : World) (s : Server) (name : String) (i : ℕ) (t : Topic) (c : SegmentConfig)
      (p : Partition) (b : ℕ) (rss : List (List DiskRecord)) (m : Message) (ms : List Message)
      (max : ℕ)
      → get_topic s.topic_manager name ≡ ok t
      → get_partition t i ≡ ok p
      → p.config ≡ c
      → Chain (Kept lib c) b p.segments rss
      → 0 < length p.segments
      → 0 < c.max_size
      → (w.dirs name i).log (b + length (all_records rss)) ≡ none
      → (w.dirs name i).index (b + length (all_records rss)) ≡ none
      → All (IsStored lib) (records_of c (b + length (all_records rss)) (m ∷ ms))
      → b + length (all_records rss) + length (m ∷ ms) + length (all_records rss) < 2 ^ 64
      → length (log_bytes lib (all_records rss))
          + length (log_bytes lib (records_of c (b + length (all_records rss)) (m ∷ ms)))
        < 2 ^ 64
      → max < 2 ^ 32
      → (s' : Server) × (process_request lib w s (Request.produce name i (m ∷ ms)) ≡ (
        s',
        some (
            Response.produce_success name i
              (b + length (all_records rss))
              (length (m ∷ ms) % 2 ^ 32)),
      ))
        × (process_request lib v s' (Request.fetch name i (b + length (all_records rss)) max) ≡ (
          s',
          some (
              Response.fetch_success name i (
                take max
                  (delivered p.topic_name p.partition_id (b + length (all_records rss)) (m ∷ ms)))),
        ))
  produce-fetch w v s name i t c p b rss m ms max found found_p config h some_segment limit no_log
        no_index stored_all room small bound =
      let base = b + length (all_records rss) in
      let (q, a, f) =
        PartitionRoundTrip.append-fetch lib laws c (w.dirs name i) p b rss m ms max config h
          some_segment limit no_log no_index stored_all room small bound in
      let (a', f') =
        TopicRoundTrip.append-fetch lib (w.dirs name) t i p q (m ∷ ms) base base max
          (take max (delivered p.topic_name p.partition_id base (m ∷ ms))) found_p a f in
      let count = length (m ∷ ms) % 2 ^ 32 in
      let t' = after lib (w.dirs name) t i p q in
      (
        stored lib w s name i t t' (add64 base count),
        produced lib w s name i t t' (m ∷ ms) base found a',
        fetched lib w s name i t t' v (add64 base count) base max
            (take max (delivered p.topic_name p.partition_id base (m ∷ ms))) f',
      )
