-- ===== src/Broker/Server/Logs.antt =====
-- broker/src/server.rs: the requests on topics and their messages.
use gaffa.Prelude.{
  ℕ, ◌%◌, ◌^◌, String, str_eq, Bool, true, false, Option, none, some, List, [], ◌∷◌, length,
  if◌then◌else◌, add64,
}
use gaffa.Prelude.Maps.{put}
use gaffa.Common.Error.{ok, err, panic, to_string}
use gaffa.Protocol.Messages.{Message, TopicMetadata, topic_metadata, Response, range}
use gaffa.Storage.Compression.{Codecs}
use gaffa.Storage.Topic
use gaffa.Storage.Topic.{Topic, TopicManager, TopicDir, open_manager, get_topic, list_topics}
use gaffa.Broker.Cluster.{ClusterMetadata, set_partition_replicas}
use gaffa.Broker.Replication.{ReplicationManager, assign_partition_replicas, update_leader_offset}
use gaffa.Broker.Server.State.{Server, World}

-- The loop of `CreateTopic` over the partitions.
unfoldable pub assign_all :
    ReplicationManager → ℕ → String → List ℕ → ClusterMetadata → ClusterMetadata × Bool
assign_all r now name [] c = (c, true)
assign_all r now name (i ∷ is) c = elim (assign_partition_replicas r c now i) [
  | panic ↦ (c, false)
  | err e ↦ (c, false)
  | ok (leader, replicas) ↦
      assign_all r now name is (set_partition_replicas c name i leader replicas)
]

-- The arm of each request. An arm that panics gives no response.
unfoldable pub on_create_topic : World → Server → String → ℕ → Server × Option Response
unfolding assign_all
on_create_topic w s name partitions =
    let (m, outcome) = Topic.create_topic s.topic_manager name partitions (w.dirs name) in
    elim outcome [
      | panic ↦ (s, none)
      | err e ↦ (s, some (Response.create_topic_error (to_string e)))
      | ok t ↦
          let (c, finished) =
            assign_all s.replication_manager w.now name (range partitions) s.cluster in
          (
            record s { topic_manager = m; cluster = c },
            if finished then some (Response.create_topic_success name partitions) else none,
          )
    ]

-- A topic is shared: what a call makes of it stands in its place.
abbrev pub set_topic : String → Topic → TopicManager → TopicManager
set_topic name t m = record m { topics = put str_eq name t m.topics }

module _ (lib : Codecs) where
  unfoldable pub on_produce : World → Server → String → ℕ → List Message → Server × Option Response
  on_produce w s topic partition messages = elim (get_topic s.topic_manager topic) [
    | panic ↦ (s, none)
    | err e ↦ (s, some (Response.produce_error (to_string e)))
    | ok t ↦
        let (t', outcome) = Topic.append lib (w.dirs topic) t partition messages in
        let s' : Server = record s { topic_manager = set_topic topic t' s.topic_manager } in
        elim outcome [
          | panic ↦ (s', none)
          | err e ↦ (s', some (Response.produce_error (to_string e)))
          | ok base_offset ↦
              let count = length messages % 2 ^ 32 in
              (
                record s' {
                  cluster =
                      update_leader_offset s.cluster topic partition (add64 base_offset count);
                },
                some (Response.produce_success topic partition base_offset count),
              )
        ]
  ]

  unfoldable pub on_fetch : Server → String → ℕ → ℕ → ℕ → Option Response
  on_fetch s topic partition offset max_messages = elim (get_topic s.topic_manager topic) [
    | panic ↦ none
    | err e ↦ some (Response.fetch_error (to_string e))
    | ok t ↦ elim (Topic.fetch lib t partition offset max_messages) [
      | panic ↦ none
      | err e ↦ some (Response.fetch_error (to_string e))
      | ok records ↦ some (Response.fetch_success topic partition records)
    ]
  ]

-- The metadata of the topics that are there; the others are skipped.
unfoldable pub metadata_of : TopicManager → List String → List TopicMetadata
metadata_of m [] = []
metadata_of m (name ∷ names) =
    let rest = metadata_of m names in
    elim (get_topic m name) [
      | panic ↦ rest
      | err e ↦ rest
      | ok t ↦ topic_metadata name (Topic.num_partitions t) ∷ rest
    ]

-- No name asks for all topics.
unfoldable pub on_get_metadata : Server → List String → Response
unfolding metadata_of
on_get_metadata s [] = Response.metadata (metadata_of s.topic_manager (list_topics s.topic_manager))
on_get_metadata s (t ∷ ts) = Response.metadata (metadata_of s.topic_manager (t ∷ ts))

unfoldable pub on_get_partitions : Server → String → Option Response
on_get_partitions s topic = elim (get_topic s.topic_manager topic) [
  | panic ↦ none
  | err e ↦ some (Response.partitions_error (to_string e))
  | ok t ↦ some (Response.partitions topic (Topic.num_partitions t))
]
