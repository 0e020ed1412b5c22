-- ===== src/Broker/Server.antt =====
-- broker/src/server.rs: the server, and what it does with each request. The handles that the source
-- clones share one state, the record `Server`; a request is one step on it. The accept loop and the
-- timers are the environment that chooses the next step.
pub mod State
pub mod Logs
pub mod Groups
pub mod Peers
pub mod Answers
pub mod RoundTrip
pub use State.{Server, World}
unfoldable pub use Logs.{on_create_topic, on_produce, on_fetch, on_get_metadata, on_get_partitions}
unfoldable pub use Groups.{
  on_join_group, on_leave_group, on_heartbeat, on_commit_offset, on_fetch_offset,
}
unfoldable pub use Peers.{on_register_broker, on_get_cluster_metadata, on_replication_fetch}
use gaffa.Prelude.{
  ℕ, zero, suc, ◌+◌, ◌%◌, ◌^◌, String, str_eq, Bool, true, false, Option, none, some, List, [], ◌∷◌,
  map, length, if◌then◌else◌, add64,
}
use gaffa.Prelude.Maps.{put}
use gaffa.Common.Error.{GaffaError, Result, ok, err, panic, to_string}
use gaffa.Common.Config.{BrokerConfig}
use gaffa.Protocol.Messages.{
  Message, Record, TopicMetadata, topic_metadata, BrokerMetadata, TopicPartitionMetadata, Request,
  Response, range,
}
use gaffa.Storage.Compression.{Codecs}
use gaffa.Storage.Partition.{Directory}
use gaffa.Storage.Topic
use gaffa.Storage.Topic.{Topic, TopicManager, TopicDir, open_manager, get_topic, list_topics}
use gaffa.Broker.Cluster.{
  ClusterMetadata, PartitionReplicaState, new_cluster, new_broker, register_broker,
  set_partition_replicas, get_alive_brokers, get_all_partition_states,
}
use gaffa.Broker.Coordinator
use gaffa.Broker.Coordinator.{GroupCoordinator, update_topic_partitions}
use gaffa.Broker.OffsetManager
use gaffa.Broker.OffsetManager.{OffsetManager, Write}
use gaffa.Broker.Replication
use gaffa.Broker.Replication.{
  ReplicationManager, assign_partition_replicas, handle_replication_fetch, update_leader_offset,
  check_broker_health,
}

module _ (lib : Codecs) where
  unfoldable pub process_request : World → Server → Request → Server × Option Response
  unfolding on_create_topic on_produce on_fetch on_get_metadata on_get_partitions on_join_group
      on_leave_group on_heartbeat on_commit_offset on_fetch_offset on_register_broker
      on_get_cluster_metadata on_replication_fetch
  process_request w s (Request.create_topic name partitions) = on_create_topic w s name partitions
  process_request w s (Request.produce topic partition messages) =
      on_produce lib w s topic partition messages
  process_request w s (Request.fetch topic partition offset max_messages) =
      (s, on_fetch lib s topic partition offset max_messages)
  process_request w s (Request.get_metadata topics) = (s, some (on_get_metadata s topics))
  process_request w s (Request.get_partitions topic) = (s, on_get_partitions s topic)
  process_request w s Request.list_topics =
      (s, some (Response.topics (list_topics s.topic_manager)))
  process_request w s (Request.join_group group_id member_id topics) =
      on_join_group w s group_id member_id topics
  process_request w s (Request.leave_group group_id member_id) =
      on_leave_group w s group_id member_id
  process_request w s (Request.heartbeat group_id member_id) = on_heartbeat w s group_id member_id
  process_request w s (Request.commit_offset group_id topic partition offset) =
      on_commit_offset w s group_id topic partition offset
  process_request w s (Request.fetch_offset group_id topic partition) =
      (s, on_fetch_offset s group_id topic partition)
  process_request w s (Request.register_broker broker_id host port) =
      on_register_broker w s broker_id host port
  process_request w s Request.get_cluster_metadata = (s, some (on_get_cluster_metadata w s))
  process_request w s (Request.replication_fetch broker_id topic partition offset) =
      (s, on_replication_fetch lib s topic partition offset)

  -- `handle_connection` on what the stream gives: it ends with the stream, with the first request
  -- that cannot be read, with a response that cannot be sent, and with a panic. It returns the
  -- responses that were sent. `worlds` and `sends` give the world and the outcome of the sending for
  -- each request.
  unfoldable pub handle_connection :
      List (Result Request)
      → (ℕ → World)
      → (ℕ → Result (Unit {0}))
      → ℕ
      → Server
      → Server × (List Response × Result (Unit {0}))
  unfolding process_request
  handle_connection [] worlds sends i s = (s, ([], ok tt))
  handle_connection (panic ∷ rest) worlds sends i s = (s, ([], panic))
  handle_connection (err e ∷ rest) worlds sends i s = (s, ([], err e))
  handle_connection (ok request ∷ rest) worlds sends i s =
      let (s', response) = process_request (worlds i) s request in
      let (t, (responses, outcome)) = handle_connection rest worlds sends (i + 1) s' in
      elim response [
        | none ↦ (s', ([], panic))
        | some r ↦ elim (sends i) [
          | panic ↦ (s', ([], panic))
          | err e ↦ (s', ([], err e))
          | ok sent ↦ (t, (r ∷ responses, outcome))
        ]
      ]
