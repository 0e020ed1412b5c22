-- ===== src/Broker/Server/Peers.antt =====
-- broker/src/server.rs: the requests of other brokers and on the cluster.
use gaffa.Prelude.{ℕ, String, Option, none, some, map}
use gaffa.Common.Error.{ok, err, panic}
use gaffa.Protocol.Messages.{TopicPartitionMetadata, Response}
use gaffa.Storage.Compression.{Codecs}
use gaffa.Broker.Cluster.{
  PartitionReplicaState, new_broker, register_broker, get_alive_brokers, get_all_partition_states,
}
use gaffa.Broker.Replication.{handle_replication_fetch}
use gaffa.Broker.Server.State.{Server, World}

unfoldable pub on_register_broker : World → Server → ℕ → String → ℕ → Server × Option Response
on_register_broker w s broker_id host port = (
  record s { cluster = register_broker s.cluster (new_broker w.now broker_id host port) },
  some (Response.register_broker_success broker_id),
)

abbrev pub partition_metadata : World → PartitionReplicaState → TopicPartitionMetadata
partition_metadata w state = record {
  topic = state.topic;
  partition = state.partition;
  leader = state.leader;
  replicas = state.replicas;
  isr = w.order state.isr;
}

unfoldable pub on_get_cluster_metadata : World → Server → Response
on_get_cluster_metadata w s =
    Response.cluster_metadata
      (map (λ b. record { id = b.id; host = b.host; port = b.port })
        (get_alive_brokers s.cluster w.now))
      (map (partition_metadata w) (get_all_partition_states s.cluster))

module _ (lib : Codecs) where
  unfoldable pub on_replication_fetch : Server → String → ℕ → ℕ → Option Response
  on_replication_fetch s topic partition offset =
      elim (handle_replication_fetch lib s.topic_manager s.cluster
        (record { topic = topic; partition = partition; offset = offset; max_records = 1000 })) [
          | panic ↦ none
          | err e ↦ none
          | ok none ↦ some (Response.replication_fetch_error "Not the leader for this partition")
          | ok (some r) ↦
              some (Response.replication_fetch_success r.records r.high_watermark r.leader_epoch)
        ]
