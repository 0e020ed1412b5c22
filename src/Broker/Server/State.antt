-- ===== src/Broker/Server/State.antt =====
-- broker/src/server.rs: the server's state, how it starts, and its background tasks.
use gaffa.Prelude.{ℕ, String, List}
use gaffa.Common.Error.{Result, ok, err, panic}
use gaffa.Common.Config.{BrokerConfig}
use gaffa.Storage.Compression.{Codecs}
use gaffa.Storage.Partition.{Directory}
use gaffa.Storage.Topic
use gaffa.Storage.Topic.{Topic, TopicManager, TopicDir, open_manager, get_topic, list_topics}
use gaffa.Broker.Cluster.{ClusterMetadata, new_cluster, new_broker, register_broker}
use gaffa.Broker.Coordinator
use gaffa.Broker.Coordinator.{GroupCoordinator, update_topic_partitions}
use gaffa.Broker.OffsetManager
use gaffa.Broker.OffsetManager.{OffsetManager, Write}
use gaffa.Broker.Replication
use gaffa.Broker.Replication.{
  ReplicationManager, assign_partition_replicas, handle_replication_fetch, update_leader_offset,
  check_broker_health,
}

pub record Server : Type 0 where
  pub topic_manager : TopicManager
  pub coordinator : GroupCoordinator
  pub offset_manager : OffsetManager
  pub cluster : ClusterMetadata
  pub replication_manager : ReplicationManager

-- What a step takes from the world: the clock's reading in nanoseconds, a part of a fresh UUID, what
-- the directories of a topic's partitions hold, how the writing of a file goes, and the order in
-- which a set is iterated over.
pub record World : Type 0 where
  pub now : ℕ
  pub fresh : String
  pub dirs : String → ℕ → Directory
  pub write : Write
  pub order : List ℕ → List ℕ
  pub topic_order : List String → List String

-- Thirty seconds.
abbrev pub heartbeat_timeout : ℕ
heartbeat_timeout = 30000000000

module _ (lib : Codecs) where
  -- `TopicManager::open`, or else an empty manager.
  abbrev pub opened_or_new : Result (List (TopicDir lib)) → Result TopicManager
  opened_or_new listing = elim (open_manager lib listing) [
    | panic ↦ panic
    | err e ↦ ok Topic.new_manager
    | ok m ↦ ok m
  ]

  -- `files` are the files of committed offsets, and `resolve` is where paths to them lead.
  unfoldable pub new :
      ℕ
      → BrokerConfig
      → Result (List (TopicDir lib))
      → (String → String)
      → List (String × String)
      → Result Server
  new now config listing resolve files = elim (opened_or_new listing) [
    | panic ↦ panic
    | err e ↦ err e
    | ok m ↦ ok (record {
      topic_manager = m;
      coordinator = Coordinator.new heartbeat_timeout;
      offset_manager = OffsetManager.new resolve files;
      cluster =
          register_broker (new_cluster config.broker_id heartbeat_timeout config.max_isr_lag)
            (new_broker now config.broker_id config.host config.port);
      replication_manager = Replication.new config.replication_factor config.max_isr_lag;
    })
  ]

-- What `run` does before it listens.
unfoldable pub start : Server → Server
start s = record s { offset_manager = OffsetManager.load s.offset_manager }

-- A round of each of the two background tasks.
unfoldable pub heartbeat_tick : World → Server → Server
heartbeat_tick w s = record s {
  coordinator = Coordinator.check_heartbeats w.topic_order s.coordinator w.now;
}

unfoldable pub health_tick : World → Server → Server
health_tick w s = record s { cluster = check_broker_health w.order s.cluster w.now }
