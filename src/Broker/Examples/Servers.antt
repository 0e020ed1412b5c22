-- ===== src/Broker/Examples/Servers.antt =====
-- Concrete runs of broker/src/replication.rs, offset_manager.rs and server.rs.
use gaffa.Storage.Partition.RoundTrip.{delivered}
use gaffa.Prelude.{
  false, inr, ℕ, ◌≡◌, refl, true, some, List, [], ◌∷◌, arith, length, min, take, All, ◌==◌, ◌++◌,
}
use gaffa.Prelude.Maps.{member, Distinct}
use gaffa.Common.Error.{ok}
use gaffa.Protocol.Messages.{Request, Response}
use gaffa.Storage.Segment
use gaffa.Storage.Topic.{Topic, TopicManager, get_topic, get_partition}
use gaffa.Storage.Examples.Fixtures.{plain, plain-CodecLaws}
use gaffa.Storage.Examples.Logs.{
  greeting, greeted, greeted-IsStored, length-greeted, empty_dir, orders, orders-Chain, sold,
  sold-Chain,
}
use gaffa.Broker.Cluster.{
  ClusterMetadata, PartitionReplicaState, new_cluster, new_broker, register_broker,
  get_alive_brokers, is_alive, alive_of,
}
use gaffa.Broker.Cluster.Brokers.{ids_of, register_broker-IsKeyed, IsKeyed}
use gaffa.Broker.Coordinator
use gaffa.Broker.OffsetManager
use gaffa.Broker.OffsetManager.{Write, has_slash, fetch_offset}
use gaffa.Broker.OffsetManager.Persistence.{Commit}
use gaffa.Broker.OffsetManager.Restart.{commit_all, restarted, restart-fetch_offset}
use gaffa.Broker.Replication.{
  ReplicationManager, ReplicationFetchRequest, assign_partition_replicas, check_broker_health,
  handle_replication_fetch,
}
use gaffa.Broker.Replication.Serving.{owed, handle_replication_fetch-owed}
use gaffa.Broker.Replication.Assignment as Assignment
use gaffa.Broker.Replication.Assignment.{assign-Distinct}
use gaffa.Broker.Replication.Succession.{IsLed}
use gaffa.Broker.Replication.Health.{check_broker_health-IsLed}
use gaffa.Broker.Server.{Server, World, process_request}
use gaffa.Broker.Server.Answers.{is_answered, answered}
use gaffa.Broker.Server.RoundTrip.{produce-fetch}

-- Three brokers, of which the last has not been heard of for long.
abbrev cluster : ClusterMetadata
cluster =
    register_broker
      (register_broker (register_broker (new_cluster 1 30 1000) (new_broker 100 1 "a" 9092))
        (new_broker 110 2 "b" 9092))
      (new_broker 10 3 "c" 9092)

cluster-IsKeyed : IsKeyed cluster.brokers
unfolding new_cluster
cluster-IsKeyed = register_broker-IsKeyed _ (new_broker 10 3 "c" 9092) (
    register_broker-IsKeyed _ (new_broker 110 2 "b" 9092)
      (register_broker-IsKeyed (new_cluster 1 30 1000) (new_broker 100 1 "a" 9092) tt))

abbrev manager : ReplicationManager
manager = record { follower_state = []; replication_factor = 2; max_isr_lag = 1000 }

assign-Distinct_example :
    (leader : ℕ) × (replicas : List ℕ) × (assign_partition_replicas manager cluster 120 7
      ≡ ok (leader, replicas))
    × (length replicas ≡ min 2 (length (get_alive_brokers cluster 120)))
    × All (λ id. member ◌==◌ id (ids_of (get_alive_brokers cluster 120)) ≡ true) replicas
    × Distinct replicas
    × Assignment.IsLed leader replicas
unfolding register_broker new_cluster new_broker get_alive_brokers is_alive alive_of
assign-Distinct_example =
    assign-Distinct manager cluster 120 7 cluster-IsKeyed (omega arith) (omega arith)

abbrev commits : List Commit
commits =
    record { group_id = "audit"; topic = "orders"; partition = 3; offset = 17 }
    ∷ record { group_id = "audit"; topic = "orders"; partition = 3; offset = 20 }
    ∷ []

restart-fetch_offset_example :
    fetch_offset
      (restarted (commit_all commits (OffsetManager.new (λ name. name) [])))
      "audit"
      "orders"
      3
    ≡ fetch_offset (commit_all commits (OffsetManager.new (λ name. name) [])) "audit" "orders" 3
unfolding has_slash
restart-fetch_offset_example =
    restart-fetch_offset (λ name. name) commits "audit" "orders" 3 (λ name h. refl) (ground arith)

-- A server with the topic of the storage examples.
abbrev pub shop : Topic
shop = record { name = "orders"; partitions = orders ∷ [] }

abbrev pub server : Server
server = record {
  topic_manager = record { topics = ("orders", shop) ∷ [] };
  coordinator = Coordinator.new 30;
  offset_manager = OffsetManager.new (λ name. name) [];
  cluster = cluster;
  replication_manager = manager;
}

abbrev pub world : World
world = record {
  now = 120;
  fresh = "0badcafe";
  dirs = λ name i. empty_dir;
  write = Write.written;
  order = λ ids. ids;
  topic_order = λ topics. topics;
}

answered_example :
    is_answered server
      (Request.commit_offset "audit" "orders" 3 20)
      (process_request plain world server (Request.commit_offset "audit" "orders" 3 20)).1
    ≡ true
answered_example = answered plain world server (Request.commit_offset "audit" "orders" 3 20)

produce-fetch_example :
    (s' : Server) × (process_request plain world server (Request.produce "orders" 0 (greeting ∷ []))
      ≡ (s', some (Response.produce_success "orders" 0 0 1)))
    × (process_request plain world s' (Request.fetch "orders" 0 0 10) ≡ (
      s',
      some (Response.fetch_success "orders" 0 (take 10 (delivered "orders" 3 0 (greeting ∷ [])))),
    ))
unfolding get_topic get_partition
produce-fetch_example =
    produce-fetch plain plain-CodecLaws world world server "orders" 0 shop Segment.default orders 0
      ([] ∷ []) greeting [] 10 refl refl refl orders-Chain (omega arith) (omega arith) refl refl
      (greeted-IsStored, tt) (omega arith) (omega (arith, length-greeted)) (omega arith)

-- A partition that the dead broker leads, with a living one in sync.
abbrev orphaned : PartitionReplicaState
orphaned = record {
  topic = "orders";
  partition = 0;
  leader = 3;
  replicas = 3 ∷ 1 ∷ 2 ∷ [];
  isr = 3 ∷ 1 ∷ [];
  replica_offsets = [];
  high_watermark = 0;
  leader_epoch = 4;
}

abbrev grieving : ClusterMetadata
grieving = record cluster { partition_states = (("orders", 0), orphaned) ∷ [] }

heirs :
    (id : ℕ)
    → member ◌==◌ id (3 ∷ 1 ∷ []) ≡ true
    → (id == 3) ≡ false
    → member ◌==◌ id (1 ∷ 2 ∷ []) ≡ true
heirs id m n = ground arith

check_broker_health-IsLed_example :
    All
      (λ e. IsLed (ids_of (get_alive_brokers grieving 120)) e.1)
      (check_broker_health (λ ids. ids) grieving 120).partition_states
unfolding register_broker new_cluster new_broker get_alive_brokers is_alive alive_of
check_broker_health-IsLed_example =
    check_broker_health-IsLed (λ ids. ids) grieving 120 (λ ids id. refl)
      (inr ((1, refl, refl), heirs), tt)

-- A leader with a record in its log, and a follower that asks for it.
abbrev leading : ClusterMetadata
leading = record cluster {
  partition_states = (("orders", 0), record orphaned { leader = 1; high_watermark = 1 }) ∷ [];
}

abbrev stock : TopicManager
stock = record { topics = ("orders", record { name = "orders"; partitions = sold ∷ [] }) ∷ [] }

abbrev catching_up : ReplicationFetchRequest
catching_up = record { topic = "orders"; partition = 0; offset = 0; max_records = 10 }

handle_replication_fetch-owed_example :
    handle_replication_fetch plain stock leading catching_up
    ≡ ok (
        some (record {
          records = owed sold 0 (greeted ++ []) 0 10;
          high_watermark = 1;
          leader_epoch = 4;
        }))
unfolding get_topic get_partition register_broker new_cluster
handle_replication_fetch-owed_example =
    handle_replication_fetch-owed plain plain-CodecLaws stock leading catching_up
      (record { name = "orders"; partitions = sold ∷ [] }) sold
      (record orphaned { leader = 1; high_watermark = 1 }) 0 (greeted ∷ []) refl refl (refl, tt)
      refl sold-Chain (omega arith) (omega arith) (omega arith)
