-- ===== src/Broker/Examples/Replicas.antt =====
-- A run of a cluster of broker/src/cluster.rs with three replicas of a partition.
use gaffa.Prelude.{◌≤◌, refl, [], ◌∷◌}
use gaffa.Broker.Cluster.{
  ClusterMetadata, PartitionReplicaState, new, new_cluster, register_broker, new_broker,
  set_partition_replicas, update_replica_offset, update_offset, get_high_watermark,
  update_high_watermark, min_offset, handle_broker_failure, fail_over_all, fail_over,
  elect_new_leader,
}
use gaffa.Broker.Replication.{can_acknowledge_write}
use gaffa.Broker.Replication.Acknowledgement.{
  Reach, start, later, registered, assigned, reported, lost, can_acknowledge_write-replica_offsets,
}

-- A broker registers, a partition is assigned, and two replicas report.
abbrev grown : ClusterMetadata
grown =
    update_replica_offset
      (update_replica_offset
        (set_partition_replicas (register_broker (new_cluster 1 30 10) (new_broker 100 1 "a" 9092))
          "orders" 0 1 (1 ∷ 2 ∷ 3 ∷ []))
        "orders" 0 1 7)
      "orders" 0 2 5

-- The leader fails, another replica leads, and the third one reports.
abbrev shrunk : ClusterMetadata
shrunk = update_replica_offset (handle_broker_failure (λ ids. ids) grown 1).0 "orders" 0 3 4

grown-Reach : Reach (λ ids. ids) 1 30 10 grown
unfolding register_broker new_cluster
grown-Reach =
    later
      (later
        (later (later start (registered (new_broker 100 1 "a" 9092)))
          (assigned "orders" 0 1 (1 ∷ 2 ∷ 3 ∷ []) refl))
        (reported "orders" 0 1 7))
      (reported "orders" 0 2 5)

shrunk-Reach : Reach (λ ids. ids) 1 30 10 shrunk
unfolding register_broker new_cluster set_partition_replicas update_replica_offset update_offset
    update_high_watermark new
shrunk-Reach = later (later grown-Reach (lost 1 ((2, refl, refl), tt))) (reported "orders" 0 3 4)

-- What the partition is then.
abbrev after : PartitionReplicaState
after = record {
  topic = "orders";
  partition = 0;
  leader = 2;
  replicas = 1 ∷ 2 ∷ 3 ∷ [];
  isr = 2 ∷ 3 ∷ [];
  replica_offsets = (3, 4) ∷ (2, 5) ∷ (1, 7) ∷ [];
  high_watermark = 4;
  leader_epoch = 1;
}

can_acknowledge_write-replica_offsets_example : 4 ≤ 5
unfolding register_broker new_cluster set_partition_replicas update_replica_offset update_offset
    update_high_watermark new min_offset handle_broker_failure fail_over_all fail_over
    elect_new_leader can_acknowledge_write get_high_watermark
can_acknowledge_write-replica_offsets_example =
    can_acknowledge_write-replica_offsets (λ ids. ids) (λ ids id. refl) 1 30 10 shrunk "orders" 0 4
      after shrunk-Reach refl refl 2 5 refl refl
