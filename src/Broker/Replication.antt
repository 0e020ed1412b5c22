-- ===== src/Broker/Replication.antt =====
-- broker/src/replication.rs: the replicas of a partition, the offsets of followers, and the check of
-- the brokers. The manager shares the cluster and the topics with the server, so they are arguments;
-- the own state of the manager is the map of the followers' offsets.
pub mod Assignment
pub mod Serving
pub mod Acknowledgement
pub mod Succession
pub mod Health
use gaffa.Prelude.{
  ℕ, zero, suc, ◌+◌, ◌-◌, ◌%◌, String, str_eq, Bool, true, false, not, ◌&&◌, Option, none, some,
  List, [], ◌∷◌, map, length, get_elem?, ltb, leb, ◌==◌, if◌then◌else◌, min,
}
use gaffa.Prelude.Maps.{find, put, member}
use gaffa.Common.Error.{Result, ok, err, panic, ◌>>=◌}
use gaffa.Protocol.Messages.{Record}
use gaffa.Storage.Compression.{Codecs}
use gaffa.Storage.Partition
use gaffa.Storage.Topic.{TopicManager, get_topic, get_partition}
use gaffa.Broker.Cluster.{
  BrokerInfo, PartitionReplicaState, ClusterMetadata, Key, key_eq, get_or, get_alive_brokers,
  get_all_partition_states, get_high_watermark, is_partition_leader, update_replica_offset,
  handle_broker_failure,
}
use gaffa.Broker.Cluster.Brokers.{ids_of}

pub record ReplicationFetchRequest : Type 0 where
  pub topic : String
  pub partition : ℕ
  pub offset : ℕ
  pub max_records : ℕ

pub record ReplicationFetchResponse : Type 0 where
  pub records : List Record
  pub high_watermark : ℕ
  pub leader_epoch : ℕ

pub record ReplicationManager : Type 0 where
  pub follower_state : List (Key × ℕ)
  pub replication_factor : ℕ
  pub max_isr_lag : ℕ

unfoldable pub new : ℕ → ℕ → ReplicationManager
new replication_factor max_isr_lag = record {
  follower_state = [];
  replication_factor = replication_factor;
  max_isr_lag = max_isr_lag;
}

-- The brokers at the places `start + i`, `start + i + 1`, … of the ring, `count` of them.
unfoldable pub ring : List BrokerInfo → ℕ → ℕ → ℕ → Result (List ℕ)
ring alive start i zero = ok []
ring alive start i (suc count) =
    let rest = ring alive start (i + 1) count in
    elim (get_elem? alive ((start + i) % length alive)) [
      | none ↦ panic
      | some b ↦ rest >>= λ ids. ok (b.id ∷ ids)
    ]

-- The first replica leads; `replicas[0]` panics when there is none.
abbrev pub led : List ℕ → Result (ℕ × List ℕ)
led [] = panic
led (id ∷ ids) = ok (id, id ∷ ids)

unfoldable pub assign_partition_replicas :
    ReplicationManager → ClusterMetadata → ℕ → ℕ → Result (ℕ × List ℕ)
unfolding ring
assign_partition_replicas r c now partition = elim (get_alive_brokers c now) [
  | [] ↦ ok (c.broker_id, c.broker_id ∷ [])
  | b ∷ bs ↦
      ring (b ∷ bs) (partition % length (b ∷ bs)) 0 (min r.replication_factor (length (b ∷ bs)))
      >>= led
]

-- The next offset of the partition, if the broker has it.
unfoldable pub local_offset : TopicManager → String → ℕ → Option ℕ
local_offset m topic partition = elim (get_topic m topic) [
  | panic ↦ none
  | err e ↦ none
  | ok t ↦ elim (get_partition t partition) [
    | panic ↦ none
    | err e ↦ none
    | ok p ↦ some (Partition.next_offset p)
  ]
]

-- A round of `follower_replication_loop`: whether the loop goes on, and what has changed.
unfoldable pub replication_round :
    TopicManager
    → ReplicationManager
    → ClusterMetadata
    → String
    → ℕ
    → Bool × (ReplicationManager × ClusterMetadata)
unfolding local_offset
replication_round m r c topic partition =
    let current_offset = get_or 0 (find key_eq (topic, partition) r.follower_state) in
    if is_partition_leader c topic partition
    then (false, (r, c))
    else (elim (local_offset m topic partition) [
      | none ↦ (true, (r, c))
      | some next ↦
          if ltb current_offset next
          then (
            true,
            (
              record r { follower_state = put key_eq (topic, partition) next r.follower_state },
              update_replica_offset c topic partition c.broker_id next,
            ),
          )
          else (true, (r, c))
    ])

-- `iter().find(..)` over the states of all partitions.
unfoldable pub find_state : String → ℕ → List PartitionReplicaState → Option PartitionReplicaState
find_state topic partition [] = none
find_state topic partition (s ∷ ss) =
    if str_eq s.topic topic && (s.partition == partition)
    then some s
    else find_state topic partition ss

-- `unwrap_or_default()` of a fetch; a panic stays one.
abbrev pub or_default : Result (List Record) → Result (List Record)
or_default panic = panic
or_default (err e) = ok []
or_default (ok rs) = ok rs

module _ (lib : Codecs) where
  unfoldable pub local_records : TopicManager → ReplicationFetchRequest → Result (List Record)
  local_records m request = elim (get_topic m request.topic) [
    | panic ↦ panic
    | err e ↦ ok []
    | ok t ↦ elim (get_partition t request.partition) [
      | panic ↦ panic
      | err e ↦ ok []
      | ok p ↦ or_default (Partition.fetch lib p request.offset request.max_records)
    ]
  ]

  unfoldable pub handle_replication_fetch :
      TopicManager
      → ClusterMetadata
      → ReplicationFetchRequest
      → Result (Option ReplicationFetchResponse)
  unfolding local_records find_state
  handle_replication_fetch m c request =
      let epoch : ℕ =
        elim (find_state request.topic request.partition (get_all_partition_states c)) [
          | none ↦ 0
          | some s ↦ s.leader_epoch
        ] in
      let response = local_records m request >>= λ rs. ok (
        some (record {
          records = rs;
          high_watermark = get_high_watermark c request.topic request.partition;
          leader_epoch = epoch;
        })) in
      if is_partition_leader c request.topic request.partition then response else ok none

unfoldable pub update_leader_offset : ClusterMetadata → String → ℕ → ℕ → ClusterMetadata
update_leader_offset c topic partition offset =
    update_replica_offset c topic partition c.broker_id offset

module _ (order : List ℕ → List ℕ) where
  -- The loop of `check_broker_health` over the states that were read at its start.
  unfoldable pub check_states :
      List ℕ → List PartitionReplicaState → ClusterMetadata → ClusterMetadata
  check_states alive [] c = c
  check_states alive (s ∷ ss) c =
      check_states alive ss
        (if member ◌==◌ s.leader alive then c else (handle_broker_failure order c s.leader).0)

  unfoldable pub check_broker_health : ClusterMetadata → ℕ → ClusterMetadata
  unfolding check_states
  check_broker_health c now =
      check_states (ids_of (get_alive_brokers c now)) (get_all_partition_states c) c

unfoldable pub get_replication_lag : ClusterMetadata → String → ℕ → ℕ → Option ℕ
unfolding find_state
get_replication_lag c topic partition follower_id =
    elim (find_state topic partition (get_all_partition_states c)) [
      | none ↦ none
      | some s ↦ elim (find ◌==◌ s.leader s.replica_offsets) [
        | none ↦ none
        | some leader_offset ↦ elim (find ◌==◌ follower_id s.replica_offsets) [
          | none ↦ none
          | some follower_offset ↦ some (leader_offset - follower_offset)
        ]
      ]
    ]

unfoldable pub can_acknowledge_write : ClusterMetadata → String → ℕ → ℕ → Bool
can_acknowledge_write c topic partition offset = leb offset (get_high_watermark c topic partition)

pub record ReplicationStats : Type 0 where
  pub total_partitions : ℕ
  pub leader_partitions : ℕ
  pub follower_partitions : ℕ
  pub under_replicated_partitions : ℕ

-- `filter(..).count()`
unfoldable pub count_where : (PartitionReplicaState → Bool) → List PartitionReplicaState → ℕ
count_where test [] = 0
count_where test (s ∷ ss) = let n = count_where test ss in if test s then n + 1 else n

unfoldable pub get_replication_stats : ClusterMetadata → ReplicationStats
unfolding count_where
get_replication_stats c =
    let states = get_all_partition_states c in
    record {
      total_partitions = length states;
      leader_partitions = count_where (λ s. s.leader == c.broker_id) states;
      follower_partitions =
          count_where (λ s. not (s.leader == c.broker_id) && member ◌==◌ c.broker_id s.replicas)
            states;
      under_replicated_partitions =
          count_where (λ s. ltb (length s.isr) (length s.replicas)) states;
    }
