-- ===== src/Broker/Cluster.antt =====
-- broker/src/cluster.rs: the brokers of a cluster and the replicas of its partitions. A `DashMap`
-- is an association list, and an entry is locked while it changes, so a method is one step. The
-- order in which a `HashSet` is iterated over is the parameter `order`.
pub mod Watermark
pub mod Failover
pub mod Brokers
use gaffa.Prelude.{
  ℕ, ◌+◌, ◌-◌, ◌<◌, ◌≤◌, ◌≡◌, String, str_eq, Bool, true, false, ◌&&◌, Option, none, some, List, [],
  ◌∷◌, map, ltb, leb, ◌==◌, if◌then◌else◌, min, add32, add64,
}
use gaffa.Prelude.Maps.{find, put, member, insert, remove}

-- An `Instant` is a number of nanoseconds, and `now` is the clock's reading.
pub record BrokerInfo : Type 0 where
  pub id : ℕ
  pub host : String
  pub port : ℕ
  pub last_heartbeat : Option ℕ

unfoldable pub new_broker : ℕ → ℕ → String → ℕ → BrokerInfo
new_broker now id host port = record {
  id = id;
  host = host;
  port = port;
  last_heartbeat = some now;
}

unfoldable pub is_alive : ℕ → ℕ → BrokerInfo → Bool
is_alive now timeout b = elim b.last_heartbeat [
  | none ↦ false
  | some last ↦ ltb (now - last) timeout
]

unfoldable pub update_heartbeat : ℕ → BrokerInfo → BrokerInfo
update_heartbeat now b = record b { last_heartbeat = some now }

pub record PartitionReplicaState : Type 0 where
  pub topic : String
  pub partition : ℕ
  pub leader : ℕ
  pub replicas : List ℕ
  pub isr : List ℕ
  pub replica_offsets : List (ℕ × ℕ)
  pub high_watermark : ℕ
  pub leader_epoch : ℕ

-- `replicas.iter().copied().collect()` into a set, and into a map to 0.
abbrev pub set_of : List ℕ → List ℕ
set_of [] = []
set_of (x ∷ xs) = insert ◌==◌ x (set_of xs)

abbrev pub zeros_of : List ℕ → List (ℕ × ℕ)
zeros_of [] = []
zeros_of (x ∷ xs) = put ◌==◌ x 0 (zeros_of xs)

unfoldable pub new : String → ℕ → ℕ → List ℕ → PartitionReplicaState
new topic partition leader replicas = record {
  topic = topic;
  partition = partition;
  leader = leader;
  replicas = replicas;
  isr = set_of replicas;
  replica_offsets = zeros_of replicas;
  high_watermark = 0;
  leader_epoch = 0;
}

-- `unwrap_or` of the source.
abbrev pub get_or {ℓ} : {A : Type ℓ} → A → Option A → A
get_or default none = default
get_or default (some a) = a

-- The smallest of the offsets that the brokers have, if any of them has one.
unfoldable pub min_offset : List (ℕ × ℕ) → List ℕ → Option ℕ
min_offset offsets [] = none
min_offset offsets (id ∷ ids) =
    let rest = min_offset offsets ids in
    elim (find ◌==◌ id offsets) [
      | none ↦ rest
      | some o ↦ elim rest [ none ↦ some o | some r ↦ some (min o r) ]
    ]

unfoldable pub is_leader_in_sync : PartitionReplicaState → Bool
is_leader_in_sync s = member ◌==◌ s.leader s.isr

unfoldable pub update_high_watermark : PartitionReplicaState → PartitionReplicaState
unfolding min_offset
update_high_watermark s = elim s.isr [
  | [] ↦ s
  | id ∷ ids ↦ record s { high_watermark = get_or 0 (min_offset s.replica_offsets (id ∷ ids)) }
]

-- `update_replica_offset` of a partition's state.
unfoldable pub update_offset : PartitionReplicaState → ℕ → ℕ → ℕ → PartitionReplicaState
unfolding update_high_watermark
update_offset s broker_id offset lag_threshold =
    let offsets = put ◌==◌ broker_id offset s.replica_offsets in
    let leader_offset = get_or 0 (find ◌==◌ s.leader offsets) in
    let isr =
      if leb leader_offset (add64 offset lag_threshold)
      then insert ◌==◌ broker_id s.isr
      else remove ◌==◌ broker_id s.isr in
    update_high_watermark (record s { replica_offsets = offsets; isr = isr })

module _ (order : List ℕ → List ℕ) where
  unfoldable pub elect_new_leader : PartitionReplicaState → PartitionReplicaState × Option ℕ
  elect_new_leader s = elim (order s.isr) [
    | id ∷ ids ↦ (record s { leader = id; leader_epoch = add32 s.leader_epoch 1 }, some id)
    | [] ↦ elim s.replicas [
      | id ∷ ids ↦ (
        record s { leader = id; leader_epoch = add32 s.leader_epoch 1; isr = insert ◌==◌ id s.isr },
        some id,
      )
      | [] ↦ (s, none)
    ]
  ]

  -- A round of the loop of `handle_broker_failure`: the state, and the new leader if there is one.
  unfoldable pub fail_over : ℕ → PartitionReplicaState → PartitionReplicaState × Option ℕ
  unfolding elect_new_leader
  fail_over failed s =
      let out = record s { isr = remove ◌==◌ failed s.isr } in
      if s.leader == failed then elect_new_leader out else (out, none)

-- A topic and a partition.
abbrev pub Key : Type 0
Key = String × ℕ

abbrev pub key_eq : Key → Key → Bool
key_eq k l = str_eq k.0 l.0 && (k.1 == l.1)

pub record ClusterMetadata : Type 0 where
  pub brokers : List (ℕ × BrokerInfo)
  pub partition_states : List (Key × PartitionReplicaState)
  pub broker_id : ℕ
  pub broker_timeout : ℕ
  pub isr_lag_threshold : ℕ

unfoldable pub new_cluster : ℕ → ℕ → ℕ → ClusterMetadata
new_cluster broker_id broker_timeout isr_lag_threshold = record {
  brokers = [];
  partition_states = [];
  broker_id = broker_id;
  broker_timeout = broker_timeout;
  isr_lag_threshold = isr_lag_threshold;
}

unfoldable pub register_broker : ClusterMetadata → BrokerInfo → ClusterMetadata
register_broker c b = record c { brokers = put ◌==◌ b.id b c.brokers }

unfoldable pub update_broker_heartbeat : ClusterMetadata → ℕ → ℕ → ClusterMetadata
unfolding update_heartbeat
update_broker_heartbeat c now broker_id = elim (find ◌==◌ broker_id c.brokers) [
  | none ↦ c
  | some b ↦ record c { brokers = put ◌==◌ broker_id (update_heartbeat now b) c.brokers }
]

unfoldable pub alive_of : ℕ → ℕ → List (ℕ × BrokerInfo) → List BrokerInfo
unfolding is_alive
alive_of now timeout [] = []
alive_of now timeout (e ∷ es) =
    let rest = alive_of now timeout es in if is_alive now timeout e.1 then e.1 ∷ rest else rest

unfoldable pub get_alive_brokers : ClusterMetadata → ℕ → List BrokerInfo
unfolding alive_of
get_alive_brokers c now = alive_of now c.broker_timeout c.brokers

unfoldable pub is_broker_alive : ClusterMetadata → ℕ → ℕ → Bool
unfolding is_alive
is_broker_alive c now broker_id = elim (find ◌==◌ broker_id c.brokers) [
  | none ↦ false
  | some b ↦ is_alive now c.broker_timeout b
]

unfoldable pub set_partition_replicas : ClusterMetadata → String → ℕ → ℕ → List ℕ → ClusterMetadata
unfolding new
set_partition_replicas c topic partition leader replicas =
    let state : PartitionReplicaState = elim (find key_eq (topic, partition) c.partition_states) [
      | some s ↦ record s { leader = leader; replicas = replicas; isr = set_of replicas }
      | none ↦ new topic partition leader replicas
    ] in
    record c { partition_states = put key_eq (topic, partition) state c.partition_states }

unfoldable pub get_partition_leader : ClusterMetadata → String → ℕ → Option ℕ
get_partition_leader c topic partition = elim (find key_eq (topic, partition) c.partition_states) [
  | none ↦ none
  | some s ↦ some s.leader
]

unfoldable pub get_partition_replicas : ClusterMetadata → String → ℕ → List ℕ
get_partition_replicas c topic partition =
    elim (find key_eq (topic, partition) c.partition_states) [ none ↦ [] | some s ↦ s.replicas ]

unfoldable pub get_partition_isr : ClusterMetadata → String → ℕ → List ℕ
get_partition_isr c topic partition = elim (find key_eq (topic, partition) c.partition_states) [
  | none ↦ []
  | some s ↦ s.isr
]

unfoldable pub get_high_watermark : ClusterMetadata → String → ℕ → ℕ
get_high_watermark c topic partition = elim (find key_eq (topic, partition) c.partition_states) [
  | none ↦ 0
  | some s ↦ s.high_watermark
]

unfoldable pub update_replica_offset : ClusterMetadata → String → ℕ → ℕ → ℕ → ClusterMetadata
unfolding update_offset
update_replica_offset c topic partition broker_id offset =
    elim (find key_eq (topic, partition) c.partition_states) [
      | none ↦ c
      | some s ↦
          let state = update_offset s broker_id offset c.isr_lag_threshold in
          record c { partition_states = put key_eq (topic, partition) state c.partition_states }
    ]

unfoldable pub is_partition_leader : ClusterMetadata → String → ℕ → Bool
unfolding get_partition_leader
is_partition_leader c topic partition = elim (get_partition_leader c topic partition) [
  | none ↦ false
  | some l ↦ l == c.broker_id
]

unfoldable pub get_all_partition_states : ClusterMetadata → List PartitionReplicaState
get_all_partition_states c = map (λ e. e.1) c.partition_states

-- The new leaders of `handle_broker_failure`: topic, partition and broker.
abbrev pub NewLeader : Type 0
NewLeader = Key × ℕ

module _ (order : List ℕ → List ℕ) where
  unfoldable pub fail_over_all :
      ℕ → List (Key × PartitionReplicaState) → List (Key × PartitionReplicaState) × List NewLeader
  unfolding fail_over
  fail_over_all failed [] = ([], [])
  fail_over_all failed (e ∷ es) =
      let (rest, new_leaders) = fail_over_all failed es in
      let (s, elected) = fail_over order failed e.1 in
      elim elected [
        | none ↦ ((e.0, s) ∷ rest, new_leaders)
        | some id ↦ ((e.0, s) ∷ rest, ((s.topic, s.partition), id) ∷ new_leaders)
      ]

  unfoldable pub handle_broker_failure : ClusterMetadata → ℕ → ClusterMetadata × List NewLeader
  unfolding fail_over_all
  handle_broker_failure c failed =
      let (states, new_leaders) = fail_over_all failed c.partition_states in
      (record c { partition_states = states }, new_leaders)
