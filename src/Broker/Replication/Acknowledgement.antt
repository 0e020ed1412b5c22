-- ===== src/Broker/Replication/Acknowledgement.antt =====
-- What `can_acknowledge_write` of broker/src/replication.rs relies on: the watermark under the
-- changes that the operations of broker/src/cluster.rs make, in any order.
use mathlib.Core.Path.{subst}
use mathlib.Core.Option.{some-injective}
use gaffa.Prelude.{
  ℕ, ◌≤◌, ◌≡◌, refl, sym, ◌∙◌, String, Bool, true, none, some, List, [], ◌∷◌, arith, ◌==◌,
  Bool-cases, Option-cases, All, inl, inr,
}
use gaffa.Prelude.Maps.{
  find, put, member, remove, nat-Lawful, member-remove_same, member-remove_other,
}
use gaffa.Broker.Cluster.{
  BrokerInfo, Key, key_eq, PartitionReplicaState, ClusterMetadata, new, new_cluster,
  register_broker, update_broker_heartbeat, set_partition_replicas, update_replica_offset,
  update_offset, fail_over, fail_over_all, handle_broker_failure, get_high_watermark,
}
use gaffa.Broker.Cluster.Watermark.{IsWatermark, update_offset-IsWatermark}
use gaffa.Broker.Cluster.Failover.{
  IsOrder, HasOther, fail_over_other, fail_over_leader, elected, round_states,
}
use gaffa.Broker.Replication.{can_acknowledge_write}

-- A change of the cluster: a topic's partition is assigned once, and a broker fails only while each
-- partition has another in-sync replica.
pub data Step (order : List ℕ → List ℕ) (c : ClusterMetadata) : ClusterMetadata → Type 0 where
  registered : (b : BrokerInfo) → Step order c (register_broker c b)
  heard : (now id : ℕ) → Step order c (update_broker_heartbeat c now id)
  assigned :
      (topic : String) (partition leader : ℕ) (replicas : List ℕ)
      → find key_eq (topic, partition) c.partition_states ≡ none
      → Step order c (set_partition_replicas c topic partition leader replicas)
  reported :
      (topic : String) (partition id offset : ℕ)
      → Step order c (update_replica_offset c topic partition id offset)
  lost :
      (id : ℕ)
      → All (λ e. HasOther id e.1) c.partition_states
      → Step order c (handle_broker_failure order c id).0

-- The clusters that come about from a new one.
pub data Reach (order : List ℕ → List ℕ) (id timeout lag : ℕ) : ClusterMetadata → Type 0 where
  start : Reach order id timeout lag (new_cluster id timeout lag)
  later :
      {c d : ClusterMetadata}
      → Reach order id timeout lag c
      → Step order c d
      → Reach order id timeout lag d

abbrev pub AreWatermarks : List (Key × PartitionReplicaState) → Type 0
AreWatermarks es = All (λ e. IsWatermark e.1) es

module _ {K V : Type 0} (same : K → K → Bool) (P : V → Type 0) where
  find-All :
      (k : K) (v : V) (es : List (K × V)) → All (λ e. P e.1) es → find same k es ≡ some v → P v
  find-All k v [] h f = absurd (cc f)
  find-All k v (e ∷ es) (h, hs) f = elim (Bool-cases (same k e.0)) [
    | inl q ↦
        let here : find same k (e ∷ es) ≡ some e.1 = rw (q) in
        subst P (some-injective e.1 v (sym here ∙ f)) h
    | inr q ↦
        let there : find same k (e ∷ es) ≡ find same k es = rw (q) in
        find-All k v es hs (sym there ∙ f)
  ]

  put-All :
      (k : K) (v : V) (es : List (K × V))
      → All (λ e. P e.1) es
      → P v
      → All (λ e. P e.1) (put same k v es)
  put-All k v [] h p = (p, tt)
  put-All k v (e ∷ es) (h, hs) p = elim (Bool-cases (same k e.0)) [
    | inl q ↦ rw (q) (p, hs)
    | inr q ↦ rw (q) (h, put-All k v es hs p)
  ]

new-IsWatermark :
    (topic : String) (partition leader : ℕ) (replicas : List ℕ)
    → IsWatermark (new topic partition leader replicas)
unfolding new
new-IsWatermark topic partition leader replicas id o m f = omega arith

module _ (order : List ℕ → List ℕ) (failed : ℕ) (s : PartitionReplicaState) where
  stayed : (id : ℕ) → member ◌==◌ id (remove ◌==◌ failed s.isr) ≡ true → member ◌==◌ id s.isr ≡ true
  stayed id m = elim (Bool-cases (id == failed)) [
    | inl h ↦
        absurd
          (cc (member-remove_same ◌==◌ nat-Lawful failed s.isr, m, nat-Lawful.sound id failed h))
    | inr h ↦ sym (member-remove_other ◌==◌ nat-Lawful failed id s.isr h) ∙ m
  ]

  fail_over-IsWatermark :
      IsOrder order → HasOther failed s → IsWatermark s → IsWatermark (fail_over order failed s).0
  fail_over-IsWatermark law other w = elim (Bool-cases (s.leader == failed)) [
    | inr keeps ↦
        subst (λ p. IsWatermark p.0) (sym (fail_over_other order failed s keeps))
          (λ id o m f. w id o (stayed id m) f)
    | inl loses ↦
        let (leader, e, differs, inside) = elected order failed s law other in
        subst (λ p. IsWatermark p.0) (sym (fail_over_leader order failed s loses ∙ e))
          (λ id o m f. w id o (stayed id m) f)
  ]

fail_over_all-AreWatermarks :
    (order : List ℕ → List ℕ) (failed : ℕ)
    → IsOrder order
    → (es : List (Key × PartitionReplicaState)) → All (λ e. HasOther failed e.1) es
    → AreWatermarks es
    → AreWatermarks (fail_over_all order failed es).0
fail_over_all-AreWatermarks order failed law [] h w = unfold fail_over_all in tt
fail_over_all-AreWatermarks order failed law (e ∷ es) (h, hs) (w, ws) =
    subst AreWatermarks (sym (round_states order failed e es)) (
      fail_over-IsWatermark order failed e.1 law h w,
      fail_over_all-AreWatermarks order failed law es hs ws,
    )

-- What a step does to the states of the partitions.
module _ (c : ClusterMetadata) where
  register_broker_lem :
      (b : BrokerInfo) → (register_broker c b).partition_states ≡ c.partition_states
  register_broker_lem b = unfold register_broker in refl

  update_broker_heartbeat_lem :
      (now id : ℕ) → (update_broker_heartbeat c now id).partition_states ≡ c.partition_states
  unfolding update_broker_heartbeat
  update_broker_heartbeat_lem now id = ground arith

  module _ (topic : String) (partition : ℕ) where
    set_partition_replicas_lem :
        (leader : ℕ) (replicas : List ℕ)
        → find key_eq (topic, partition) c.partition_states ≡ none
        → (set_partition_replicas c topic partition leader replicas).partition_states
          ≡ put key_eq (topic, partition) (new topic partition leader replicas) c.partition_states
    unfolding set_partition_replicas
    set_partition_replicas_lem leader replicas h = rw (set_partition_replicas, h)

    update_replica_offset_unknown :
        (id offset : ℕ)
        → find key_eq (topic, partition) c.partition_states ≡ none
        → update_replica_offset c topic partition id offset ≡ c
    unfolding update_replica_offset
    update_replica_offset_unknown id offset h = rw (update_replica_offset, h)

    update_replica_offset_lem :
        (id offset : ℕ) (s : PartitionReplicaState)
        → find key_eq (topic, partition) c.partition_states ≡ some s
        → (update_replica_offset c topic partition id offset).partition_states
          ≡ put key_eq
              (topic, partition)
              (update_offset s id offset c.isr_lag_threshold)
              c.partition_states
    unfolding update_replica_offset
    update_replica_offset_lem id offset s h = rw (update_replica_offset, h)

  handle_broker_failure_lem :
      (order : List ℕ → List ℕ) (id : ℕ)
      → (handle_broker_failure order c id).0.partition_states
        ≡ (fail_over_all order id c.partition_states).0
  handle_broker_failure_lem order id = unfold handle_broker_failure in refl

module _ (order : List ℕ → List ℕ) (law : IsOrder order) where
  Step-AreWatermarks :
      {c d : ClusterMetadata}
      → Step order c d
      → AreWatermarks c.partition_states
      → AreWatermarks d.partition_states
  Step-AreWatermarks {c} (registered b) w = subst AreWatermarks (sym (register_broker_lem c b)) w
  Step-AreWatermarks {c} (heard now id) w =
      subst AreWatermarks (sym (update_broker_heartbeat_lem c now id)) w
  Step-AreWatermarks {c} (assigned topic partition leader replicas fresh) w =
      subst AreWatermarks (sym (set_partition_replicas_lem c topic partition leader replicas fresh))
        (put-All key_eq IsWatermark (topic, partition) (new topic partition leader replicas)
          c.partition_states w (new-IsWatermark topic partition leader replicas))
  Step-AreWatermarks {c} (reported topic partition id offset) w =
      elim (Option-cases (find key_eq (topic, partition) c.partition_states)) [
        | inl h ↦
            subst (λ d. AreWatermarks d.partition_states)
              (sym (update_replica_offset_unknown c topic partition id offset h)) w
        | inr (s, h) ↦
            subst AreWatermarks (sym (update_replica_offset_lem c topic partition id offset s h)) (
              put-All key_eq IsWatermark (topic, partition) _ c.partition_states w
                (update_offset-IsWatermark s id offset c.isr_lag_threshold).0)
      ]
  Step-AreWatermarks {c} (lost id others) w =
      subst AreWatermarks (sym (handle_broker_failure_lem c order id))
        (fail_over_all-AreWatermarks order id law c.partition_states others w)

  Reach-AreWatermarks :
      {id timeout lag : ℕ} {c : ClusterMetadata}
      → Reach order id timeout lag c
      → AreWatermarks c.partition_states
  Reach-AreWatermarks {id} {timeout} {lag} start = unfold new_cluster in tt
  Reach-AreWatermarks (later r step) = Step-AreWatermarks step (Reach-AreWatermarks r)

  acknowledged_below :
      (c : ClusterMetadata) (topic : String) (partition offset : ℕ) (s : PartitionReplicaState)
      → find key_eq (topic, partition) c.partition_states ≡ some s
      → can_acknowledge_write c topic partition offset ≡ true
      → offset ≤ s.high_watermark
  unfolding can_acknowledge_write get_high_watermark
  acknowledged_below c topic partition offset s h a = ground (arith, h)

  -- On a cluster that has come about from a new one by registrations, heartbeats, the assignment of
  -- new partitions, reports of offsets, and failures of brokers while every partition has another
  -- in-sync replica, in any order: when a write at an offset is acknowledged, no in-sync replica of
  -- the partition has a smaller offset as its last report, if the order of iteration gives the
  -- members of a set.
  pub can_acknowledge_write-replica_offsets :
      (id timeout lag : ℕ) (c : ClusterMetadata) (topic : String) (partition offset : ℕ)
      (s : PartitionReplicaState)
      → Reach order id timeout lag c
      → find key_eq (topic, partition) c.partition_states ≡ some s
      → can_acknowledge_write c topic partition offset ≡ true
      → (replica o : ℕ) → member ◌==◌ replica s.isr ≡ true
      → find ◌==◌ replica s.replica_offsets ≡ some o
      → offset ≤ o
  can_acknowledge_write-replica_offsets id timeout lag c topic partition offset s reach known ack
        replica o inside has =
      let watermark =
        find-All key_eq IsWatermark (topic, partition) s c.partition_states
          (Reach-AreWatermarks reach) known in
      omega (
        arith,
        acknowledged_below c topic partition offset s known ack,
        watermark replica o inside has,
      )
