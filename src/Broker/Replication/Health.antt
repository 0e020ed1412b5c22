-- ===== src/Broker/Replication/Health.antt =====
-- What the health check of broker/src/replication.rs makes of partitions with dead leaders.
use mathlib.Core.Path.{subst}
use gaffa.Prelude.{
  ℕ, ◌≡◌, sym, ap, ◌∙◌, true, false, List, [], ◌∷◌, map, ◌==◌, if◌then◌else◌, Bool-cases, All,
  All-map, inl, inr,
}
use gaffa.Prelude.Maps.{member, nat-Lawful}
use gaffa.Broker.Cluster.{
  Key, PartitionReplicaState, ClusterMetadata, get_alive_brokers, get_all_partition_states,
  fail_over, fail_over_all, handle_broker_failure,
}
use gaffa.Broker.Cluster.Brokers.{ids_of}
use gaffa.Broker.Cluster.Failover.{IsOrder, round_states}
use gaffa.Broker.Replication.{check_states, check_broker_health}
use gaffa.Broker.Replication.Succession.{
  IsLed, HasHeir, Recovers, kept, stays-IsLed, stays-HasHeir, falls-IsLed,
}

module _ (order : List ℕ → List ℕ) (law : IsOrder order) (alive : List ℕ) where
  -- What the loop over the states makes of one partition's state.
  survivor : List PartitionReplicaState → PartitionReplicaState → PartitionReplicaState
  survivor [] s = s
  survivor (x ∷ xs) s =
      survivor xs (if member ◌==◌ x.leader alive then s else (fail_over order x.leader s).0)

  survivor_alive :
      (x : PartitionReplicaState) (xs : List PartitionReplicaState) (s : PartitionReplicaState)
      → IsLed alive x
      → survivor (x ∷ xs) s ≡ survivor xs s
  unfolding survivor
  survivor_alive x xs s a = rw (survivor, a)

  survivor_dead :
      (x : PartitionReplicaState) (xs : List PartitionReplicaState) (s : PartitionReplicaState)
      → member ◌==◌ x.leader alive ≡ false
      → survivor (x ∷ xs) s ≡ survivor xs (fail_over order x.leader s).0
  unfolding survivor
  survivor_dead x xs s a = rw (survivor, a)

  survivor-IsLed :
      (xs : List PartitionReplicaState) (s : PartitionReplicaState)
      → IsLed alive s
      → IsLed alive (survivor xs s)
  unfolding survivor
  survivor-IsLed [] s h = h
  survivor-IsLed (x ∷ xs) s h = elim (Bool-cases (member ◌==◌ x.leader alive)) [
    | inl a ↦ subst (IsLed alive) (sym (survivor_alive x xs s a)) (survivor-IsLed xs s h)
    | inr a ↦ subst (IsLed alive) (sym (survivor_dead x xs s a)) (
        survivor-IsLed xs (fail_over order x.leader s).0
          (stays-IsLed order law alive x.leader a s h))
  ]

  abbrev leaders : List PartitionReplicaState → List ℕ
  leaders = map (λ s. s.leader)

  later :
      (l k : ℕ) (ls : List ℕ)
      → (l == k) ≡ false
      → member ◌==◌ l (k ∷ ls) ≡ true
      → member ◌==◌ l ls ≡ true
  later l k ls e m = let step : member ◌==◌ l (k ∷ ls) ≡ member ◌==◌ l ls = rw (e) in sym step ∙ m

  -- A partition is led by a broker that is alive once its leader's turn has come.
  recovered :
      (xs : List PartitionReplicaState) (s : PartitionReplicaState)
      → HasHeir alive s
      → member ◌==◌ s.leader (leaders xs) ≡ true
      → IsLed alive (survivor xs s)
  recovered [] s h m = cc
  recovered (x ∷ xs) s h m = elim (Bool-cases (member ◌==◌ x.leader alive)) [
    | inl a ↦
        subst (IsLed alive) (sym (survivor_alive x xs s a))
          (elim (Bool-cases (s.leader == x.leader)) [
            | inl e ↦
                survivor-IsLed xs s
                  (ap (λ l. member ◌==◌ l alive) (nat-Lawful.sound s.leader x.leader e) ∙ a)
            | inr e ↦ recovered xs s h (later s.leader x.leader (leaders xs) e m)
          ])
    | inr a ↦
        subst (IsLed alive) (sym (survivor_dead x xs s a))
          (elim (Bool-cases (s.leader == x.leader)) [
            | inl e ↦
                survivor-IsLed xs (fail_over order x.leader s).0
                  (falls-IsLed order law alive x.leader a s e h)
            | inr e ↦
                recovered xs (fail_over order x.leader s).0
                  (stays-HasHeir order law alive x.leader a s e h)
                  (ap (λ t. member ◌==◌ t.leader (leaders xs)) (kept order law alive x.leader a s e)
                    ∙ later s.leader x.leader (leaders xs) e m)
          ])
  ]

  All-fail_over_all :
      (P : PartitionReplicaState → Type 0) (d : ℕ) (es : List (Key × PartitionReplicaState))
      → All (λ e. P (fail_over order d e.1).0) es
      → All (λ e. P e.1) (fail_over_all order d es).0
  All-fail_over_all P d [] h = unfold fail_over_all in tt
  All-fail_over_all P d (e ∷ es) h =
      subst (All (λ x. P x.1)) (sym (round_states order d e es)) (h.0, All-fail_over_all P d es h.1)

  check_alive :
      (x : PartitionReplicaState) (xs : List PartitionReplicaState) (c : ClusterMetadata)
      → IsLed alive x
      → check_states order alive (x ∷ xs) c ≡ check_states order alive xs c
  unfolding check_states
  check_alive x xs c a = rw (check_states, a)

  check_dead :
      (x : PartitionReplicaState) (xs : List PartitionReplicaState) (c : ClusterMetadata)
      → member ◌==◌ x.leader alive ≡ false
      → check_states order alive (x ∷ xs) c
        ≡ check_states order alive xs (handle_broker_failure order c x.leader).0
  unfolding check_states
  check_dead x xs c a = rw (check_states, a)

  All-check_states :
      (P : PartitionReplicaState → Type 0) (xs : List PartitionReplicaState) (c : ClusterMetadata)
      → All (λ e. P (survivor xs e.1)) c.partition_states
      → All (λ e. P e.1) (check_states order alive xs c).partition_states
  unfolding check_states survivor handle_broker_failure
  All-check_states P [] c h = h
  All-check_states P (x ∷ xs) c h = elim (Bool-cases (member ◌==◌ x.leader alive)) [
    | inl a ↦
        subst (λ d. All (λ e. P e.1) d.partition_states) (sym (check_alive x xs c a))
          (All-check_states P xs c (
            All-map (λ e. P (survivor (x ∷ xs) e.1)) (λ e. P (survivor xs e.1)) c.partition_states
              (λ e p. subst P (survivor_alive x xs e.1 a) p) h))
    | inr a ↦
        subst (λ d. All (λ e. P e.1) d.partition_states) (sym (check_dead x xs c a))
          (All-check_states P xs (handle_broker_failure order c x.leader).0 (
            All-fail_over_all (λ s. P (survivor xs s)) x.leader c.partition_states
              (All-map (λ e. P (survivor (x ∷ xs) e.1))
                (λ e. P (survivor xs (fail_over order x.leader e.1).0)) c.partition_states
                (λ e p. subst P (survivor_dead x xs e.1 a) p) h)))
  ]

  -- Every state's leader has its turn.
  own_turn :
      (es : List (Key × PartitionReplicaState))
      → All (λ e. member ◌==◌ e.1.leader (leaders (map (λ x. x.1) es)) ≡ true) es
  own_turn [] = tt
  own_turn (e ∷ es) = (
    rw (nat-Lawful.complete e.1.leader),
    All-map (λ x. member ◌==◌ x.1.leader (leaders (map (λ y. y.1) es)) ≡ true)
        (λ x. member ◌==◌ x.1.leader (leaders (map (λ y. y.1) (e ∷ es))) ≡ true) es
        (λ x m. elim (Bool-cases (x.1.leader == e.1.leader)) [ inl a ↦ rw (a) | inr a ↦ rw (a) m ])
        (own_turn es),
  )

  all_recovered :
      (xs : List PartitionReplicaState) (es : List (Key × PartitionReplicaState))
      → All (λ e. Recovers alive e.1) es
      → All (λ e. member ◌==◌ e.1.leader (leaders xs) ≡ true) es
      → All (λ e. IsLed alive (survivor xs e.1)) es
  all_recovered xs [] h m = tt
  all_recovered xs (e ∷ es) h m = (
    elim h.0 [ inl led ↦ survivor-IsLed xs e.1 led | inr heir ↦ recovered xs e.1 heir m.0 ],
    all_recovered xs es h.1 m.1,
  )

-- After one health check every partition is led by a broker that is alive, if the order of iteration
-- gives the members of a set and every partition is led by such a broker before, or has an in-sync
-- replica that is alive and no dead one besides its leader.
pub check_broker_health-IsLed :
    (order : List ℕ → List ℕ) (c : ClusterMetadata) (now : ℕ)
    → IsOrder order
    → All (λ e. Recovers (ids_of (get_alive_brokers c now)) e.1) c.partition_states
    → All
        (λ e. IsLed (ids_of (get_alive_brokers c now)) e.1)
        (check_broker_health order c now).partition_states
unfolding check_broker_health get_all_partition_states
check_broker_health-IsLed order c now law h =
    let alive = ids_of (get_alive_brokers c now) in
    let states = map (λ e. e.1) c.partition_states in
    All-check_states order law alive (IsLed alive) states c (
      all_recovered order law alive states c.partition_states h
        (own_turn order law alive c.partition_states))
