-- ===== src/Broker/Examples.antt =====
-- Concrete runs of the cluster and of the consumer groups of broker/src.
pub mod Servers
pub mod Replicas
use gaffa.Prelude.{
  sym, ap, ◌∙◌, Bool, ◌||◌, Bool-cases, inl, inr, ℕ, ◌+◌, ◌*◌, ◌≤◌, ◌≡◌, refl, String, str_eq, true,
  false, none, some, List, [], ◌∷◌, ◌++◌, map, length, get_elem?, ◌==◌, All, add32, ◌⊎◌,
  if◌then◌else◌,
}
use gaffa.Prelude.Maps.{
  find, member, remove, NoRepeats, member-append, NoRepeats-append, str-Lawful,
}
use gaffa.Common.Error.{ok, err, consumer_not_found, group_not_found}
use gaffa.Broker.Cluster.{
  PartitionReplicaState, ClusterMetadata, fail_over, handle_broker_failure, update_offset,
}
use gaffa.Broker.Cluster.Watermark.{
  IsWatermark, IsReached, near, update_offset-IsWatermark, update_offset-member,
}
use gaffa.Broker.Cluster.Failover.{IsSafe, fail_over-IsSafe, handle_broker_failure-IsSafe}
use gaffa.Broker.Coordinator.{
  GroupMember, ConsumerGroup, GroupCoordinator, rebalance, leave_group, check_heartbeats,
  assignments_of,
}
use gaffa.Broker.Coordinator.Assignment.Topics.{IsOrder, assignment_eq, is_wanted}
use gaffa.Protocol.Messages.{PartitionAssignment}
use gaffa.Broker.Coordinator.Assignment.{rebalance_once, rebalance_fair}
use gaffa.Broker.Coordinator.Membership.Names.{names, names_in}
use gaffa.Broker.Coordinator.Membership.{joined, joined_id, join_group-names, leave_group-names}
use gaffa.Broker.Coordinator.Heartbeats.{IsLive, check_heartbeats-IsLive}

-- Three replicas, of which two are in sync.
abbrev state : PartitionReplicaState
state = record {
  topic = "orders";
  partition = 0;
  leader = 1;
  replicas = 1 ∷ 2 ∷ 3 ∷ [];
  isr = 1 ∷ 2 ∷ [];
  replica_offsets = (1, 90) ∷ (2, 80) ∷ (3, 5) ∷ [];
  high_watermark = 70;
  leader_epoch = 4;
}

update_offset-IsWatermark_example :
    IsWatermark (update_offset state 3 85 10)
    × ((near state 3 85 10 ≡ false) ⊎ IsReached (update_offset state 3 85 10))
update_offset-IsWatermark_example = update_offset-IsWatermark state 3 85 10

abbrev cluster : ClusterMetadata
cluster = record {
  brokers = [];
  partition_states = (("orders", 0), state) ∷ [];
  broker_id = 2;
  broker_timeout = 30000000000;
  isr_lag_threshold = 10;
}

handle_broker_failure-IsSafe_example :
    let after = (handle_broker_failure (λ xs. xs) cluster 1).0 in
    All (λ e. IsSafe 1 e.1) after.partition_states
    × (map (λ e. e.0) after.partition_states ≡ map (λ e. e.0) cluster.partition_states)
handle_broker_failure-IsSafe_example =
    handle_broker_failure-IsSafe (λ xs. xs) 1 (λ xs id. refl) cluster ((2, refl, refl), tt)

-- An order of iteration over topics.
abbrev backwards : List String → List String
backwards [] = []
backwards (t ∷ ts) = backwards ts ++ t ∷ []

abbrev ann : GroupMember
ann = record { member_id = "ann"; topics = "orders" ∷ []; last_heartbeat = 5; assignments = [] }

abbrev bob : GroupMember
bob = record { member_id = "bob"; topics = "orders" ∷ []; last_heartbeat = 9; assignments = [] }

abbrev team : ConsumerGroup
team = record { group_id = "team"; members = ("ann", ann) ∷ ("bob", bob) ∷ []; generation = 1 }

abbrev counts : List (String × ℕ)
counts = ("orders", 3) ∷ []

turned : (a b : Bool) → (a || (b || false)) ≡ (b || a)
turned true true = refl
turned true false = refl
turned false true = refl
turned false false = refl

member-backwards :
    (ts : List String) (t : String) → member str_eq t (backwards ts) ≡ member str_eq t ts
member-backwards [] t = refl
member-backwards (u ∷ ts) t =
    member-append str_eq t (backwards ts) (u ∷ [])
    ∙ ap (λ b. b || (str_eq t u || false)) (member-backwards ts t)
    ∙ turned (member str_eq t ts) (str_eq t u)

backwards-NoRepeats : (ts : List String) → NoRepeats str_eq ts → NoRepeats str_eq (backwards ts)
backwards-NoRepeats [] h = tt
backwards-NoRepeats (u ∷ ts) (h, hs) =
    NoRepeats-append str_eq str-Lawful (backwards ts) (u ∷ []) (backwards-NoRepeats ts hs)
      (refl, tt) apart
  where
    apart : (t : String) → member str_eq t (backwards ts) ≡ true → member str_eq t (u ∷ []) ≡ false
    apart t m = elim (Bool-cases (str_eq t u)) [
      | inr e ↦ rw (e)
      | inl e ↦
          let here : member str_eq t ts ≡ true = sym (member-backwards ts t) ∙ m in
          let there : member str_eq t ts ≡ false =
            ap (λ x. member str_eq x ts) (str-Lawful.sound t u e) ∙ h in
          cc (here, there)
    ]

backwards-IsOrder : IsOrder backwards
backwards-IsOrder = record { elements = member-backwards; once = backwards-NoRepeats }

rebalance_once_example :
    (parts : List PartitionAssignment) × ((a : PartitionAssignment)
      → member assignment_eq a parts ≡ is_wanted team.members counts a)
    × NoRepeats assignment_eq parts
    × ((k : ℕ) (e : String × GroupMember)
        → get_elem? team.members k ≡ some e
        → (m : GroupMember) × (get_elem? (rebalance backwards team counts).members k
            ≡ some (e.0, m))
          × ((q : ℕ) → get_elem? m.assignments q ≡ get_elem? parts (q * length team.members + k)))
rebalance_once_example = rebalance_once backwards backwards-IsOrder team counts

rebalance_fair_example :
    (m : GroupMember) × (o : GroupMember) × (get_elem? (rebalance backwards team counts).members 0
      ≡ some ("ann", m))
    × (get_elem? (rebalance backwards team counts).members 1 ≡ some ("bob", o))
    × (length m.assignments ≤ length o.assignments + 1)
rebalance_fair_example =
    rebalance_fair backwards team counts 0 1 ("ann", ann) ("bob", bob) refl refl

abbrev coordinator : GroupCoordinator
coordinator = record {
  groups = ("team", team) ∷ [];
  heartbeat_timeout = 10;
  topic_partitions = counts;
}

join_group-names_example :
    let after = joined backwards coordinator 20 "c0ffee00" "team" none ("orders" ∷ []) in
    ((x : String)
      → member str_eq x (names_in after.0 "team") ≡ (
          if str_eq x (joined_id backwards coordinator 20 "c0ffee00" "team" none ("orders" ∷ []))
          then true
          else member str_eq x (names_in coordinator "team")))
    × ((g : ConsumerGroup) × (after.1 ≡ (
      joined_id backwards coordinator 20 "c0ffee00" "team" none ("orders" ∷ []),
      assignments_of g (joined_id backwards coordinator 20 "c0ffee00" "team" none ("orders" ∷ [])),
    ))
        × ((other : String)
            → find str_eq other after.0.groups
              ≡ (if str_eq other "team" then some g else find str_eq other coordinator.groups)))
join_group-names_example =
    join_group-names backwards coordinator 20 "c0ffee00" "team" none ("orders" ∷ [])

leave_group-names_example :
    let after = leave_group backwards coordinator "team" "ann" in
    ((find str_eq "team" coordinator.groups ≡ none)
      × (after ≡ (coordinator, err (group_not_found "team"))))
    ⊎ ((g : ConsumerGroup) × (find str_eq "team" coordinator.groups ≡ some g)
        × (((find str_eq "ann" g.members ≡ none)
              × (after ≡ (coordinator, err (consumer_not_found "ann"))))
            ⊎ ((m : GroupMember) × (find str_eq "ann" g.members ≡ some m)
                × (after.1 ≡ ok tt)
                × (names_in after.0 "team" ≡ remove str_eq "ann" (names g))
                × (member str_eq "ann" (names_in after.0 "team") ≡ false)
                × ((other : String)
                    → str_eq other "team" ≡ false
                    → find str_eq other after.0.groups ≡ find str_eq other coordinator.groups))))
leave_group-names_example = leave_group-names backwards coordinator "team" "ann"

check_heartbeats-IsLive_example :
    All (IsLive 17 10) (check_heartbeats backwards coordinator 17).groups
check_heartbeats-IsLive_example = check_heartbeats-IsLive backwards coordinator 17
