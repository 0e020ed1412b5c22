-- ===== src/Broker/Coordinator.antt =====
-- broker/src/coordinator.rs: consumer groups and the partitions of their members. The lock on the
-- groups is held for the whole call, so a method is one step. A `HashMap` is an association list in
-- the order in which it is iterated over, and a group has the members' order of its list. The order
-- in which a `HashSet` of topics is iterated over is the parameter `order`.
pub mod Assignment
pub mod Membership
pub mod Removal
pub mod Heartbeats
use gaffa.Prelude.{
  ℕ, zero, suc, ◌+◌, ◌-◌, ◌%◌, ◌<◌, ◌<>◌, ◌≡◌, String, str_eq, Bool, true, false, Option, none,
  some, List, [], ◌∷◌, ◌++◌, map, length, get_elem?, ltb, ◌==◌, if◌then◌else◌, add32,
}
use gaffa.Prelude.Maps.{find, put, erase, insert}
use gaffa.Common.Error.{Result, ok, err, panic, consumer_not_found, group_not_found}
use gaffa.Protocol.Messages.{PartitionAssignment, range}

-- An `Instant` is a number of nanoseconds, and `now` is the clock's reading.
pub record GroupMember : Type 0 where
  pub member_id : String
  pub topics : List String
  pub last_heartbeat : ℕ
  pub assignments : List PartitionAssignment

pub record ConsumerGroup : Type 0 where
  pub group_id : String
  pub members : List (String × GroupMember)
  pub generation : ℕ

abbrev pub new_group : String → ConsumerGroup
new_group group_id = record { group_id = group_id; members = []; generation = 0 }

unfoldable pub add_member : ConsumerGroup → GroupMember → ConsumerGroup
add_member g m = record g { members = put str_eq m.member_id m g.members }

-- The group, and whether the member was there.
unfoldable pub remove_member : ConsumerGroup → String → ConsumerGroup × Option GroupMember
remove_member g member_id =
    (record g { members = erase str_eq member_id g.members }, find str_eq member_id g.members)

-- `heartbeat` of a group.
unfoldable pub beat : ℕ → ConsumerGroup → String → ConsumerGroup × Result (Unit {0})
beat now g member_id = elim (find str_eq member_id g.members) [
  | none ↦ (g, err (consumer_not_found member_id))
  | some m ↦ (
    record g { members = put str_eq member_id (record m { last_heartbeat = now }) g.members },
    ok tt,
  )
]

unfoldable pub dead_of : ℕ → ℕ → List (String × GroupMember) → List String
dead_of now timeout [] = []
dead_of now timeout (e ∷ es) =
    let rest = dead_of now timeout es in
    if ltb timeout (now - e.1.last_heartbeat) then e.0 ∷ rest else rest

unfoldable pub get_dead_members : ℕ → ConsumerGroup → ℕ → List String
unfolding dead_of
get_dead_members now g timeout = dead_of now timeout g.members

insert_all : List String → List String → List String
insert_all [] set = set
insert_all (t ∷ ts) set = insert_all ts (insert str_eq t set)

-- The set of the topics that members are interested in.
unfoldable pub all_topics : List (String × GroupMember) → List String → List String
unfolding insert_all
all_topics [] set = set
all_topics (e ∷ es) set = all_topics es (insert_all e.1.topics set)

-- The partitions of the topics whose number of partitions is known.
unfoldable pub all_partitions : List (String × ℕ) → List String → List PartitionAssignment
all_partitions topic_partitions [] = []
all_partitions topic_partitions (t ∷ ts) =
    let rest = all_partitions topic_partitions ts in
    elim (find str_eq t topic_partitions) [
      | none ↦ rest
      | some n ↦ map (λ p. record { topic = t; partition = p }) (range n) ++ rest
    ]

abbrev pub cleared : List (String × GroupMember) → List (String × GroupMember)
cleared = map (λ e. (e.0, record e.1 { assignments = [] }))

-- `member.assignments.push(partition)` for the member of this place in the list.
unfoldable pub give_at :
    ℕ → PartitionAssignment → List (String × GroupMember) → List (String × GroupMember)
give_at k a [] = []
give_at zero a (e ∷ es) = (e.0, record e.1 { assignments = e.1.assignments ++ a ∷ [] }) ∷ es
give_at (suc k) a (e ∷ es) = e ∷ give_at k a es

-- The partition of place `idx` goes to the member of place `idx % member_ids.len()`.
unfoldable pub assign_from :
    ℕ → ℕ → List PartitionAssignment → List (String × GroupMember) → List (String × GroupMember)
unfolding give_at
assign_from idx count [] members = members
assign_from idx count (a ∷ rest) members =
    assign_from (idx + 1) count rest (give_at (idx % count) a members)

-- The set of topics is iterated over in the order that `order` gives it.
unfoldable pub rebalance :
    (List String → List String) → ConsumerGroup → List (String × ℕ) → ConsumerGroup
unfolding all_topics all_partitions assign_from
rebalance order g topic_partitions =
    let partitions = all_partitions topic_partitions (order (all_topics g.members [])) in
    elim g.members [
      | [] ↦ record g { generation = add32 g.generation 1 }
      | e ∷ es ↦ record g {
        generation = add32 g.generation 1;
        members = assign_from 0 (length g.members) partitions (cleared g.members);
      }
    ]

pub record GroupCoordinator : Type 0 where
  pub groups : List (String × ConsumerGroup)
  pub heartbeat_timeout : ℕ
  pub topic_partitions : List (String × ℕ)

unfoldable pub new : ℕ → GroupCoordinator
new heartbeat_timeout = record {
  groups = [];
  heartbeat_timeout = heartbeat_timeout;
  topic_partitions = [];
}

unfoldable pub update_topic_partitions : GroupCoordinator → String → ℕ → GroupCoordinator
update_topic_partitions c topic partition_count = record c {
  topic_partitions = put str_eq topic partition_count c.topic_partitions;
}

-- `entry(..).or_insert_with(..)`
abbrev pub group_or_new : List (String × ConsumerGroup) → String → ConsumerGroup
group_or_new groups group_id = elim (find str_eq group_id groups) [
  | none ↦ new_group group_id
  | some g ↦ g
]

-- `fresh` is the first eight characters of the new UUID.
abbrev pub id_or_fresh : String → String → Option String → String
id_or_fresh group_id fresh none = group_id <> "-" <> fresh
id_or_fresh group_id fresh (some member_id) = member_id

abbrev pub assignments_of : ConsumerGroup → String → List PartitionAssignment
assignments_of g member_id = elim (find str_eq member_id g.members) [
  | none ↦ []
  | some m ↦ m.assignments
]

unfoldable pub join_group :
    (List String → List String)
    → GroupCoordinator
    → ℕ
    → String
    → String
    → Option String
    → List String
    → GroupCoordinator × (String × List PartitionAssignment)
unfolding add_member rebalance
join_group order c now fresh group_id member_id topics =
    let id = id_or_fresh group_id fresh member_id in
    let joined : GroupMember = record {
      member_id = id;
      topics = topics;
      last_heartbeat = now;
      assignments = [];
    } in
    let g =
      rebalance order (add_member (group_or_new c.groups group_id) joined) c.topic_partitions in
    (record c { groups = put str_eq group_id g c.groups }, (id, assignments_of g id))

-- What becomes of a group that has lost a member.
unfoldable pub without_member :
    (List String → List String) → GroupCoordinator → String → ConsumerGroup → GroupCoordinator
unfolding rebalance
without_member order c group_id g = elim g.members [
  | [] ↦ record c { groups = erase str_eq group_id c.groups }
  | e ∷ es ↦ record c {
    groups = put str_eq group_id (rebalance order g c.topic_partitions) c.groups;
  }
]

unfoldable pub leave_group :
    (List String → List String)
    → GroupCoordinator
    → String
    → String
    → GroupCoordinator × Result (Unit {0})
unfolding remove_member without_member
leave_group order c group_id member_id = elim (find str_eq group_id c.groups) [
  | none ↦ (c, err (group_not_found group_id))
  | some g ↦
      let (left, removed) = remove_member g member_id in
      elim removed [
        | none ↦ (c, err (consumer_not_found member_id))
        | some m ↦ (without_member order c group_id left, ok tt)
      ]
]

unfoldable pub heartbeat : GroupCoordinator → ℕ → String → String → GroupCoordinator × Result Bool
unfolding beat
heartbeat c now group_id member_id = elim (find str_eq group_id c.groups) [
  | none ↦ (c, err (group_not_found group_id))
  | some g ↦
      let (beaten, outcome) = beat now g member_id in
      elim outcome [
        | ok done ↦ (record c { groups = put str_eq group_id beaten c.groups }, ok false)
        | err e ↦ (c, err e)
        | panic ↦ (c, panic)
      ]
]

unfoldable pub remove_all : List String → ConsumerGroup → ConsumerGroup
unfolding remove_member
remove_all [] g = g
remove_all (id ∷ ids) g = remove_all ids (remove_member g id).0

-- What the two loops of `check_heartbeats` do to one group: the dead members leave, and if there
-- were any and a member is left, the group is rebalanced.
unfoldable pub checked :
    (List String → List String) → ℕ → ℕ → List (String × ℕ) → ConsumerGroup → ConsumerGroup
unfolding get_dead_members remove_all rebalance
checked order now timeout topic_partitions g = elim (get_dead_members now g timeout) [
  | [] ↦ g
  | id ∷ ids ↦
      let left = remove_all (id ∷ ids) g in
      elim left.members [ [] ↦ left | e ∷ es ↦ rebalance order left topic_partitions ]
]

-- All groups are checked, and those without members are dropped.
unfoldable pub checked_all :
    (List String → List String)
    → ℕ
    → ℕ
    → List (String × ℕ)
    → List (String × ConsumerGroup)
    → List (String × ConsumerGroup)
unfolding checked
checked_all order now timeout topic_partitions [] = []
checked_all order now timeout topic_partitions (e ∷ es) =
    let rest = checked_all order now timeout topic_partitions es in
    let g = checked order now timeout topic_partitions e.1 in
    elim g.members [ [] ↦ rest | m ∷ ms ↦ (e.0, g) ∷ rest ]

unfoldable pub check_heartbeats :
    (List String → List String) → GroupCoordinator → ℕ → GroupCoordinator
unfolding checked_all
check_heartbeats order c now = record c {
  groups = checked_all order now c.heartbeat_timeout c.topic_partitions c.groups;
}

unfoldable pub get_groups : GroupCoordinator → List String
get_groups c = map (λ e. e.0) c.groups

unfoldable pub get_group_size : GroupCoordinator → String → Option ℕ
get_group_size c group_id = elim (find str_eq group_id c.groups) [
  | none ↦ none
  | some g ↦ some (length g.members)
]
