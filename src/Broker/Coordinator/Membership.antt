-- ===== src/Broker/Coordinator/Membership.antt =====
-- Who is in a group of broker/src/coordinator.rs after members join and leave.
pub mod Names
use gaffa.Prelude.{
  ℕ, zero, suc, ◌+◌, ◌%◌, ◌≡◌, refl, sym, ap, ◌∙◌, String, str_eq, Bool, true, false, Option, none,
  some, List, [], ◌∷◌, map, arith, length, if◌then◌else◌, Bool-cases, Option-cases, ◌⊎◌, inl, inr,
}
use gaffa.Prelude.Maps.{
  find, put, erase, member, remove, member-remove_same, find-put_same, find-put_other,
  find-erase_same, find-erase_other, str-Lawful,
}
use gaffa.Common.Error.{ok, err, consumer_not_found, group_not_found}
use gaffa.Protocol.Messages.{PartitionAssignment}
use gaffa.Broker.Coordinator.{
  GroupMember, ConsumerGroup, GroupCoordinator, add_member, remove_member, without_member, give_at,
  assign_from, cleared, rebalance, join_group, leave_group, group_or_new, id_or_fresh,
  assignments_of,
}
use gaffa.Broker.Coordinator.Assignment.{partitions_of, rebalance_some}
use gaffa.Broker.Coordinator.Membership.Names.{
  names, names_in, names-rebalance, names-erase, names_in-some, names-group_or_new,
  names-add_member,
}

abbrev Entry : Type 0
Entry = String × GroupMember

module _ (order : List String → List String) (c : GroupCoordinator) (now : ℕ)
    (fresh group_id : String) (member_id : Option String) (topics : List String) where
  abbrev pub joined : GroupCoordinator × (String × List PartitionAssignment)
  joined = join_group order c now fresh group_id member_id topics

  abbrev pub joined_id : String
  joined_id = id_or_fresh group_id fresh member_id

  abbrev newcomer : GroupMember
  newcomer = record {
    member_id = joined_id;
    topics = topics;
    last_heartbeat = now;
    assignments = [];
  }

  abbrev joined_group : ConsumerGroup
  joined_group =
      rebalance order (add_member (group_or_new c.groups group_id) newcomer) c.topic_partitions

  join_group_lem : joined ≡ (
    record c { groups = put str_eq group_id joined_group c.groups },
    (joined_id, assignments_of joined_group joined_id),
  )
  join_group_lem = unfold join_group in refl

  -- After `join_group` the group has the member that was returned, besides those that it had; what
  -- was returned are its assignments there; and other groups are as they were.
  pub join_group-names :
      ((x : String)
        → member str_eq x (names_in joined.0 group_id)
          ≡ (if str_eq x joined_id then true else member str_eq x (names_in c group_id)))
      × ((g : ConsumerGroup) × (joined.1 ≡ (joined_id, assignments_of g joined_id))
          × ((other : String)
              → find str_eq other joined.0.groups
                ≡ (if str_eq other group_id then some g else find str_eq other c.groups)))
  join_group-names =
      let found : find str_eq group_id joined.0.groups ≡ some joined_group =
        ap (λ j. find str_eq group_id j.0.groups) join_group_lem
        ∙ find-put_same str_eq str-Lawful group_id joined_group c.groups in
      (
        λ x.
            ap (member str_eq x) (
              names_in-some joined.0 group_id joined_group found
              ∙ names-rebalance order (add_member (group_or_new c.groups group_id) newcomer)
                  c.topic_partitions)
            ∙ names-add_member x (group_or_new c.groups group_id) newcomer
            ∙ ap (λ l. if str_eq x joined_id then true else member str_eq x l)
                (names-group_or_new c group_id),
        (joined_group, ap (λ j. j.1) join_group_lem, groups_after),
      )
    where
      groups_after :
          (other : String)
          → find str_eq other joined.0.groups
            ≡ (if str_eq other group_id then some joined_group else find str_eq other c.groups)
      groups_after other =
          ap (λ j. find str_eq other j.0.groups) join_group_lem
          ∙ (elim (Bool-cases (str_eq other group_id)) [
            | inl same ↦
                ap (λ k. find str_eq k (put str_eq group_id joined_group c.groups))
                  (str-Lawful.sound other group_id same)
                ∙ find-put_same str_eq str-Lawful group_id joined_group c.groups
                ∙ ap (λ b. if b then some joined_group else find str_eq other c.groups) (sym same)
            | inr differs ↦
                find-put_other str_eq str-Lawful group_id other joined_group c.groups differs
                ∙ ap (λ b. if b then some joined_group else find str_eq other c.groups)
                    (sym differs)
          ])

module _ (order : List String → List String) (c : GroupCoordinator)
    (group_id member_id : String) where
  leave_unknown_group :
      find str_eq group_id c.groups ≡ none
      → leave_group order c group_id member_id ≡ (c, err (group_not_found group_id))
  unfolding leave_group
  leave_unknown_group h = rw (leave_group, h)

  leave_unknown_member :
      (g : ConsumerGroup)
      → find str_eq group_id c.groups ≡ some g
      → find str_eq member_id g.members ≡ none
      → leave_group order c group_id member_id ≡ (c, err (consumer_not_found member_id))
  unfolding leave_group remove_member
  leave_unknown_member g h k = rw (leave_group, h, k)

  leave_known :
      (g : ConsumerGroup) (m : GroupMember)
      → find str_eq group_id c.groups ≡ some g
      → find str_eq member_id g.members ≡ some m
      → leave_group order c group_id member_id ≡ (
        without_member order c group_id (record g { members = erase str_eq member_id g.members }),
        ok tt,
      )
  unfolding leave_group remove_member
  leave_known g m h k = rw (leave_group, h, k)

  without_none :
      (g : ConsumerGroup)
      → g.members ≡ []
      → without_member order c group_id g ≡ record c { groups = erase str_eq group_id c.groups }
  unfolding without_member
  without_none g h = rw (without_member, h)

  without_some :
      (g : ConsumerGroup) (e : Entry) (es : List Entry)
      → g.members ≡ e ∷ es
      → without_member order c group_id g
        ≡ record c { groups = put str_eq group_id (rebalance order g c.topic_partitions) c.groups }
  unfolding without_member
  without_some g e es h =
      ap
        (λ ms. elim ms as (λ _. GroupCoordinator) [
          | [] ↦ record c { groups = erase str_eq group_id c.groups }
          | d ∷ ds ↦ record c {
            groups = put str_eq group_id (rebalance order g c.topic_partitions) c.groups;
          }
        ])
        h

  names-without_member :
      (g : ConsumerGroup) → names_in (without_member order c group_id g) group_id ≡ names g
  names-without_member g = go g.members refl
    where
      go :
          (es : List Entry)
          → g.members ≡ es
          → names_in (without_member order c group_id g) group_id ≡ names g
      go [] h =
          ap (λ d. names_in d group_id) (without_none g h)
          ∙ ap (λ o. elim o as (λ _. List String) [ none ↦ [] | some g ↦ names g ])
              (find-erase_same str_eq str-Lawful group_id c.groups)
          ∙ ap (map (λ d. d.0)) (sym h)
      go (e ∷ es) h =
          ap (λ d. names_in d group_id) (without_some g e es h)
          ∙ names_in-some
              (record c {
                groups = put str_eq group_id (rebalance order g c.topic_partitions) c.groups;
              })
              group_id (rebalance order g c.topic_partitions)
              (find-put_same str_eq str-Lawful group_id (rebalance order g c.topic_partitions)
                c.groups)
          ∙ names-rebalance order g c.topic_partitions

  others-without_member :
      (g : ConsumerGroup) (other : String)
      → str_eq other group_id ≡ false
      → find str_eq other (without_member order c group_id g).groups ≡ find str_eq other c.groups
  others-without_member g other d = go g.members refl
    where
      go :
          (es : List Entry)
          → g.members ≡ es
          → find str_eq other (without_member order c group_id g).groups
            ≡ find str_eq other c.groups
      go [] h =
          ap (λ x. find str_eq other x.groups) (without_none g h)
          ∙ find-erase_other str_eq str-Lawful group_id other c.groups d
      go (e ∷ es) h =
          ap (λ x. find str_eq other x.groups) (without_some g e es h)
          ∙ find-put_other str_eq str-Lawful group_id other (rebalance order g c.topic_partitions)
              c.groups d

  -- `leave_group` refuses an unknown group, and a member that a known group does not have, each with
  -- its error, and leaves the state as it was. A member that the group has leaves without an error;
  -- it is then gone, no other member of the group is, and other groups are as they were.
  pub leave_group-names :
      ((find str_eq group_id c.groups ≡ none)
        × (leave_group order c group_id member_id ≡ (c, err (group_not_found group_id))))
      ⊎ ((g : ConsumerGroup) × (find str_eq group_id c.groups ≡ some g)
          × (((find str_eq member_id g.members ≡ none)
                × (leave_group order c group_id member_id
                    ≡ (c, err (consumer_not_found member_id))))
              ⊎ ((m : GroupMember) × (find str_eq member_id g.members ≡ some m)
                  × ((leave_group order c group_id member_id).1 ≡ ok tt)
                  × (names_in (leave_group order c group_id member_id).0 group_id
                      ≡ remove str_eq member_id (names g))
                  × (member str_eq member_id
                        (names_in (leave_group order c group_id member_id).0 group_id)
                      ≡ false)
                  × ((other : String)
                      → str_eq other group_id ≡ false
                      → find str_eq other (leave_group order c group_id member_id).0.groups
                        ≡ find str_eq other c.groups))))
  leave_group-names = elim (Option-cases (find str_eq group_id c.groups)) [
    | inl h ↦ inl (h, leave_unknown_group h)
    | inr (g, h) ↦ elim (Option-cases (find str_eq member_id g.members)) [
      | inl k ↦ inr (g, h, inl (k, leave_unknown_member g h k))
      | inr (m, k) ↦
          let run = leave_known g m h k in
          let left : names_in (leave_group order c group_id member_id).0 group_id
              ≡ remove str_eq member_id (names g) =
            ap (λ p. names_in p.0 group_id) run
            ∙ names-without_member (record g { members = erase str_eq member_id g.members })
            ∙ names-erase member_id g.members in
          inr (
            g,
            h,
            inr (
              m,
              k,
              ap (λ p. p.1) run,
              left,
              ap (member str_eq member_id) left
                  ∙ member-remove_same str_eq str-Lawful member_id (names g),
              λ other d.
                  ap (λ p. find str_eq other p.0.groups) run
                  ∙ others-without_member (record g { members = erase str_eq member_id g.members })
                      other d,
            ),
          )
    ]
  ]
