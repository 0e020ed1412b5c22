-- ===== src/Broker/Coordinator/Heartbeats.antt =====
-- `check_heartbeats` of broker/src/coordinator.rs leaves no silent members and no empty groups.
use gaffa.Prelude.{
  ℕ, zero, suc, ◌+◌, ◌-◌, ◌%◌, ◌≤◌, ◌<◌, ◌≡◌, refl, sym, ap, String, str_eq, false, List, [], ◌∷◌,
  arith, length, le_cases, All, All-map, inl, inr,
}
use mathlib.Core.Path.{subst}
use gaffa.Prelude.Maps.{member}
use gaffa.Protocol.Messages.{PartitionAssignment}
use gaffa.Broker.Coordinator.{
  GroupMember, ConsumerGroup, GroupCoordinator, give_at, assign_from, cleared, rebalance, dead_of,
  get_dead_members, remove_all, checked, checked_all, check_heartbeats,
}
use gaffa.Broker.Coordinator.Assignment.{partitions_of, rebalance_some}
use gaffa.Broker.Coordinator.Removal.{listed, shorter, All-remove_all, All-both, All-removed}

abbrev Entry : Type 0
Entry = String × GroupMember

module _ (now timeout : ℕ) where
  -- The member has been heard of within the timeout.
  abbrev pub IsAlive : Entry → Type 0
  IsAlive e = now - e.1.last_heartbeat ≤ timeout

  All-give_at :
      (k : ℕ) (a : PartitionAssignment) (es : List Entry)
      → All IsAlive es
      → All IsAlive (give_at k a es)
  unfolding give_at
  All-give_at k a [] h = tt
  All-give_at zero a (e ∷ es) (p, h) = (p, h)
  All-give_at (suc k) a (e ∷ es) (p, h) = (p, All-give_at k a es h)

  All-assign_from :
      (idx n : ℕ) (parts : List PartitionAssignment) (es : List Entry)
      → All IsAlive es
      → All IsAlive (assign_from idx n parts es)
  unfolding assign_from
  All-assign_from idx n [] es h = h
  All-assign_from idx n (a ∷ parts) es h =
      All-assign_from (idx + 1) n parts (give_at (idx % n) a es) (All-give_at (idx % n) a es h)

  All-cleared : (es : List Entry) → All IsAlive es → All IsAlive (cleared es)
  All-cleared [] h = tt
  All-cleared (e ∷ es) (p, h) = (p, All-cleared es h)

  All-rebalance :
      (order : List String → List String) (g : ConsumerGroup) (tp : List (String × ℕ))
      → 0 < length g.members
      → All IsAlive g.members
      → All IsAlive (rebalance order g tp).members
  All-rebalance order g tp some_member h =
      subst (All IsAlive) (sym (rebalance_some order g tp some_member)) (
        All-assign_from 0 (length g.members) (partitions_of order g tp) (cleared g.members)
          (All-cleared g.members h))

  dead_keeps :
      (e : Entry) (es : List Entry)
      → now - e.1.last_heartbeat ≤ timeout
      → dead_of now timeout (e ∷ es) ≡ dead_of now timeout es
  unfolding dead_of
  dead_keeps e es h = ground arith

  dead_adds :
      (e : Entry) (es : List Entry)
      → timeout < now - e.1.last_heartbeat
      → dead_of now timeout (e ∷ es) ≡ e.0 ∷ dead_of now timeout es
  unfolding dead_of
  dead_adds e es h = ground arith

  -- Who is not on the list of the dead is alive.
  spared :
      (es : List Entry)
      → All (λ e. member str_eq e.0 (dead_of now timeout es) ≡ false → IsAlive e) es
  unfolding dead_of
  spared [] = tt
  spared (e ∷ es) = elim (le_cases (now - e.1.last_heartbeat) timeout) [
    | inl alive ↦
        let keeps = dead_keeps e es alive in
        (
          λ d. alive,
          subst (λ l. All (λ f. member str_eq f.0 l ≡ false → IsAlive f) es) (sym keeps)
              (spared es),
        )
    | inr dead ↦
        let adds = dead_adds e es dead in
        subst (λ l. All (λ f. member str_eq f.0 l ≡ false → IsAlive f) (e ∷ es)) (sym adds)
          (
            λ d. absurd (cc (listed e.0 (dead_of now timeout es), d)),
            All-map (λ f. member str_eq f.0 (dead_of now timeout es) ≡ false → IsAlive f)
                (λ f. member str_eq f.0 (e.0 ∷ dead_of now timeout es) ≡ false → IsAlive f) es
                (λ f p d. p (shorter f.0 e.0 (dead_of now timeout es) d)) (spared es),
          )
  ]

  left-IsAlive :
      (g : ConsumerGroup) → All IsAlive (remove_all (dead_of now timeout g.members) g).members
  left-IsAlive g =
      let dead = dead_of now timeout g.members in
      All-both (λ e. member str_eq e.0 dead ≡ false → IsAlive e)
        (λ e. member str_eq e.0 dead ≡ false) IsAlive (remove_all dead g).members (λ e p q. p q)
        (All-remove_all (λ e. member str_eq e.0 dead ≡ false → IsAlive e) dead g (spared g.members))
        (All-removed dead g)

  module _ (order : List String → List String) (tp : List (String × ℕ)) (g : ConsumerGroup) where
    checked_none : dead_of now timeout g.members ≡ [] → checked order now timeout tp g ≡ g
    unfolding checked get_dead_members
    checked_none h = rw (checked, h)

    -- What is done when somebody has fallen silent.
    abbrev after : ConsumerGroup → ConsumerGroup
    after left = elim left.members [ [] ↦ left | e ∷ es ↦ rebalance order left tp ]

    checked_some :
        (id : String) (ids : List String)
        → dead_of now timeout g.members ≡ id ∷ ids
        → checked order now timeout tp g ≡ after (remove_all (id ∷ ids) g)
    unfolding checked get_dead_members
    checked_some id ids h = rw (checked, h)

    module _ (left : ConsumerGroup) where
      after_none : left.members ≡ [] → after left ≡ left
      after_none h =
          ap
            (λ es. elim es as (λ _. ConsumerGroup) [ [] ↦ left | e ∷ es ↦ rebalance order left tp ])
            h

      after_some :
          (d : Entry) (es : List Entry)
          → left.members ≡ d ∷ es
          → after left ≡ rebalance order left tp
      after_some d es h =
          ap
            (λ es. elim es as (λ _. ConsumerGroup) [ [] ↦ left | e ∷ es ↦ rebalance order left tp ])
            h

    after-IsAlive :
        (left : ConsumerGroup) → All IsAlive left.members → All IsAlive (after left).members
    after-IsAlive left h = go left.members refl
      where
        go : (es : List Entry) → left.members ≡ es → All IsAlive (after left).members
        go [] e = subst (λ l. All IsAlive l.members) (sym (after_none left e)) h
        go (d ∷ es) e =
            subst (λ l. All IsAlive l.members) (sym (after_some left d es e))
              (All-rebalance order left tp (omega (arith, ap length e)) h)

    checked-IsAlive : All IsAlive (checked order now timeout tp g).members
    unfolding remove_all
    checked-IsAlive = go (dead_of now timeout g.members) refl
      where
        go :
            (ids : List String)
            → dead_of now timeout g.members ≡ ids
            → All IsAlive (checked order now timeout tp g).members
        go [] h =
            subst (λ l. All IsAlive l.members) (sym (checked_none h))
              (subst (λ ids. All IsAlive (remove_all ids g).members) h (left-IsAlive g))
        go (id ∷ ids) h =
            subst (λ l. All IsAlive l.members) (sym (checked_some id ids h))
              (after-IsAlive (remove_all (id ∷ ids) g)
                (subst (λ ids. All IsAlive (remove_all ids g).members) h (left-IsAlive g)))

  -- The group has members, and all of them have been heard of within the timeout.
  abbrev pub IsLive : String × ConsumerGroup → Type 0
  IsLive e = (0 < length e.1.members) × All IsAlive e.1.members

  module _ (order : List String → List String) (tp : List (String × ℕ)) (e : String × ConsumerGroup)
      (es : List (String × ConsumerGroup)) where
    drops :
        (checked order now timeout tp e.1).members ≡ []
        → checked_all order now timeout tp (e ∷ es) ≡ checked_all order now timeout tp es
    unfolding checked_all
    drops h = rw (checked_all, h)

    keeps :
        (d : Entry) (ds : List Entry)
        → (checked order now timeout tp e.1).members ≡ d ∷ ds
        → checked_all order now timeout tp (e ∷ es)
          ≡ (e.0, checked order now timeout tp e.1) ∷ checked_all order now timeout tp es
    unfolding checked_all
    keeps d ds h = rw (checked_all, h)

  checked_all-IsLive :
      (order : List String → List String) (tp : List (String × ℕ))
      (es : List (String × ConsumerGroup))
      → All IsLive (checked_all order now timeout tp es)
  unfolding checked_all
  checked_all-IsLive order tp [] = tt
  checked_all-IsLive order tp (e ∷ es) =
      go (checked order now timeout tp e.1).members refl (checked_all-IsLive order tp es)
    where
      go :
          (ds : List Entry)
          → (checked order now timeout tp e.1).members ≡ ds
          → All IsLive (checked_all order now timeout tp es)
          → All IsLive (checked_all order now timeout tp (e ∷ es))
      go [] h rest = subst (All IsLive) (sym (drops order tp e es h)) rest
      go (d ∷ ds) h rest =
          subst (All IsLive) (sym (keeps order tp e es d ds h))
            ((omega (arith, ap length h), checked-IsAlive order tp e.1), rest)

-- After `check_heartbeats` every group that is left has members, and all members of all groups
-- have sent a heartbeat within the timeout.
pub check_heartbeats-IsLive :
    (order : List String → List String) (c : GroupCoordinator) (now : ℕ)
    → All (IsLive now c.heartbeat_timeout) (check_heartbeats order c now).groups
unfolding check_heartbeats
check_heartbeats-IsLive order c now =
    checked_all-IsLive now c.heartbeat_timeout order c.topic_partitions c.groups
