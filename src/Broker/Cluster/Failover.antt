-- ===== src/Broker/Cluster/Failover.antt =====
-- Elections of broker/src/cluster.rs when a broker fails.
use gaffa.Prelude.{
  ℕ, ◌≡◌, refl, sym, ap, ◌∙◌, true, false, Option, none, some, List, [], ◌∷◌, map, arith, ◌==◌,
  add32, Bool-cases, All, ◌⊎◌, inl, inr,
}
use mathlib.Core.Path.{subst}
use gaffa.Prelude.Maps.{member, remove, nat-Lawful, member-remove_same, member-remove_other}
use gaffa.Broker.Cluster.{
  Key, PartitionReplicaState, ClusterMetadata, elect_new_leader, fail_over, fail_over_all,
  handle_broker_failure,
}

-- An order of iteration gives the members of the set.
abbrev pub IsOrder : (List ℕ → List ℕ) → Type 0
IsOrder order = (xs : List ℕ) (id : ℕ) → member ◌==◌ id (order xs) ≡ member ◌==◌ id xs

-- Some in-sync replica is another broker.
abbrev pub HasOther : ℕ → PartitionReplicaState → Type 0
HasOther failed s = (id : ℕ) × (member ◌==◌ id s.isr ≡ true) × ((id == failed) ≡ false)

abbrev pub IsSafe : ℕ → PartitionReplicaState → Type 0
IsSafe failed s = (member ◌==◌ failed s.isr ≡ false) × ((s.leader == failed) ≡ false)

module _ (order : List ℕ → List ℕ) (failed : ℕ) (s : PartitionReplicaState) where
  abbrev pub out : PartitionReplicaState
  out = record s { isr = remove ◌==◌ failed s.isr }

  pub fail_over_other : (s.leader == failed) ≡ false → fail_over order failed s ≡ (out, none)
  unfolding fail_over
  fail_over_other h = rw (h)

  pub fail_over_leader :
      (s.leader == failed) ≡ true → fail_over order failed s ≡ elect_new_leader order out
  unfolding fail_over
  fail_over_leader h = rw (h)

  elect_in_sync :
      (id : ℕ) (ids : List ℕ)
      → order (remove ◌==◌ failed s.isr) ≡ id ∷ ids
      → elect_new_leader order out
        ≡ (record out { leader = id; leader_epoch = add32 s.leader_epoch 1 }, some id)
  unfolding elect_new_leader
  elect_in_sync id ids h = rw (elect_new_leader, h)

  removed : member ◌==◌ failed (remove ◌==◌ failed s.isr) ≡ false
  removed = member-remove_same ◌==◌ nat-Lawful failed s.isr

  module _ (law : IsOrder order) where
    -- An in-sync replica other than the failed broker is elected, in a new epoch.
    abbrev pub Elected : Type 0
    Elected =
        (id : ℕ) × (elect_new_leader order out
          ≡ (record out { leader = id; leader_epoch = add32 s.leader_epoch 1 }, some id))
        × ((id == failed) ≡ false)
        × (member ◌==◌ id s.isr ≡ true)

    pub elected : HasOther failed s → Elected
    elected (other, m, d) = go (order (remove ◌==◌ failed s.isr)) refl
      where
        go : (ids : List ℕ) → order (remove ◌==◌ failed s.isr) ≡ ids → Elected
        go [] e = absurd (
            cc (
              sym (ap (member ◌==◌ other) e),
              law (remove ◌==◌ failed s.isr) other
                  ∙ member-remove_other ◌==◌ nat-Lawful failed other s.isr d
                  ∙ m,
            ))
        go (id ∷ ids) e =
            let inside : member ◌==◌ id (remove ◌==◌ failed s.isr) ≡ true =
              sym (law (remove ◌==◌ failed s.isr) id) ∙ ap (member ◌==◌ id) e ∙ first id ids in
            let differs = not_failed id inside in
            (
              id,
              elect_in_sync id ids e,
              differs,
              sym (member-remove_other ◌==◌ nat-Lawful failed id s.isr differs) ∙ inside,
            )
          where
            first : (id : ℕ) (ids : List ℕ) → member ◌==◌ id (id ∷ ids) ≡ true
            first id ids = ground arith

            not_failed :
                (id : ℕ) → member ◌==◌ id (remove ◌==◌ failed s.isr) ≡ true → (id == failed) ≡ false
            not_failed id m = elim (Bool-cases (id == failed)) [
              | inl h ↦ absurd (cc (removed, m, nat-Lawful.sound id failed h))
              | inr h ↦ h
            ]

    -- Where another replica is in sync and the order of iteration gives the members of a set, the
    -- failed broker is neither in sync nor the leader after the round; if it was the leader, the
    -- new one is one of the in-sync replicas, is reported, and has a new epoch.
    pub fail_over-IsSafe :
        HasOther failed s
        → IsSafe failed (fail_over order failed s).0
          × (((s.leader == failed) ≡ false)
              ⊎ ((member ◌==◌ (fail_over order failed s).0.leader s.isr ≡ true)
                  × ((fail_over order failed s).1 ≡ some (fail_over order failed s).0.leader)
                  × ((fail_over order failed s).0.leader_epoch ≡ add32 s.leader_epoch 1)))
    fail_over-IsSafe o = elim (Bool-cases (s.leader == failed)) [
      | inr keeps ↦
          let run = fail_over_other keeps in
          (
            (
              ap (λ p. member ◌==◌ failed p.0.isr) run ∙ removed,
              ap (λ p. p.0.leader == failed) run ∙ keeps,
            ),
            inl keeps,
          )
      | inl loses ↦
          let (id, e, differs, inside) = elected o in
          let run = fail_over_leader loses ∙ e in
          (
            (
              ap (λ p. member ◌==◌ failed p.0.isr) run ∙ removed,
              ap (λ p. p.0.leader == failed) run ∙ differs,
            ),
            inr (
              ap (λ p. member ◌==◌ p.0.leader s.isr) run ∙ inside,
              ap (λ p. p.1) run ∙ ap (λ p. some p.0.leader) (sym run),
              ap (λ p. p.0.leader_epoch) run,
            ),
          )
    ]

module _ (order : List ℕ → List ℕ) (failed : ℕ) where
  pub round_states :
      (e : Key × PartitionReplicaState) (es : List (Key × PartitionReplicaState))
      → (fail_over_all order failed (e ∷ es)).0
        ≡ (e.0, (fail_over order failed e.1).0) ∷ (fail_over_all order failed es).0
  unfolding fail_over_all
  round_states e es = go (fail_over order failed e.1).1 refl
    where
      go :
          (o : Option ℕ)
          → (fail_over order failed e.1).1 ≡ o
          → (fail_over_all order failed (e ∷ es)).0
            ≡ (e.0, (fail_over order failed e.1).0) ∷ (fail_over_all order failed es).0
      go none h = rw (fail_over_all, h)
      go (some id) h = rw (fail_over_all, h)

  All-IsSafe :
      IsOrder order
      → (es : List (Key × PartitionReplicaState)) → All (λ e. HasOther failed e.1) es
      → All (λ e. IsSafe failed e.1) (fail_over_all order failed es).0
        × (map (λ e. e.0) (fail_over_all order failed es).0 ≡ map (λ e. e.0) es)
  All-IsSafe law [] h = unfold fail_over_all in (tt, refl)
  All-IsSafe law (e ∷ es) (o, h) =
      let (safe, keys) = All-IsSafe law es h in
      (
        subst (All (λ d. IsSafe failed d.1)) (sym (round_states e es))
            ((fail_over-IsSafe order failed e.1 law o).0, safe),
        ap (map (λ d. d.0)) (round_states e es) ∙ ap (λ l. e.0 ∷ l) keys,
      )

  -- After `handle_broker_failure` the failed broker leads no partition and is in sync in none, if
  -- every partition had another in-sync replica and the order of iteration gives the members of a
  -- set; the cluster has the same partitions as before.
  pub handle_broker_failure-IsSafe :
      IsOrder order
      → (c : ClusterMetadata) → All (λ e. HasOther failed e.1) c.partition_states
      → let after = (handle_broker_failure order c failed).0 in
        All (λ e. IsSafe failed e.1) after.partition_states
        × (map (λ e. e.0) after.partition_states ≡ map (λ e. e.0) c.partition_states)
  unfolding handle_broker_failure
  handle_broker_failure-IsSafe law c h = All-IsSafe law c.partition_states h
