-- ===== src/Broker/Replication/Succession.antt =====
-- What a round of elections of broker/src/replication.rs makes of one partition.
use mathlib.Core.Path.{subst}
use gaffa.Prelude.{ℕ, ◌≡◌, sym, ap, ◌∙◌, true, false, List, ◌==◌, Bool-cases, ◌⊎◌, inl, inr}
use gaffa.Prelude.Maps.{member, remove, nat-Lawful, member-remove_same, member-remove_other}
use gaffa.Broker.Cluster.{PartitionReplicaState, fail_over}
use gaffa.Broker.Cluster.Failover.{IsOrder, fail_over_other, fail_over-IsSafe}

-- The leader is alive.
abbrev pub IsLed : List ℕ → PartitionReplicaState → Type 0
IsLed alive s = member ◌==◌ s.leader alive ≡ true

-- Some in-sync replica is alive, and of the in-sync replicas only the leader may be dead.
abbrev pub HasHeir : List ℕ → PartitionReplicaState → Type 0
HasHeir alive s =
    ((id : ℕ) × (member ◌==◌ id s.isr ≡ true) × (member ◌==◌ id alive ≡ true))
    × ((id : ℕ)
        → member ◌==◌ id s.isr ≡ true
        → (id == s.leader) ≡ false
        → member ◌==◌ id alive ≡ true)

abbrev pub Recovers : List ℕ → PartitionReplicaState → Type 0
Recovers alive s = IsLed alive s ⊎ HasHeir alive s

differs :
    (a b : ℕ) (xs : List ℕ) → member ◌==◌ a xs ≡ true → member ◌==◌ b xs ≡ false → (a == b) ≡ false
differs a b xs h k = elim (Bool-cases (a == b)) [
  | inr e ↦ e
  | inl e ↦ cc (h, k, nat-Lawful.sound a b e)
]

module _ (order : List ℕ → List ℕ) (law : IsOrder order) (alive : List ℕ) (d : ℕ)
    (dead : member ◌==◌ d alive ≡ false) (s : PartitionReplicaState) where
  abbrev after : PartitionReplicaState
  after = (fail_over order d s).0

  abbrev out : PartitionReplicaState
  out = record s { isr = remove ◌==◌ d s.isr }

  pub kept : (s.leader == d) ≡ false → after ≡ out
  kept h = ap (λ r. r.0) (fail_over_other order d s h)

  pub stays-IsLed : IsLed alive s → IsLed alive after
  stays-IsLed h = subst (IsLed alive) (sym (kept (differs s.leader d alive h dead))) h

  in_before : (id : ℕ) → member ◌==◌ id (remove ◌==◌ d s.isr) ≡ true → member ◌==◌ id s.isr ≡ true
  in_before id m =
      sym (
        member-remove_other ◌==◌ nat-Lawful d id s.isr
          (differs id d (remove ◌==◌ d s.isr) m (member-remove_same ◌==◌ nat-Lawful d s.isr)))
      ∙ m

  pub stays-HasHeir : (s.leader == d) ≡ false → HasHeir alive s → HasHeir alive after
  stays-HasHeir h ((id, m, a), all) = subst (HasHeir alive) (sym (kept h)) (
    (id, member-remove_other ◌==◌ nat-Lawful d id s.isr (differs id d alive a dead) ∙ m, a),
    λ k mk n. all k (in_before k mk) n,
  )

  -- A dead leader with an heir is followed by a broker that is alive.
  pub falls-IsLed : (s.leader == d) ≡ true → HasHeir alive s → IsLed alive after
  falls-IsLed h ((id, m, a), all) =
      let (safe, how) = fail_over-IsSafe order d s law (id, m, differs id d alive a dead) in
      elim how [
        | inl e ↦ cc (h, e)
        | inr (inside, _, _) ↦
            all after.leader inside
              (ap (λ x. after.leader == x) (nat-Lawful.sound s.leader d h) ∙ safe.1)
      ]
