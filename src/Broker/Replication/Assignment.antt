-- ===== src/Broker/Replication/Assignment.antt =====
-- The replicas that broker/src/replication.rs assigns to a partition.
use gaffa.Prelude.{
  ℕ, zero, suc, ◌+◌, ◌/◌, ◌%◌, ◌≤◌, ◌<◌, ◌≡◌, ◌≢◌, refl, ap, true, false, some, List, [], ◌∷◌,
  arith, length, get_elem?, get_elem?_below, ◌==◌, ==_iff, min, Bool-cases, All, inl, inr, le_cases,
}
use native.Mathlib.Nat.{div-add-mod, mod-lt, mul-le-mul_left}
use mathlib.Core.Path.{subst}
use gaffa.Prelude.Maps.{member, Distinct, beq_sym}
use gaffa.Common.Error.{ok}
use gaffa.Broker.Cluster.{BrokerInfo, ClusterMetadata, get_alive_brokers}
use gaffa.Broker.Cluster.Brokers.{ids_of, IsKeyed, get_alive_brokers-Distinct}
use gaffa.Broker.Replication.{ReplicationManager, ring, led, assign_partition_replicas}

some_inj : {b d : BrokerInfo} → some b ≡ some d → b ≡ d
some_inj h = cc

member_at :
    (bs : List BrokerInfo) (i : ℕ) (b : BrokerInfo)
    → get_elem? bs i ≡ some b
    → member ◌==◌ b.id (ids_of bs) ≡ true
member_at [] i b h = cc
member_at (x ∷ bs) zero b h = rw (some_inj h) (ground arith)
member_at (x ∷ bs) (suc i) b h = rw (member_at bs i b h) (ground arith)

no_member :
    (a b : ℕ) (xs : List ℕ) → member ◌==◌ a xs ≡ false → member ◌==◌ b xs ≡ true → (a == b) ≡ false
no_member a b xs h m = elim (Bool-cases (a == b)) [
  | inr e ↦ e
  | inl e ↦ cc (m, subst (λ c. member ◌==◌ c xs ≡ false) ((==_iff a b).0 e) h)
]

apart :
    (x : BrokerInfo) (bs : List BrokerInfo) (j : ℕ) (b d : BrokerInfo)
    → member ◌==◌ x.id (ids_of bs) ≡ false
    → x ≡ b
    → get_elem? bs j ≡ some d
    → (b.id == d.id) ≡ false
apart x bs j b d h e f =
    no_member b.id d.id (ids_of bs) (subst (λ c. member ◌==◌ c.id (ids_of bs) ≡ false) e h)
      (member_at bs j d f)

-- Different places of distinct ids have different ids.
differ :
    (bs : List BrokerInfo) (i j : ℕ) (b d : BrokerInfo)
    → Distinct (ids_of bs)
    → get_elem? bs i ≡ some b
    → get_elem? bs j ≡ some d
    → i ≢ j
    → (b.id == d.id) ≡ false
differ [] i j b d h e f n = cc
differ (x ∷ bs) zero zero b d h e f n = absurd (n refl)
differ (x ∷ bs) zero (suc j) b d h e f n = apart x bs j b d h.0 (some_inj e) f
differ (x ∷ bs) (suc i) zero b d h e f n = beq_sym d.id b.id (apart x bs i d b h.0 (some_inj f) e)
differ (x ∷ bs) (suc i) (suc j) b d h e f n = differ bs i j b d h.1 e f (λ s. n (ap suc s))

places_differ : (n s k i : ℕ) → k < i → i < n + k → (s + k) % n ≢ (s + i) % n
places_differ n s k i h l e = elim (le_cases ((s + i) / n) ((s + k) / n)) [
  | inl a ↦ omega (arith, div-add-mod (s + i) n, div-add-mod (s + k) n, e, mul-le-mul_left n a)
  | inr a ↦ omega (
    arith,
    div-add-mod (s + i) n,
    div-add-mod (s + k) n,
    e,
    mul-le-mul_left {m = (s + k) / n + 1} {n = (s + i) / n} n (omega (arith, a)),
  )
]

module _ (alive : List BrokerInfo) (distinct : Distinct (ids_of alive)) (start : ℕ) where
  abbrev place : ℕ → ℕ
  place i = (start + i) % length alive

  -- What the brokers of the ring from round `i` on are.
  abbrev Fine : ℕ → ℕ → List ℕ → Type 0
  Fine i count ids =
      (length ids ≡ count)
      × All (λ id. member ◌==◌ id (ids_of alive) ≡ true) ids
      × Distinct ids
      × ((k : ℕ) (b : BrokerInfo)
          → k < i
          → i + count ≤ length alive + k
          → get_elem? alive (place k) ≡ some b
          → member ◌==◌ b.id ids ≡ false)

  ring_step :
      (i count : ℕ) (b : BrokerInfo) (ids : List ℕ)
      → get_elem? alive (place i) ≡ some b
      → ring alive start (i + 1) count ≡ ok ids
      → ring alive start i (suc count) ≡ ok (b.id ∷ ids)
  unfolding ring
  ring_step i count b ids e r = rw (ring, e, r)

  ring-Fine :
      (i count : ℕ)
      → 0 < length alive
      → count ≤ length alive
      → (ids : List ℕ) × (ring alive start i count ≡ ok ids) × Fine i count ids
  unfolding ring
  ring-Fine i zero some_alive room = ([], refl, (refl, tt, tt, λ k b h l e. refl))
  ring-Fine i (suc count) some_alive room =
      let (b, e) = get_elem?_below alive (place i) (mod-lt (start + i) some_alive) in
      let (ids, r, (n, all, d, apart)) = ring-Fine (i + 1) count some_alive (omega arith) in
      (
        b.id ∷ ids,
        ring_step i count b ids e r,
        (
          omega (arith, n),
          (member_at alive (place i) b e, all),
          (apart i b (omega arith) (omega arith) e, d),
          λ k c h l f. rw (
            differ alive (place k) (place i) c b distinct f e
                (places_differ (length alive) start k i h (omega arith)),
            apart k c (omega arith) (omega arith) f,
          ),
        ),
      )

-- The partition's leader is the first of its replicas.
abbrev pub IsLed : ℕ → List ℕ → Type 0
IsLed leader [] = ⊥
IsLed leader (id ∷ ids) = leader ≡ id

led-eq-ok :
    (ids : List ℕ) → 0 < length ids → (leader : ℕ) × (led ids ≡ ok (leader, ids)) × IsLed leader ids
led-eq-ok [] h = absurd (omega arith)
led-eq-ok (id ∷ ids) h = (id, refl, refl)

module _ (r : ReplicationManager) (c : ClusterMetadata) (now partition : ℕ) where
  assigned :
      (b : BrokerInfo) (bs : List BrokerInfo) (ids : List ℕ) (leader : ℕ)
      → get_alive_brokers c now ≡ b ∷ bs
      → ring (b ∷ bs) (partition % length (b ∷ bs)) 0 (min r.replication_factor (length (b ∷ bs)))
        ≡ ok ids
      → led ids ≡ ok (leader, ids)
      → assign_partition_replicas r c now partition ≡ ok (leader, ids)
  unfolding assign_partition_replicas
  assigned b bs ids leader a e l = rw (assign_partition_replicas, a) (rw (e) l)

  -- On a cluster whose brokers stand under their ids, with a broker alive and a replication factor
  -- above 0, `assign_partition_replicas` returns as many replicas as the factor asks for, at most
  -- all alive brokers; they are alive, no broker is among them twice, and the first one leads.
  pub assign-Distinct :
      IsKeyed c.brokers
      → 0 < r.replication_factor
      → 0 < length (get_alive_brokers c now)
      → (leader : ℕ) × (replicas : List ℕ) × (assign_partition_replicas r c now partition
          ≡ ok (leader, replicas))
        × (length replicas ≡ min r.replication_factor (length (get_alive_brokers c now)))
        × All (λ id. member ◌==◌ id (ids_of (get_alive_brokers c now)) ≡ true) replicas
        × Distinct replicas
        × IsLed leader replicas
  assign-Distinct keyed factor some_alive =
      go (get_alive_brokers c now) refl some_alive (get_alive_brokers-Distinct c now keyed)
    where
      go :
          (alive : List BrokerInfo)
          → get_alive_brokers c now ≡ alive
          → 0 < length alive
          → Distinct (ids_of alive)
          → (leader : ℕ) × (replicas : List ℕ) × (assign_partition_replicas r c now partition
              ≡ ok (leader, replicas))
            × (length replicas ≡ min r.replication_factor (length alive))
            × All (λ id. member ◌==◌ id (ids_of alive) ≡ true) replicas
            × Distinct replicas
            × IsLed leader replicas
      go [] a n d = absurd (omega arith)
      go (b ∷ bs) a n d =
          let (ids, e, (len, all, apart, _)) =
            ring-Fine (b ∷ bs) d (partition % length (b ∷ bs)) 0
              (min r.replication_factor (length (b ∷ bs))) n (omega arith) in
          let (leader, l, first) = led-eq-ok ids (omega (arith, len, factor, n)) in
          (leader, ids, assigned b bs ids leader a e l, len, all, apart, first)

ring-eq-ok :
    (alive : List BrokerInfo) (start i count : ℕ)
    → 0 < length alive
    → (ids : List ℕ) × (ring alive start i count ≡ ok ids) × (length ids ≡ count)
unfolding ring
ring-eq-ok alive start i zero some_alive = ([], refl, refl)
ring-eq-ok alive start i (suc count) some_alive =
    let (b, e) =
      get_elem?_below alive ((start + i) % length alive) (mod-lt (start + i) some_alive) in
    let (ids, r, n) = ring-eq-ok alive start (i + 1) count some_alive in
    (b.id ∷ ids, rw (ring, e, r), omega (arith, n))

-- With a replication factor above 0 replicas are assigned whatever the cluster is.
pub assign-eq-ok :
    (r : ReplicationManager) (c : ClusterMetadata) (now partition : ℕ)
    → 0 < r.replication_factor
    → (leader : ℕ) × (replicas : List ℕ) × (assign_partition_replicas r c now partition
        ≡ ok (leader, replicas))
unfolding assign_partition_replicas
assign-eq-ok r c now partition factor = go (get_alive_brokers c now) refl
  where
    go :
        (alive : List BrokerInfo)
        → get_alive_brokers c now ≡ alive
        → (leader : ℕ) × (replicas : List ℕ) × (assign_partition_replicas r c now partition
            ≡ ok (leader, replicas))
    go [] a = (c.broker_id, c.broker_id ∷ [], rw (assign_partition_replicas, a))
    go (b ∷ bs) a =
        let (ids, e, n) =
          ring-eq-ok (b ∷ bs) (partition % length (b ∷ bs)) 0
            (min r.replication_factor (length (b ∷ bs))) (omega arith) in
        let (leader, l, first) = led-eq-ok ids (omega (arith, n, factor)) in
        (leader, ids, assigned r c now partition b bs ids leader a e l)
