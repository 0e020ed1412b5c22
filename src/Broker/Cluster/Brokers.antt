-- ===== src/Broker/Cluster/Brokers.antt =====
-- The brokers of broker/src/cluster.rs stand under their ids, each of them once.
use gaffa.Prelude.{
  ℕ, ◌≡◌, refl, sym, false, List, [], ◌∷◌, map, ◌==◌, if◌then◌else◌, Bool-cases, inl, inr,
}
use mathlib.Core.Path.{subst}
use gaffa.Prelude.Maps.{put, member, nat-Lawful, Distinct, not_in, beq_sym}
use gaffa.Broker.Cluster.{
  BrokerInfo, ClusterMetadata, is_alive, alive_of, get_alive_brokers, register_broker,
}

abbrev keys : List (ℕ × BrokerInfo) → List ℕ
keys = map (λ e. e.0)

abbrev pub ids_of : List BrokerInfo → List ℕ
ids_of = map (λ b. b.id)

-- A map of brokers by their ids.
abbrev pub IsKeyed : List (ℕ × BrokerInfo) → Type 0
IsKeyed [] = Unit
IsKeyed (e ∷ es) = (e.0 ≡ e.1.id) × (member ◌==◌ e.0 (keys es) ≡ false) × IsKeyed es

module _ (now timeout : ℕ) where
  alive_step :
      (e : ℕ × BrokerInfo) (es : List (ℕ × BrokerInfo))
      → alive_of now timeout (e ∷ es) ≡ (
          if is_alive now timeout e.1
          then e.1 ∷ alive_of now timeout es
          else alive_of now timeout es)
  unfolding alive_of
  alive_step e es = refl

  member-alive_of :
      (id : ℕ) (es : List (ℕ × BrokerInfo))
      → IsKeyed es
      → member ◌==◌ id (keys es) ≡ false
      → member ◌==◌ id (ids_of (alive_of now timeout es)) ≡ false
  unfolding alive_of
  member-alive_of id [] h m = refl
  member-alive_of id (e ∷ es) h m =
      let (other, rest) = not_in id e.0 (keys es) m in
      subst (λ bs. member ◌==◌ id (ids_of bs) ≡ false) (sym (alive_step e es))
        (elim (Bool-cases (is_alive now timeout e.1)) [
          | inl a ↦
              rw (a, subst (λ k. (id == k) ≡ false) h.0 other) (member-alive_of id es h.2 rest)
          | inr a ↦ rw (a) (member-alive_of id es h.2 rest)
        ])

  alive_of-Distinct :
      (es : List (ℕ × BrokerInfo)) → IsKeyed es → Distinct (ids_of (alive_of now timeout es))
  unfolding alive_of
  alive_of-Distinct [] h = tt
  alive_of-Distinct (e ∷ es) h =
      subst (λ bs. Distinct (ids_of bs)) (sym (alive_step e es))
        (elim (Bool-cases (is_alive now timeout e.1)) [
          | inl a ↦ rw (a) (
            subst (λ id. member ◌==◌ id (ids_of (alive_of now timeout es)) ≡ false) h.0
                (member-alive_of e.0 es h.2 h.1),
            alive_of-Distinct es h.2,
          )
          | inr a ↦ rw (a) (alive_of-Distinct es h.2)
        ])

pub get_alive_brokers-Distinct :
    (c : ClusterMetadata) (now : ℕ)
    → IsKeyed c.brokers
    → Distinct (ids_of (get_alive_brokers c now))
unfolding get_alive_brokers
get_alive_brokers-Distinct c now h = alive_of-Distinct now c.broker_timeout c.brokers h

module _ (id : ℕ) (b : BrokerInfo) where
  member-put :
      (k : ℕ) (es : List (ℕ × BrokerInfo))
      → (k == id) ≡ false
      → member ◌==◌ k (keys es) ≡ false
      → member ◌==◌ k (keys (put ◌==◌ id b es)) ≡ false
  member-put k [] d m = rw (d)
  member-put k (e ∷ es) d m =
      let (other, rest) = not_in k e.0 (keys es) m in
      elim (Bool-cases (id == e.0)) [
        | inl a ↦ rw (a, d) rest
        | inr a ↦ rw (a) (rw (other) (member-put k es d rest))
      ]

  put-IsKeyed : (es : List (ℕ × BrokerInfo)) → id ≡ b.id → IsKeyed es → IsKeyed (put ◌==◌ id b es)
  put-IsKeyed [] e h = (e, refl, tt)
  put-IsKeyed (x ∷ es) e h = elim (Bool-cases (id == x.0)) [
    | inl a ↦
        rw (a) (
          e,
          subst (λ k. member ◌==◌ k (keys es) ≡ false) (sym (nat-Lawful.sound id x.0 a)) h.1,
          h.2,
        )
    | inr a ↦ rw (a) (h.0, member-put x.0 es (beq_sym id x.0 a) h.1, put-IsKeyed es e h.2)
  ]

-- `register_broker` keeps the brokers under their ids.
pub register_broker-IsKeyed :
    (c : ClusterMetadata) (b : BrokerInfo)
    → IsKeyed c.brokers
    → IsKeyed (register_broker c b).brokers
unfolding register_broker
register_broker-IsKeyed c b h = put-IsKeyed b.id b c.brokers refl h
