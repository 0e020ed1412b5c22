-- ===== src/Client/Producer/Grouping.antt =====
-- The batches that client/src/producer.rs makes of messages.
use gaffa.Prelude.{
  ℕ, ◌≡◌, refl, sym, ap, ◌∙◌, false, none, some, List, [], ◌∷◌, ◌++◌, append-nil, append_assoc, map,
  arith, ◌==◌, if◌then◌else◌, Bool-cases, inl, inr,
}
use gaffa.Prelude.Maps.{find, member, Distinct, not_in, beq_sym}
use gaffa.Common.Error.{Result, ok, err, panic}
use gaffa.Protocol.Messages.{Message}
use gaffa.Client.Partitioner.{Partitioner}
use gaffa.Client.Producer.{push_to, group_messages}

-- The batch of a partition, empty if it has none.
abbrev pub batch_of : ℕ → List (ℕ × List Message) → List Message
batch_of i batches = elim (find ◌==◌ i batches) [ none ↦ [] | some batch ↦ batch ]

-- The messages that were sent to a partition, in their order.
unfoldable pub sent_to : ℕ → List (ℕ × Message) → List Message
sent_to i [] = []
sent_to i (c ∷ cs) = let rest = sent_to i cs in if i == c.0 then c.1 ∷ rest else rest

abbrev with_choice :
    {P : Type 0} → ℕ × Message → P × Result (List (ℕ × Message)) → P × Result (List (ℕ × Message))
with_choice c (p, panic) = (p, panic)
with_choice c (p, err e) = (p, err e)
with_choice c (p, ok cs) = (p, ok (c ∷ cs))

-- The partitions that the partitioner gives the messages, one after the other.
unfoldable pub choose :
    {P : Type 0} → Partitioner P → ℕ → List Message → P → P × Result (List (ℕ × Message))
choose by n [] p = (p, ok [])
choose by n (m ∷ ms) p =
    let (p', chosen) = by.partition p m.key n in
    elim chosen [
      | panic ↦ (p', panic)
      | err e ↦ (p', err e)
      | ok i ↦ with_choice (i, m) (choose by n ms p')
    ]

batch_of-push_to :
    (i j : ℕ) (m : Message) (batches : List (ℕ × List Message))
    → batch_of i (push_to j m batches)
      ≡ (if i == j then batch_of i batches ++ m ∷ [] else batch_of i batches)
unfolding push_to
batch_of-push_to i j m [] = ground arith
batch_of-push_to i j m (e ∷ es) = elim (Bool-cases (j == e.0)) [
  | inl h ↦ ground (arith, h)
  | inr h ↦ elim (Bool-cases (i == e.0)) [
    | inl g ↦ ground (arith, h, g)
    | inr g ↦ rw (h) (rw (batch_of, g) (batch_of-push_to i j m es))
  ]
]

abbrev keys : List (ℕ × List Message) → List ℕ
keys = map (λ e. e.0)

member-push_to :
    (i j : ℕ) (m : Message) (batches : List (ℕ × List Message))
    → (i == j) ≡ false
    → member ◌==◌ i (keys batches) ≡ false
    → member ◌==◌ i (keys (push_to j m batches)) ≡ false
unfolding push_to
member-push_to i j m [] d h = rw (d)
member-push_to i j m (e ∷ es) d h =
    let (other, rest) = not_in i e.0 (keys es) h in
    elim (Bool-cases (j == e.0)) [
      | inl a ↦ rw (a) (rw (other) rest)
      | inr a ↦ rw (a) (rw (other) (member-push_to i j m es d rest))
    ]

push_to-Distinct :
    (j : ℕ) (m : Message) (batches : List (ℕ × List Message))
    → Distinct (keys batches)
    → Distinct (keys (push_to j m batches))
unfolding push_to
push_to-Distinct j m [] h = (refl, tt)
push_to-Distinct j m (e ∷ es) h = elim (Bool-cases (j == e.0)) [
  | inl a ↦ rw (a) h
  | inr a ↦ rw (a) (member-push_to e.0 j m es (beq_sym j e.0 a) h.0, push_to-Distinct j m es h.1)
]

push_all : List (ℕ × Message) → List (ℕ × List Message) → List (ℕ × List Message)
push_all [] batches = batches
push_all (c ∷ cs) batches = push_all cs (push_to c.0 c.1 batches)

push_all-Distinct :
    (cs : List (ℕ × Message)) (batches : List (ℕ × List Message))
    → Distinct (keys batches)
    → Distinct (keys (push_all cs batches))
unfolding push_all
push_all-Distinct [] batches h = h
push_all-Distinct (c ∷ cs) batches h =
    push_all-Distinct cs (push_to c.0 c.1 batches) (push_to-Distinct c.0 c.1 batches h)

batch_of-push_all :
    (i : ℕ) (cs : List (ℕ × Message)) (batches : List (ℕ × List Message))
    → batch_of i (push_all cs batches) ≡ batch_of i batches ++ sent_to i cs
unfolding push_all sent_to
batch_of-push_all i [] batches = sym (append-nil (batch_of i batches))
batch_of-push_all i (c ∷ cs) batches =
    batch_of-push_all i cs (push_to c.0 c.1 batches) ∙ elim (Bool-cases (i == c.0)) [
      | inl a ↦
          rw (batch_of-push_to i c.0 c.1 batches, a)
            (append_assoc (batch_of i batches) (c.1 ∷ []) (sent_to i cs))
      | inr a ↦ rw (batch_of-push_to i c.0 c.1 batches, a)
    ]

-- What the batches are for an outcome of the choices.
abbrev collected :
    Result (List (ℕ × Message)) → List (ℕ × List Message) → Result (List (ℕ × List Message))
collected panic batches = panic
collected (err e) batches = err e
collected (ok cs) batches = ok (push_all cs batches)

module _ {P : Type 0} (by : Partitioner P) (n : ℕ) where
  -- A pair with its type.
  abbrev joint : P × Result (List (ℕ × List Message)) → P × Result (List (ℕ × List Message))
  joint r = r

  with_choice-collected :
      (c : ℕ × Message) (batches : List (ℕ × List Message)) (r : P × Result (List (ℕ × Message)))
      → joint (r.0, collected r.1 (push_to c.0 c.1 batches))
        ≡ joint ((with_choice c r).0, collected (with_choice c r).1 batches)
  unfolding push_all
  with_choice-collected c batches (p, panic) = refl
  with_choice-collected c batches (p, err e) = refl
  with_choice-collected c batches (p, ok cs) = refl

  group-choose :
      (ms : List Message) (p : P) (batches : List (ℕ × List Message))
      → group_messages by n ms p batches
        ≡ ((choose by n ms p).0, collected (choose by n ms p).1 batches)
  unfolding group_messages choose push_all
  group-choose [] p batches = refl
  group-choose (m ∷ ms) p batches =
      go (by.partition p m.key n).1 refl
        (λ i. group-choose ms (by.partition p m.key n).0 (push_to i m batches))
    where
      go :
          (chosen : Result ℕ)
          → (by.partition p m.key n).1 ≡ chosen
          → ((i : ℕ)
              → group_messages by n ms (by.partition p m.key n).0 (push_to i m batches) ≡ (
                (choose by n ms (by.partition p m.key n).0).0,
                collected (choose by n ms (by.partition p m.key n).0).1 (push_to i m batches),
              ))
          → group_messages by n (m ∷ ms) p batches
            ≡ ((choose by n (m ∷ ms) p).0, collected (choose by n (m ∷ ms) p).1 batches)
      go panic e rest = rw (group_messages, choose, e)
      go (err x) e rest = rw (group_messages, choose, e)
      go (ok i) e rest =
          rw (group_messages, choose, e)
            (rest i
              ∙ with_choice-collected (i, m) batches (choose by n ms (by.partition p m.key n).0))

  -- Where the partitioner gives each message a partition, the batches have each partition at most
  -- once, and the batch of a partition has exactly the messages that were given it, in the order in
  -- which they were sent.
  pub group_messages-sent_to :
      (ms : List Message) (p p' : P) (cs : List (ℕ × Message))
      → choose by n ms p ≡ (p', ok cs)
      → (batches : List (ℕ × List Message)) × (group_messages by n ms p [] ≡ (p', ok batches))
        × Distinct (keys batches)
        × ((i : ℕ) → batch_of i batches ≡ sent_to i cs)
  group_messages-sent_to ms p p' cs h = (
    push_all cs [],
    group-choose ms p [] ∙ ap (λ r. (r.0, collected r.1 [])) h,
    push_all-Distinct cs [] tt,
    λ i. batch_of-push_all i cs [],
  )
