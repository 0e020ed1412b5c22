-- ===== src/Broker/Coordinator/Assignment/Wanted.antt =====
-- Which partitions `rebalance` of broker/src/coordinator.rs deals out.
use gaffa.Prelude.{
  ℕ, zero, suc, ◌≡◌, refl, sym, ap, ◌∙◌, String, str_eq, Bool, true, false, ◌&&◌, ◌||◌, Option,
  none, some, List, [], ◌∷◌, ◌++◌, map, arith, ltb, ◌==◌, Bool-cases, Option-cases, inl, inr,
}
use mathlib.Core.Path.{subst}
use gaffa.Prelude.Maps.{find, member, str-Lawful, NoRepeats, member-append, NoRepeats-append}
use gaffa.Protocol.Messages.{PartitionAssignment, range}
use gaffa.Broker.Coordinator.{GroupMember, all_topics, all_partitions}
use gaffa.Broker.Coordinator.Assignment.Topics.{
  assignment_eq, is_interesting, is_counted, is_wanted, IsOrder, both, or_false, dropped, absorbed,
  assignment-Lawful, member-all_topics, all_topics-NoRepeats,
}

-- The partitions of one topic.
abbrev partitions_below : String → ℕ → List PartitionAssignment
partitions_below t n = map (λ p. record { topic = t; partition = p }) (range n)

below_step :
    (t : String) (n : ℕ)
    → partitions_below t (suc n) ≡ partitions_below t n ++ record { topic = t; partition = n } ∷ []
unfolding range
below_step t n = go (range n)
  where
    go :
        (ns : List ℕ)
        → map {B = PartitionAssignment} (λ p. record { topic = t; partition = p }) (ns ++ n ∷ [])
          ≡ map {B = PartitionAssignment} (λ p. record { topic = t; partition = p }) ns
            ++ record { topic = t; partition = n } ∷ []
    go [] = refl
    go (p ∷ ns) = ap (λ l. record { topic = t; partition = p } ∷ l) (go ns)

last_below :
    (x : Bool) (p n : ℕ) → ((x && ltb p n) || ((x && (p == n)) || false)) ≡ (x && ltb p (suc n))
last_below true p n = ground arith
last_below false p n = refl

member-partitions_below :
    (a : PartitionAssignment) (t : String) (n : ℕ)
    → member assignment_eq a (partitions_below t n) ≡ (str_eq a.topic t && ltb a.partition n)
unfolding range
member-partitions_below a t zero = none_below (str_eq a.topic t)
  where
    none_below : (x : Bool) → false ≡ (x && ltb a.partition 0)
    none_below true = ground arith
    none_below false = refl
member-partitions_below a t (suc n) =
    ap (member assignment_eq a) (below_step t n)
    ∙ member-append assignment_eq a (partitions_below t n)
        (record { topic = t; partition = n } ∷ [])
    ∙ ap (λ b. b || (assignment_eq a (record { topic = t; partition = n }) || false))
        (member-partitions_below a t n)
    ∙ last_below (str_eq a.topic t) a.partition n

partitions_below-NoRepeats : (t : String) (n : ℕ) → NoRepeats assignment_eq (partitions_below t n)
unfolding range
partitions_below-NoRepeats t zero = tt
partitions_below-NoRepeats t (suc n) = subst (NoRepeats assignment_eq) (sym (below_step t n)) (
    NoRepeats-append assignment_eq assignment-Lawful (partitions_below t n)
      (record { topic = t; partition = n } ∷ []) (partitions_below-NoRepeats t n) (refl, tt)
      (λ a m.
        apart a
          (both (str_eq a.topic t) (ltb a.partition n) (sym (member-partitions_below a t n) ∙ m))))
  where
    apart :
        (a : PartitionAssignment)
        → (str_eq a.topic t ≡ true) × (ltb a.partition n ≡ true)
        → member assignment_eq a (record { topic = t; partition = n } ∷ []) ≡ false
    apart a (x, y) = let differs : (a.partition == n) ≡ false = ground arith in rw (x, differs)

module _ (topic_partitions : List (String × ℕ)) where
  unknown_topic :
      (t : String) (ts : List String)
      → find str_eq t topic_partitions ≡ none
      → all_partitions topic_partitions (t ∷ ts) ≡ all_partitions topic_partitions ts
  unfolding all_partitions
  unknown_topic t ts h = rw (all_partitions, h)

  known_topic :
      (t : String) (ts : List String) (n : ℕ)
      → find str_eq t topic_partitions ≡ some n
      → all_partitions topic_partitions (t ∷ ts)
        ≡ partitions_below t n ++ all_partitions topic_partitions ts
  unfolding all_partitions
  known_topic t ts n h = rw (all_partitions, h)

  counted :
      (a : PartitionAssignment) (t : String) (o : Option ℕ)
      → str_eq a.topic t ≡ true
      → find str_eq t topic_partitions ≡ o
      → is_counted topic_partitions a ≡ (elim o [ none ↦ false | some n ↦ ltb a.partition n ])
  counted a t o q h =
      let found : find str_eq a.topic topic_partitions ≡ o =
        ap (λ k. find str_eq k topic_partitions) (str-Lawful.sound a.topic t q) ∙ h in
      rw (is_counted, found)

  pub member-all_partitions :
      (a : PartitionAssignment) (ts : List String)
      → member assignment_eq a (all_partitions topic_partitions ts)
        ≡ (member str_eq a.topic ts && is_counted topic_partitions a)
  unfolding all_partitions
  member-all_partitions a [] = refl
  member-all_partitions a (t ∷ ts) =
      let rest = member-all_partitions a ts in
      let m = member str_eq a.topic ts in
      let c = is_counted topic_partitions a in
      elim (Option-cases (find str_eq t topic_partitions)) [
        | inl h ↦
            ap (member assignment_eq a) (unknown_topic t ts h)
            ∙ rest
            ∙ (elim (Bool-cases (str_eq a.topic t)) [
              | inr q ↦ rw (q)
              | inl q ↦ dropped (str_eq a.topic t) m c (counted a t none q h)
            ])
        | inr (n, h) ↦
            ap (member assignment_eq a) (known_topic t ts n h)
            ∙ member-append assignment_eq a (partitions_below t n)
                (all_partitions topic_partitions ts)
            ∙ ap (λ b. b || member assignment_eq a (all_partitions topic_partitions ts))
                (member-partitions_below a t n)
            ∙ ap (λ b. (str_eq a.topic t && ltb a.partition n) || b) rest
            ∙ (elim (Bool-cases (str_eq a.topic t)) [
              | inr q ↦ rw (q)
              | inl q ↦ rw (q) (absorbed m c (ltb a.partition n) (counted a t (some n) q h))
            ])
      ]

  pub all_partitions-NoRepeats :
      (ts : List String)
      → NoRepeats str_eq ts
      → NoRepeats assignment_eq (all_partitions topic_partitions ts)
  unfolding all_partitions
  all_partitions-NoRepeats [] h = tt
  all_partitions-NoRepeats (t ∷ ts) (h, hs) =
      let rest = all_partitions-NoRepeats ts hs in
      elim (Option-cases (find str_eq t topic_partitions)) [
        | inl e ↦ subst (NoRepeats assignment_eq) (sym (unknown_topic t ts e)) rest
        | inr (n, e) ↦ subst (NoRepeats assignment_eq) (sym (known_topic t ts n e)) (
            NoRepeats-append assignment_eq assignment-Lawful (partitions_below t n)
              (all_partitions topic_partitions ts) (partitions_below-NoRepeats t n) rest
              (λ a m. member-all_partitions a ts ∙ elsewhere a n m))
      ]
    where
      elsewhere :
          (a : PartitionAssignment) (n : ℕ)
          → member assignment_eq a (partitions_below t n) ≡ true
          → (member str_eq a.topic ts && is_counted topic_partitions a) ≡ false
      elsewhere a n m =
          let (q, below) =
            both (str_eq a.topic t) (ltb a.partition n) (sym (member-partitions_below a t n) ∙ m) in
          let missing : member str_eq a.topic ts ≡ false =
            ap (λ k. member str_eq k ts) (str-Lawful.sound a.topic t q) ∙ h in
          rw (missing)

-- What the group's members want is what there is to deal out.
module _ (order : List String → List String) (law : IsOrder order)
    (members : List (String × GroupMember)) (topic_partitions : List (String × ℕ)) where
  pub member-wanted :
      (a : PartitionAssignment)
      → member assignment_eq a (all_partitions topic_partitions (order (all_topics members [])))
        ≡ is_wanted members topic_partitions a
  member-wanted a =
      member-all_partitions topic_partitions a (order (all_topics members []))
      ∙ ap (λ b. b && is_counted topic_partitions a)
          (law.elements (all_topics members []) a.topic
            ∙ member-all_topics a.topic members []
            ∙ or_false (is_interesting a.topic members))

  pub wanted-NoRepeats :
      NoRepeats assignment_eq (all_partitions topic_partitions (order (all_topics members [])))
  wanted-NoRepeats =
      all_partitions-NoRepeats topic_partitions (order (all_topics members []))
        (law.once (all_topics members []) (all_topics-NoRepeats members [] tt))
