-- ===== src/Broker/Coordinator/Assignment.antt =====
-- How `rebalance` of broker/src/coordinator.rs deals out the partitions.
pub mod Dealing
pub mod Topics
pub mod Wanted
use gaffa.Prelude.{
  ℕ, zero, suc, ◌+◌, ◌-◌, ◌*◌, ◌/◌, ◌%◌, ◌≤◌, ◌<◌, ◌≡◌, ◌≢◌, refl, sym, ap, ◌∙◌, String, Bool, true,
  false, Option, none, some, List, [], ◌∷◌, ◌++◌, map, append-nil, append_assoc, arith, length,
  length-map, get_elem?, get_elem?_above, ◌==◌, if◌then◌else◌, Bool-cases, le_cases, ◌⊎◌, inl, inr,
  ==_iff, add32,
}
use mathlib.Core.Option.{some-injective}
use native.Mathlib.Nat.{mod-lt, div-add-mod}
use gaffa.Prelude.Division.{div_same, div_next}
use gaffa.Protocol.Messages.{PartitionAssignment}
use gaffa.Broker.Coordinator.{
  GroupMember, ConsumerGroup, give_at, assign_from, cleared, rebalance, all_topics, all_partitions,
}
use gaffa.Prelude.Maps.{member, NoRepeats}
use gaffa.Broker.Coordinator.Assignment.Topics.{IsOrder, assignment_eq, is_wanted}
use gaffa.Broker.Coordinator.Assignment.Wanted.{member-wanted, wanted-NoRepeats}
use gaffa.Broker.Coordinator.Assignment.Dealing.{dealt, get_elem?-dealt_all, length-dealt_near}

abbrev pub given : String × GroupMember → List PartitionAssignment → String × GroupMember
given e more = (e.0, record e.1 { assignments = e.1.assignments ++ more })

abbrev Entry : Type 0
Entry = String × GroupMember

give_at_here :
    (k : ℕ) (a : PartitionAssignment) (es : List Entry) (e : Entry)
    → get_elem? es k ≡ some e
    → get_elem? (give_at k a es) k ≡ some (given e (a ∷ []))
unfolding give_at
give_at_here k a [] e h = cc
give_at_here zero a (d ∷ es) e h = ap (λ c. some (given c (a ∷ []))) (some-injective d e h)
give_at_here (suc k) a (d ∷ es) e h = give_at_here k a es e h

give_at_other :
    (j k : ℕ) (a : PartitionAssignment) (es : List Entry)
    → j ≢ k
    → get_elem? (give_at j a es) k ≡ get_elem? es k
unfolding give_at
give_at_other j k a [] d = refl
give_at_other zero zero a (e ∷ es) d = absurd (d refl)
give_at_other zero (suc k) a (e ∷ es) d = refl
give_at_other (suc j) zero a (e ∷ es) d = refl
give_at_other (suc j) (suc k) a (e ∷ es) d = give_at_other j k a es (λ h. d (ap suc h))

length-give_at :
    (k : ℕ) (a : PartitionAssignment) (es : List Entry) → length (give_at k a es) ≡ length es
unfolding give_at
length-give_at k a [] = refl
length-give_at zero a (e ∷ es) = refl
length-give_at (suc k) a (e ∷ es) = ap suc (length-give_at k a es)

assign_from-dealt :
    (idx n k : ℕ) (rest : List PartitionAssignment) (es : List Entry) (e : Entry)
    → get_elem? es k ≡ some e
    → get_elem? (assign_from idx n rest es) k ≡ some (given e (dealt k n idx rest))
unfolding assign_from
assign_from-dealt idx n k [] es e h =
    h ∙ ap (λ l. some (e.0, record e.1 { assignments = l })) (sym (append-nil e.1.assignments))
assign_from-dealt idx n k (a ∷ rest) es e h = elim (Bool-cases (idx % n == k)) [
  | inl hit ↦
      assign_from-dealt (idx + 1) n k rest (give_at (idx % n) a es) (given e (a ∷ [])) (
        ap (λ j. get_elem? (give_at j a es) k) ((==_iff (idx % n) k).0 hit)
        ∙ give_at_here k a es e h)
      ∙ ap (λ l. some (e.0, record e.1 { assignments = l }))
          (append_assoc e.1.assignments (a ∷ []) (dealt k n (idx + 1) rest)
            ∙ ap
                (λ b.
                  e.1.assignments
                  ++ (if b then a ∷ dealt k n (idx + 1) rest else dealt k n (idx + 1) rest))
                (sym hit))
  | inr miss ↦
      assign_from-dealt (idx + 1) n k rest (give_at (idx % n) a es) e
        (give_at_other (idx % n) k a es (λ q. cc (miss, (==_iff (idx % n) k).1 q)) ∙ h)
      ∙ ap
          (λ b.
            some (given e (if b then a ∷ dealt k n (idx + 1) rest else dealt k n (idx + 1) rest)))
          (sym miss)
]

get_elem?-cleared :
    (es : List Entry) (k : ℕ) (e : Entry)
    → get_elem? es k ≡ some e
    → get_elem? (cleared es) k ≡ some (e.0, record e.1 { assignments = [] })
get_elem?-cleared [] k e h = cc
get_elem?-cleared (d ∷ es) zero e h =
    ap (λ c. some (c.0, record c.1 { assignments = [] })) (some-injective d e h)
get_elem?-cleared (d ∷ es) (suc k) e h = get_elem?-cleared es k e h

place_below : (es : List Entry) (k : ℕ) (e : Entry) → get_elem? es k ≡ some e → k < length es
place_below es k e h = elim (le_cases (length es) k) [
  | inl above ↦ absurd (cc (h, get_elem?_above es k above))
  | inr below ↦ below
]

module _ (order : List String → List String) where
  -- What there is to deal out in a group.
  abbrev pub partitions_of : ConsumerGroup → List (String × ℕ) → List PartitionAssignment
  partitions_of g topic_partitions =
      all_partitions topic_partitions (order (all_topics g.members []))

  pub rebalance_some :
      (g : ConsumerGroup) (topic_partitions : List (String × ℕ))
      → 0 < length g.members
      → (rebalance order g topic_partitions).members
        ≡ assign_from 0 (length g.members) (partitions_of g topic_partitions) (cleared g.members)
  unfolding rebalance
  rebalance_some g topic_partitions h = go g.members refl
    where
      go :
          (es : List Entry)
          → g.members ≡ es
          → (rebalance order g topic_partitions).members
            ≡ assign_from 0
                (length g.members)
                (partitions_of g topic_partitions)
                (cleared g.members)
      go [] e = absurd (omega (arith, h, ap length e))
      go (d ∷ es) e =
          rw (rebalance, e)
            (ap
              (λ ms.
                assign_from 0 (length ms)
                  (all_partitions topic_partitions (order (all_topics ms []))) (cleared ms))
              e)

  -- After `rebalance` the member of place `k` keeps its name, topics and heartbeat, and has exactly
  -- the partitions that are dealt to that place.
  pub rebalance-dealt :
      (g : ConsumerGroup) (topic_partitions : List (String × ℕ)) (k : ℕ) (e : Entry)
      → get_elem? g.members k ≡ some e
      → get_elem? (rebalance order g topic_partitions).members k
        ≡ some (
          e.0,
          record e.1 {
            assignments = dealt k (length g.members) 0 (partitions_of g topic_partitions);
          },
        )
  rebalance-dealt g topic_partitions k e h =
      ap (λ es. get_elem? es k)
        (rebalance_some g topic_partitions (omega (arith, place_below g.members k e h)))
      ∙ assign_from-dealt 0 (length g.members) k (partitions_of g topic_partitions)
          (cleared g.members) (e.0, record e.1 { assignments = [] })
          (get_elem?-cleared g.members k e h)

  -- After `rebalance` every partition that the group wants, which is one of a known topic that some
  -- member is interested in, with a number below the topic's count, belongs to exactly one member,
  -- and no other partition to any: there is a list of these partitions, each once, that is dealt out
  -- in turn. Of `n` members the one of place `k`, if there is one, has as number `q` the partition of
  -- place `q * n + k`, and has none if that is past the end. The order of iteration over the topics
  -- gives the elements of a set, each once.
  pub rebalance_once :
      IsOrder order
      → (g : ConsumerGroup) (topic_partitions : List (String × ℕ))
      → (parts : List PartitionAssignment) × ((a : PartitionAssignment)
          → member assignment_eq a parts ≡ is_wanted g.members topic_partitions a)
        × NoRepeats assignment_eq parts
        × ((k : ℕ) (e : Entry)
            → get_elem? g.members k ≡ some e
            → (m : GroupMember) × (get_elem? (rebalance order g topic_partitions).members k
                ≡ some (e.0, m))
              × ((q : ℕ) → get_elem? m.assignments q ≡ get_elem? parts (q * length g.members + k)))
  rebalance_once law g topic_partitions =
      let parts = partitions_of g topic_partitions in
      (
        parts,
        member-wanted order law g.members topic_partitions,
        wanted-NoRepeats order law g.members topic_partitions,
        λ k e h. (
          record e.1 { assignments = dealt k (length g.members) 0 parts },
          rebalance-dealt g topic_partitions k e h,
          λ q. get_elem?-dealt_all k (length g.members) q parts (place_below g.members k e h),
        ),
      )

  -- After `rebalance` none of two members has more than one partition more than the other.
  pub rebalance_fair :
      (g : ConsumerGroup) (topic_partitions : List (String × ℕ)) (k j : ℕ) (d e : Entry)
      → get_elem? g.members k ≡ some d
      → get_elem? g.members j ≡ some e
      → (m : GroupMember) × (o : GroupMember) × (get_elem?
            (rebalance order g topic_partitions).members
            k
          ≡ some (d.0, m))
        × (get_elem? (rebalance order g topic_partitions).members j ≡ some (e.0, o))
        × (length m.assignments ≤ length o.assignments + 1)
  rebalance_fair g topic_partitions k j d e h l =
      let parts = partitions_of g topic_partitions in
      (
        record d.1 { assignments = dealt k (length g.members) 0 parts },
        record e.1 { assignments = dealt j (length g.members) 0 parts },
        rebalance-dealt g topic_partitions k d h,
        rebalance-dealt g topic_partitions j e l,
        length-dealt_near k j (length g.members) parts (place_below g.members k d h)
            (place_below g.members j e l),
      )
