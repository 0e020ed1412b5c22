-- ===== src/Broker/Coordinator/Assignment/Topics.antt =====
-- The partitions that a group of broker/src/coordinator.rs wants, and the topics of its members.
use gaffa.Prelude.{
  ℕ, ◌≡◌, refl, sym, ap, ◌∙◌, String, str_eq, Bool, true, false, ◌&&◌, ◌||◌, none, some, List, [],
  ◌∷◌, ltb, ◌==◌,
}
use gaffa.Prelude.Maps.{
  find, member, insert, Lawful, str-Lawful, nat-Lawful, NoRepeats, member-insert, insert-NoRepeats,
}
use gaffa.Protocol.Messages.{PartitionAssignment}
use gaffa.Broker.Coordinator.{GroupMember, insert_all, all_topics}

abbrev pub assignment_eq : PartitionAssignment → PartitionAssignment → Bool
assignment_eq a b = str_eq a.topic b.topic && (a.partition == b.partition)

-- Some member is interested in the topic.
abbrev pub is_interesting : String → List (String × GroupMember) → Bool
is_interesting topic [] = false
is_interesting topic (e ∷ es) = member str_eq topic e.1.topics || is_interesting topic es

-- The topic is known, and has a partition of this number.
abbrev pub is_counted : List (String × ℕ) → PartitionAssignment → Bool
is_counted topic_partitions a = elim (find str_eq a.topic topic_partitions) [
  | none ↦ false
  | some n ↦ ltb a.partition n
]

abbrev pub is_wanted : List (String × GroupMember) → List (String × ℕ) → PartitionAssignment → Bool
is_wanted members topic_partitions a =
    is_interesting a.topic members && is_counted topic_partitions a

-- An order of iteration over a set gives its elements, each once.
pub record IsOrder (order : List String → List String) : Type 0 where
  pub elements : (ts : List String) (t : String) → member str_eq t (order ts) ≡ member str_eq t ts
  pub once : (ts : List String) → NoRepeats str_eq ts → NoRepeats str_eq (order ts)

pub both : (a b : Bool) → (a && b) ≡ true → (a ≡ true) × (b ≡ true)
both true true h = (refl, refl)
both true false h = cc
both false b h = cc

swapped : (a b c : Bool) → (a || (b || c)) ≡ ((b || a) || c)
swapped true true c = refl
swapped true false c = refl
swapped false true c = refl
swapped false false c = refl

pub or_false : (a : Bool) → (a || false) ≡ a
or_false true = refl
or_false false = refl

and_false : (a : Bool) → (a && false) ≡ false
and_false true = refl
and_false false = refl

pub dropped : (x m c : Bool) → c ≡ false → (m && c) ≡ ((x || m) && c)
dropped x m c h = rw (h) (and_false m ∙ sym (and_false (x || m)))

pub absorbed : (m c l : Bool) → c ≡ l → (l || (m && c)) ≡ c
absorbed true true l h = rw (sym h)
absorbed true false l h = rw (sym h)
absorbed false true l h = rw (sym h)
absorbed false false l h = rw (sym h)

pub assignment-Lawful : Lawful assignment_eq
assignment-Lawful = record {
  sound = same;
  complete = λ a. rw (str-Lawful.complete a.topic, nat-Lawful.complete a.partition);
}
  where
    same : (a b : PartitionAssignment) → assignment_eq a b ≡ true → a ≡ b
    same a b h =
        let (t, p) = both (str_eq a.topic b.topic) (a.partition == b.partition) h in
        ap (λ x. record { topic = x; partition = a.partition }) (str-Lawful.sound a.topic b.topic t)
        ∙ ap (λ x. record { topic = b.topic; partition = x })
            (nat-Lawful.sound a.partition b.partition p)

member-insert_all :
    (t : String) (ts set : List String)
    → member str_eq t (insert_all ts set) ≡ (member str_eq t ts || member str_eq t set)
unfolding insert_all
member-insert_all t [] set = refl
member-insert_all t (x ∷ ts) set =
    member-insert_all t ts (insert str_eq x set)
    ∙ ap (λ b. member str_eq t ts || b) (member-insert str_eq str-Lawful t x set)
    ∙ swapped (member str_eq t ts) (str_eq t x) (member str_eq t set)

pub member-all_topics :
    (t : String) (es : List (String × GroupMember)) (set : List String)
    → member str_eq t (all_topics es set) ≡ (is_interesting t es || member str_eq t set)
unfolding all_topics
member-all_topics t [] set = refl
member-all_topics t (e ∷ es) set =
    member-all_topics t es (insert_all e.1.topics set)
    ∙ ap (λ b. is_interesting t es || b) (member-insert_all t e.1.topics set)
    ∙ swapped (is_interesting t es) (member str_eq t e.1.topics) (member str_eq t set)

insert_all-NoRepeats :
    (ts set : List String) → NoRepeats str_eq set → NoRepeats str_eq (insert_all ts set)
unfolding insert_all
insert_all-NoRepeats [] set h = h
insert_all-NoRepeats (t ∷ ts) set h =
    insert_all-NoRepeats ts (insert str_eq t set) (insert-NoRepeats str_eq str-Lawful t set h)

pub all_topics-NoRepeats :
    (es : List (String × GroupMember)) (set : List String)
    → NoRepeats str_eq set
    → NoRepeats str_eq (all_topics es set)
unfolding all_topics
all_topics-NoRepeats [] set h = h
all_topics-NoRepeats (e ∷ es) set h =
    all_topics-NoRepeats es (insert_all e.1.topics set) (insert_all-NoRepeats e.1.topics set h)
