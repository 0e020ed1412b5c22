-- ===== src/Storage/Topic/Routing.antt =====
-- Calls on topics of storage/src/topic.rs reach the one partition and the one topic that they name.
use gaffa.Prelude.{
  ℕ, zero, suc, ◌+◌, ◌<◌, ◌≡◌, refl, ap, ◌∙◌, String, str_eq, none, some, List, [], ◌∷◌, ◌++◌, map,
  arith, length, get_elem?, get_elem?_above, get_elem?_below, ◌≤◌, get_elem?-append_left,
  get_elem?-append_right, length-append, length-map, ◌<>◌, ltb, ◌==◌, if◌then◌else◌, Bool-cases,
  Option-cases, le_cases, ◌⊎◌, inl, inr,
}
use mathlib.Core.Option.{some-injective}
use gaffa.Prelude.Maps.{find, put, find-put_same, find-put_other, str-Lawful}
use gaffa.Common.Error.{
  Result, ok, err, partition_not_found, invalid_message, topic_not_found, ◌>>=◌,
}
use gaffa.Protocol.Messages.{Message, Record, range}
use gaffa.Storage.Compression.{Codecs}
use gaffa.Storage.Partition
use gaffa.Storage.Partition.{Directory, Partition}
use gaffa.Storage.Topic.{
  Topic, TopicManager, get_partition, set_at, append, fetch, create_topic, get_topic, new,
}

get_elem?-set_at :
    (i j : ℕ) (q p : Partition) (ps : List Partition)
    → get_elem? ps i ≡ some p
    → get_elem? (set_at i q ps) j ≡ (if j == i then some q else get_elem? ps j)
unfolding set_at
get_elem?-set_at i j q p [] h = cc
get_elem?-set_at zero zero q p (x ∷ ps) h = refl
get_elem?-set_at zero (suc j) q p (x ∷ ps) h = ground arith
get_elem?-set_at (suc i) zero q p (x ∷ ps) h = ground arith
get_elem?-set_at (suc i) (suc j) q p (x ∷ ps) h = get_elem?-set_at i j q p ps h ∙ ground arith

module _ (lib : Codecs) (dirs : ℕ → Directory) (t : Topic) (i : ℕ) (messages : List Message) where
  -- What the partition makes of the messages.
  abbrev made : Partition → Partition × Result ℕ
  made p = Partition.append lib (dirs i) p messages

  append_missing :
      get_elem? t.partitions i ≡ none
      → append lib dirs t i messages ≡ (t, err (partition_not_found t.name i))
  unfolding append get_partition
  append_missing h = rw (append, h)

  append_found :
      (p : Partition)
      → get_elem? t.partitions i ≡ some p
      → append lib dirs t i messages
        ≡ (record t { partitions = set_at i (made p).0 t.partitions }, (made p).1)
  unfolding append get_partition
  append_found p h = rw (append, h)

  pub get_partition-set_at :
      (j : ℕ) (q p : Partition)
      → get_elem? t.partitions i ≡ some p
      → get_partition (record t { partitions = set_at i q t.partitions }) j
        ≡ (if j == i then ok q else get_partition t j)
  unfolding get_partition
  get_partition-set_at j q p h = ground (arith, get_elem?-set_at i j q p t.partitions h)

  fetch_after :
      (p : Partition)
      → get_elem? t.partitions i ≡ some p
      → (j offset max : ℕ)
      → fetch lib (record t { partitions = set_at i (made p).0 t.partitions }) j offset max
        ≡ (if j == i then Partition.fetch lib (made p).0 offset max else fetch lib t j offset max)
  unfolding fetch
  fetch_after p h j offset max =
      let run : Result Partition → Result (List Record) =
        λ r. r >>= λ q. Partition.fetch lib q offset max in
      elim (Bool-cases (j == i)) [
        | inl same ↦ ap run (get_partition-set_at j (made p).0 p h) ∙ rw (same)
        | inr other ↦ ap run (get_partition-set_at j (made p).0 p h) ∙ rw (other)
      ]

  -- `append` to a number that is not below the number of the topic's partitions fails with
  -- `PartitionNotFound` and leaves the topic as it was. Below it the messages go to the partition
  -- at that place in the list: its `append` gives the result and what stands there afterwards, every
  -- other place holds what it held, and a `fetch` from the topic then reads the place that it asks
  -- for, the new partition or one that is as it was.
  pub append_routed :
      ((length t.partitions ≤ i)
        × (append lib dirs t i messages ≡ (t, err (partition_not_found t.name i))))
      ⊎ ((i < length t.partitions)
          × (p : Partition) × (get_elem? t.partitions i ≡ some p)
          × ((append lib dirs t i messages).1 ≡ (Partition.append lib (dirs i) p messages).1)
          × ((j : ℕ)
              → get_elem? (append lib dirs t i messages).0.partitions j ≡ (
                  if j == i
                  then some (Partition.append lib (dirs i) p messages).0
                  else get_elem? t.partitions j))
          × ((j offset max : ℕ)
              → fetch lib (append lib dirs t i messages).0 j offset max ≡ (
                  if j == i
                  then Partition.fetch lib (Partition.append lib (dirs i) p messages).0 offset max
                  else fetch lib t j offset max)))
  append_routed = elim (le_cases (length t.partitions) i) [
    | inl above ↦ inl (above, append_missing (get_elem?_above t.partitions i above))
    | inr below ↦
        let (p, h) = get_elem?_below t.partitions i below in
        inr (
          below,
          p,
          h,
          ap (λ r. r.1) (append_found p h),
          λ j.
              ap (λ r. get_elem? r.0.partitions j) (append_found p h)
              ∙ get_elem?-set_at i j (made p).0 p t.partitions h,
          λ j offset max.
              ap (λ r. fetch lib r.0 j offset max) (append_found p h)
              ∙ fetch_after p h j offset max,
        )
  ]

length-range : (n : ℕ) → length (range n) ≡ n
unfolding range
length-range zero = refl
length-range (suc n) = omega (arith, length-append (range n) (n ∷ []), length-range n)

get_elem?-range : (n i : ℕ) → i < n → get_elem? (range n) i ≡ some i
unfolding range
get_elem?-range zero i h = absurd (omega arith)
get_elem?-range (suc n) i h = elim (le_cases n i) [
  | inr inner ↦
      get_elem?-append_left (range n) (n ∷ []) i (omega (arith, length-range n))
      ∙ get_elem?-range n i inner
  | inl last ↦
      ap (get_elem? (range n ++ n ∷ [])) {x = i} {y = length (range n) + 0}
        (omega (arith, length-range n))
      ∙ get_elem?-append_right (range n) (n ∷ []) 0
      ∙ ap some {x = n} {y = i} (omega arith)
]

get_elem?-map :
    (f : ℕ → Partition) (ns : List ℕ) (i n : ℕ)
    → get_elem? ns i ≡ some n
    → get_elem? (map f ns) i ≡ some (f n)
get_elem?-map f [] i n h = cc
get_elem?-map f (k ∷ ns) zero n h = ap (λ m. some (f m)) (some-injective k n h)
get_elem?-map f (k ∷ ns) (suc i) n h = get_elem?-map f ns i n h

module _ (name : String) (n : ℕ) (dirs : ℕ → Directory) where
  -- A new topic has the partitions below `n`, each new and with its own number.
  new_partitions :
      (i : ℕ)
      → get_elem? (new name n dirs).partitions i
        ≡ (if ltb i n then some (Partition.new name i (dirs i)) else none)
  unfolding new
  new_partitions i = elim (le_cases n i) [
    | inl above ↦ ground (
      arith,
      get_elem?_above (map (λ i. Partition.new name i (dirs i)) (range n)) i (
          omega (arith, length-map (λ i. Partition.new name i (dirs i)) (range n), length-range n)),
    )
    | inr below ↦ ground (
      arith,
      get_elem?-map (λ i. Partition.new name i (dirs i)) (range n) i i (get_elem?-range n i below),
    )
  ]

  module _ (m : TopicManager) where
    create_existing :
        (t : Topic)
        → find str_eq name m.topics ≡ some t
        → (text : String) × (create_topic m name n dirs ≡ (m, err (invalid_message text)))
    unfolding create_topic
    create_existing t h = ("Topic '" <> name <> "' already exists", rw (create_topic, h))

    create_fresh :
        find str_eq name m.topics ≡ none
        → create_topic m name n dirs
          ≡ (record { topics = put str_eq name (new name n dirs) m.topics }, ok (new name n dirs))
    unfolding create_topic
    create_fresh h = rw (create_topic, h)

    get_topic-put :
        (t : Topic) (other : String)
        → get_topic (record { topics = put str_eq name t m.topics }) other
          ≡ (if str_eq other name then ok t else get_topic m other)
    unfolding get_topic
    get_topic-put t other = elim (Bool-cases (str_eq other name)) [
      | inl same ↦ rw (same) (
          ap
            (λ o. elim o as (λ _. Result Topic) [
              | none ↦ err (topic_not_found other)
              | some t ↦ ok t
            ])
            (ap (λ k. find str_eq k (put str_eq name t m.topics)) (str-Lawful.sound other name same)
              ∙ find-put_same str_eq str-Lawful name t m.topics))
      | inr differs ↦ rw (differs) (
          ap
            (λ o. elim o as (λ _. Result Topic) [
              | none ↦ err (topic_not_found other)
              | some t ↦ ok t
            ])
            (find-put_other str_eq str-Lawful name other t m.topics differs))
    ]

    -- `create_topic` refuses a name under which the manager has a topic, and leaves the topics as
    -- they were. Where it has none, the topic is made: it is found under its name, other topics are
    -- as they were, and it has exactly the partitions below the number asked for, each new and with
    -- its own number.
    pub create_topic-get_topic :
        ((t : Topic) × (find str_eq name m.topics ≡ some t)
          × ((text : String) × (create_topic m name n dirs ≡ (m, err (invalid_message text)))))
        ⊎ ((find str_eq name m.topics ≡ none)
            × (t : Topic) × ((create_topic m name n dirs).1 ≡ ok t)
            × ((other : String)
                → get_topic (create_topic m name n dirs).0 other
                  ≡ (if str_eq other name then ok t else get_topic m other))
            × ((i : ℕ)
                → get_elem? t.partitions i
                  ≡ (if ltb i n then some (Partition.new name i (dirs i)) else none)))
    create_topic-get_topic = elim (Option-cases (find str_eq name m.topics)) [
      | inr (t, h) ↦ inl (t, h, create_existing t h)
      | inl h ↦ inr (
        h,
        new name n dirs,
        ap (λ r. r.1) (create_fresh h),
        λ other.
            ap (λ r. get_topic r.0 other) (create_fresh h) ∙ get_topic-put (new name n dirs) other,
        new_partitions,
      )
    ]
