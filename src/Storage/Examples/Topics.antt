-- ===== src/Storage/Examples/Topics.antt =====
-- Concrete runs of the topics of storage/src/topic.rs.
use gaffa.Prelude.{
  some, length, get_elem?, ◌≤◌, ◌<◌, ℕ, ◌≡◌, String, str_eq, none, [], ◌∷◌, ltb, ◌==◌,
  if◌then◌else◌, ◌⊎◌,
}
use gaffa.Prelude.Maps.{find}
use gaffa.Common.Error.{ok, err, invalid_message, partition_not_found}
use gaffa.Protocol.Messages.{Message}
use gaffa.Storage.Partition
use gaffa.Storage.Partition.{Directory, Partition}
use gaffa.Storage.Topic.{Topic, TopicManager, new, append, fetch, create_topic, get_topic}
use gaffa.Storage.Topic.Routing.{append_routed, create_topic-get_topic}
use gaffa.Storage.Examples.Fixtures.{plain}

abbrev empty_dirs : ℕ → Directory
empty_dirs i = record { log = λ base. none; index = λ base. none }

abbrev orders : Topic
orders = new "orders" 2 empty_dirs

abbrev hello : Message
hello = record { key = none; value = 104 ∷ []; timestamp = 1700000000 }

append_routed_example :
    let run = append plain empty_dirs orders 1 (hello ∷ []) in
    ((length orders.partitions ≤ 1) × (run ≡ (orders, err (partition_not_found orders.name 1))))
    ⊎ ((1 < length orders.partitions)
        × (p : Partition) × (get_elem? orders.partitions 1 ≡ some p)
        × (run.1 ≡ (Partition.append plain (empty_dirs 1) p (hello ∷ [])).1)
        × ((j : ℕ)
            → get_elem? run.0.partitions j ≡ (
                if j == 1
                then some (Partition.append plain (empty_dirs 1) p (hello ∷ [])).0
                else get_elem? orders.partitions j))
        × ((j offset max : ℕ)
            → fetch plain run.0 j offset max ≡ (
                if j == 1
                then Partition.fetch plain
                    (Partition.append plain (empty_dirs 1) p (hello ∷ [])).0
                    offset
                    max
                else fetch plain orders j offset max)))
append_routed_example = append_routed plain empty_dirs orders 1 (hello ∷ [])

-- A manager that has the topic already.
abbrev taken : TopicManager
taken = record { topics = ("orders", orders) ∷ [] }

create_topic-get_topic_example :
    ((t : Topic) × (find str_eq "orders" taken.topics ≡ some t)
      × ((text : String) × (create_topic taken "orders" 2 empty_dirs
            ≡ (taken, err (invalid_message text)))))
    ⊎ ((find str_eq "orders" taken.topics ≡ none)
        × (t : Topic) × ((create_topic taken "orders" 2 empty_dirs).1 ≡ ok t)
        × ((other : String)
            → get_topic (create_topic taken "orders" 2 empty_dirs).0 other
              ≡ (if str_eq other "orders" then ok t else get_topic taken other))
        × ((i : ℕ)
            → get_elem? t.partitions i
              ≡ (if ltb i 2 then some (Partition.new "orders" i (empty_dirs i)) else none)))
create_topic-get_topic_example = create_topic-get_topic "orders" 2 empty_dirs taken
