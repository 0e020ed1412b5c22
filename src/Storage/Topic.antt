-- ===== src/Storage/Topic.antt =====
-- storage/src/topic.rs: a topic is the list of its partitions, and the manager a map of topics by
-- name. The directories on disk are arguments: what they hold is read from them.
pub mod Routing
pub mod RoundTrip
use gaffa.Prelude.{
  ℕ, zero, suc, ◌<>◌, String, str_eq, Option, none, some, List, [], ◌∷◌, map, length, get_elem?,
}
use gaffa.Prelude.Maps.{find, put}
use gaffa.Common.Error.{
  Result, ok, err, panic, invalid_message, partition_not_found, storage, topic_not_found, ◌>>=◌,
}
use gaffa.Protocol.Messages.{Message, Record, range}
use gaffa.Storage.Compression.{Codecs}
use gaffa.Storage.Segment
use gaffa.Storage.Partition
use gaffa.Storage.Partition.{Directory, Partition, open_with_config, sort_unstable}

pub record Topic : Type 0 where
  pub name : String
  pub partitions : List Partition

-- `dirs` gives the directory of a partition.
unfoldable pub new : String → ℕ → (ℕ → Directory) → Topic
new name num_partitions dirs = record {
  name = name;
  partitions = map (λ i. Partition.new name i (dirs i)) (range num_partitions);
}

unfoldable pub num_partitions : Topic → ℕ
num_partitions t = length t.partitions

unfoldable pub get_partition : Topic → ℕ → Result Partition
get_partition t partition_id = elim (get_elem? t.partitions partition_id) [
  | none ↦ err (partition_not_found t.name partition_id)
  | some p ↦ ok p
]

-- A partition is shared by reference: what a call makes of it stands in its place.
unfoldable pub set_at : ℕ → Partition → List Partition → List Partition
set_at i q [] = []
set_at zero q (p ∷ ps) = q ∷ ps
set_at (suc i) q (p ∷ ps) = p ∷ set_at i q ps

module _ (lib : Codecs) where
  -- The partitions that are there: the number, the directory, its path, and the base offsets that
  -- the names of its `.log` files spell.
  pub record Found : Type 0 where
    pub dir : Directory
    pub path : String
    pub bases : List ℕ

  open_partitions : String → (ℕ → Found) → List ℕ → Result (List Partition)
  open_partitions name found [] = ok []
  open_partitions name found (id ∷ ids) = do
    let f = found id
    p ← open_with_config lib name id f.dir f.path f.bases Segment.default
    ps ← open_partitions name found ids
    ok (p ∷ ps)

  -- `open`; `ids` are the numbers that the names of the directories spell.
  unfoldable pub open_existing : String → (ℕ → Found) → List ℕ → Result Topic
  unfolding open_partitions
  open_existing name found [] = err (storage ("No partitions found for topic: " <> name))
  open_existing name found (id ∷ ids) = do
    partitions ← open_partitions name found (sort_unstable (id ∷ ids))
    ok (record { name = name; partitions = partitions })

  unfoldable pub append : (ℕ → Directory) → Topic → ℕ → List Message → Topic × Result ℕ
  unfolding get_partition set_at
  append dirs t partition_id messages = elim (get_partition t partition_id) [
    | err e ↦ (t, err e)
    | panic ↦ (t, panic)
    | ok p ↦
        let (q, outcome) = Partition.append lib (dirs partition_id) p messages in
        (record t { partitions = set_at partition_id q t.partitions }, outcome)
  ]

  unfoldable pub fetch : Topic → ℕ → ℕ → ℕ → Result (List Record)
  unfolding get_partition
  fetch t partition_id offset max_messages = do
    p ← get_partition t partition_id
    Partition.fetch lib p offset max_messages

pub record TopicManager : Type 0 where
  pub topics : List (String × Topic)

abbrev pub new_manager : TopicManager
new_manager = record { topics = [] }

-- The manager, and the topic that was made. `dirs` gives the directories of its partitions.
unfoldable pub create_topic :
    TopicManager → String → ℕ → (ℕ → Directory) → TopicManager × Result Topic
unfolding new
create_topic m name num_partitions dirs = elim (find str_eq name m.topics) [
  | some t ↦ (m, err (invalid_message ("Topic '" <> name <> "' already exists")))
  | none ↦
      let topic = new name num_partitions dirs in
      (record { topics = put str_eq name topic m.topics }, ok topic)
]

unfoldable pub get_topic : TopicManager → String → Result Topic
get_topic m name = elim (find str_eq name m.topics) [
  | none ↦ err (topic_not_found name)
  | some t ↦ ok t
]

unfoldable pub list_topics : TopicManager → List String
list_topics m = map (λ e. e.0) m.topics

unfoldable pub topic_count : TopicManager → ℕ
topic_count m = length m.topics

module _ (lib : Codecs) where
  -- A topic's directory: its name, the numbers that the names of its partitions' directories spell,
  -- and what these hold.
  pub record TopicDir : Type 0 where
    pub dir_name : String
    pub ids : List ℕ
    pub found : ℕ → Found lib

  -- The loop of `open` over the directories; a topic that cannot be opened is left out.
  unfoldable pub open_topics :
      List TopicDir → List (String × Topic) → Result (List (String × Topic))
  unfolding open_existing
  open_topics [] topics = ok topics
  open_topics (d ∷ ds) topics = elim (open_existing lib d.dir_name d.found d.ids) [
    | panic ↦ panic
    | err e ↦ open_topics ds topics
    | ok t ↦ open_topics ds (put str_eq d.dir_name t topics)
  ]

  -- `TopicManager::open`; `listing` is what reading the data directory gives, no directory if it is
  -- not there.
  unfoldable pub open_manager : Result (List TopicDir) → Result TopicManager
  unfolding open_topics
  open_manager listing = do
    dirs ← listing
    topics ← open_topics dirs []
    ok (record { topics = topics })
