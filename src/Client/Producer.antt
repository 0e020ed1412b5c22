-- ===== src/Client/Producer.antt =====
-- client/src/producer.rs: the producer, with its partitioner and its cache of partition counts.
pub mod Grouping
use gaffa.Prelude.{
  ℕ, zero, suc, ◌%◌, ◌^◌, String, str_eq, Option, none, some, List, [], ◌∷◌, ◌++◌, map, length,
  ◌==◌, if◌then◌else◌,
}
use gaffa.Prelude.Maps.{find, put}
use gaffa.Common.Error.{Result, ok, err, panic, topic_not_found}
use gaffa.Common.Action.{Action, ◌>>=◌, ◌>>◌, done, fail, get, modify, lift}
use gaffa.Protocol.Messages.{Message, TopicMetadata, Request, Response}
use gaffa.Client.Connection.{Reply, Session, ask, unexpected, refused, update_client}
use gaffa.Client.Partitioner.{Partitioner}

-- `P` is the state of the partitioner.
pub record Producer (P : Type 0) : Type 0 where
  pub partitioner : P
  pub metadata_cache : List (String × ℕ)

-- What `connect_with_partitioner` makes once it is connected.
unfoldable pub connected : {P : Type 0} → P → Producer P
connected partitioner = record { partitioner = partitioner; metadata_cache = [] }

-- `entry(partition).or_insert_with(Vec::new).push(message)`
unfoldable pub push_to : ℕ → Message → List (ℕ × List Message) → List (ℕ × List Message)
push_to partition message [] = (partition, message ∷ []) ∷ []
push_to partition message (e ∷ es) =
    let rest = push_to partition message es in
    if partition == e.0 then (e.0, e.1 ++ message ∷ []) ∷ es else e ∷ rest

-- The loop that groups the messages by their partitions.
unfoldable pub group_messages :
    {P : Type 0}
    → Partitioner P
    → ℕ
    → List Message
    → P
    → List (ℕ × List Message)
    → P × Result (List (ℕ × List Message))
unfolding push_to
group_messages by num_partitions [] p batches = (p, ok batches)
group_messages by num_partitions (m ∷ ms) p batches =
    let (p', chosen) = by.partition p m.key num_partitions in
    elim chosen [
      | panic ↦ (p', panic)
      | err e ↦ (p', err e)
      | ok i ↦ group_messages by num_partitions ms p' (push_to i m batches)
    ]

-- What `send` makes of a response.
abbrev pub produced : {S : Type 0} → Response → Action S ℕ
produced (Response.produce_success t p base_offset count) = done base_offset
produced (Response.produce_error problem) = refused problem
produced _ = unexpected

module _ {P W : Type 0} (by : Partitioner P) (exchange : W → Request → W × Reply) where
  abbrev pub Call : Type 0 → Type 0
  Call T = Action (Session (Producer P) W) T

  unfoldable pub create_topic : String → ℕ → Call (Unit {0})
  create_topic name partitions = do
    response ← ask exchange (Request.create_topic name partitions)
    elim response [
      | Response.create_topic_success n count ↦ done tt
      | Response.create_topic_error problem ↦ refused problem
      | _ ↦ unexpected
    ]

  unfoldable pub send : String → ℕ → List Message → Call ℕ
  send topic partition messages = do
    response ← ask exchange (Request.produce topic partition messages)
    produced response

  -- The cache keeps the number under the name that the response has.
  unfoldable pub refresh_metadata : String → Call (Unit {0})
  refresh_metadata topic = do
    response ← ask exchange (Request.get_partitions topic)
    elim response [
      | Response.partitions name count ↦ modify (
          update_client (λ p. record p { metadata_cache = put str_eq name count p.metadata_cache }))
      | Response.partitions_error problem ↦ refused problem
      | _ ↦ unexpected
    ]

  -- `partitions.len() as u32` of every topic goes to the cache.
  abbrev pub cache_all : List TopicMetadata → List (String × ℕ) → List (String × ℕ)
  cache_all [] cache = cache
  cache_all (t ∷ ts) cache = cache_all ts (put str_eq t.name (length t.partitions % 2 ^ 32) cache)

  unfoldable pub get_metadata : List String → Call (List TopicMetadata)
  get_metadata topics = do
    response ← ask exchange (Request.get_metadata topics)
    elim response [
      | Response.metadata found ↦ (do
        modify (update_client (λ p. record p { metadata_cache = cache_all found p.metadata_cache }))
        done found)
      | Response.metadata_error problem ↦ refused problem
      | _ ↦ unexpected
    ]

  unfoldable pub list_topics : Call (List String)
  list_topics = do
    response ← ask exchange Request.list_topics
    elim response [
      | Response.topics names ↦ done names
      | Response.topics_error problem ↦ refused problem
      | _ ↦ unexpected
    ]

  -- The loop that sends the batches; the offset of the first one is returned, and a later one's as
  -- long as they are 0.
  unfoldable pub send_batches : String → List (ℕ × List Message) → ℕ → Call ℕ
  unfolding send
  send_batches topic [] base_offset = done base_offset
  send_batches topic (b ∷ bs) base_offset = do
    offset ← send topic b.0 b.1
    send_batches topic bs (if base_offset == 0 then offset else base_offset)

  -- The count of the topic, asked for if it is not in the cache.
  unfoldable pub cached_count : String → Call ℕ
  unfolding refresh_metadata
  cached_count topic = do
    before ← get
    elim (find str_eq topic before.client.metadata_cache) [
      | none ↦ refresh_metadata topic
      | some count ↦ done tt
    ]
    after ← get
    elim (find str_eq topic after.client.metadata_cache) [
      | none ↦ fail (topic_not_found topic)
      | some count ↦ done count
    ]

  -- The grouping changes the partitioner only.
  unfoldable pub grouped : ℕ → List Message → Call (List (ℕ × List Message))
  unfolding group_messages
  grouped num_partitions messages s =
      let (p, batches) = group_messages by num_partitions messages s.client.partitioner [] in
      (update_client (λ c. record c { partitioner = p }) s, batches)

  -- `order` is the order in which the map of the batches is iterated over.
  module _ (order : List (ℕ × List Message) → List (ℕ × List Message)) where
    unfoldable pub send_batch_auto : String → List Message → Call ℕ
    unfolding send_batches cached_count grouped
    send_batch_auto topic messages = do
      num_partitions ← cached_count topic
      batches ← grouped num_partitions messages
      send_batches topic (order batches) 0

    unfoldable pub send_auto : String → Message → Call ℕ
    unfolding send_batch_auto
    send_auto topic message = send_batch_auto topic (message ∷ [])
