-- ===== src/Protocol/Messages.antt =====
-- protocol/src/messages.rs: the messages on the wire and the records that a fetch returns.
use gaffa.Prelude.{ℕ, zero, suc, String, Bool, Option, none, some, List, [], ◌∷◌, ◌++◌, map}
use gaffa.Prelude.Bytes.{Bytes}

pub record Message : Type 0 where
  pub key : Option Bytes
  pub value : Bytes
  pub timestamp : ℕ

-- `now` is the clock's reading in milliseconds.
pub new : ℕ → Bytes → Message
new now value = record { key = none; value = value; timestamp = now }

pub with_key : Message → Bytes → Message
with_key m key = record m { key = some key }

pub with_timestamp : Message → ℕ → Message
with_timestamp m timestamp = record m { timestamp = timestamp }

pub record Record : Type 0 where
  pub topic : String
  pub partition : ℕ
  pub offset : ℕ
  pub message : Message

pub record PartitionMetadata : Type 0 where
  pub id : ℕ
  pub leader : ℕ
  pub replicas : List ℕ
  pub isr : List ℕ
  pub high_watermark : ℕ

unfoldable pub single_broker : ℕ → PartitionMetadata
single_broker id = record {
  id = id;
  leader = 0;
  replicas = 0 ∷ [];
  isr = 0 ∷ [];
  high_watermark = 0;
}

pub with_replication : ℕ → ℕ → List ℕ → List ℕ → PartitionMetadata
with_replication id leader replicas isr = record {
  id = id;
  leader = leader;
  replicas = replicas;
  isr = isr;
  high_watermark = 0;
}

pub record TopicMetadata : Type 0 where
  pub name : String
  pub partitions : List PartitionMetadata

-- The numbers 0, 1, …, n - 1 of a Rust range `0..n`.
unfoldable pub range : ℕ → List ℕ
range zero = []
range (suc n) = range n ++ n ∷ []

unfoldable pub topic_metadata : String → ℕ → TopicMetadata
unfolding range
topic_metadata name partition_count = record {
  name = name;
  partitions = map single_broker (range partition_count);
}

pub record PartitionAssignment : Type 0 where
  pub topic : String
  pub partition : ℕ

pub record BrokerMetadata : Type 0 where
  pub id : ℕ
  pub host : String
  pub port : ℕ

pub record TopicPartitionMetadata : Type 0 where
  pub topic : String
  pub partition : ℕ
  pub leader : ℕ
  pub replicas : List ℕ
  pub isr : List ℕ

-- What a client asks of the broker; the fields stand in the order of the source.
pub data Request : Type 0 where
  create_topic : String → ℕ → Request
  produce : String → ℕ → List Message → Request
  fetch : String → ℕ → ℕ → ℕ → Request
  get_metadata : List String → Request
  get_partitions : String → Request
  list_topics : Request
  join_group : String → Option String → List String → Request
  leave_group : String → String → Request
  heartbeat : String → String → Request
  commit_offset : String → String → ℕ → ℕ → Request
  fetch_offset : String → String → ℕ → Request
  register_broker : ℕ → String → ℕ → Request
  get_cluster_metadata : Request
  replication_fetch : ℕ → String → ℕ → ℕ → Request

-- What the broker answers; the fields stand in the order of the source.
pub data Response : Type 0 where
  create_topic_success : String → ℕ → Response
  create_topic_error : String → Response
  produce_success : String → ℕ → ℕ → ℕ → Response
  produce_error : String → Response
  fetch_success : String → ℕ → List Record → Response
  fetch_error : String → Response
  metadata : List TopicMetadata → Response
  metadata_error : String → Response
  partitions : String → ℕ → Response
  partitions_error : String → Response
  topics : List String → Response
  topics_error : String → Response
  join_group_success : String → String → List PartitionAssignment → Response
  join_group_error : String → Response
  leave_group_success : String → Response
  leave_group_error : String → Response
  heartbeat_success : Response
  heartbeat_error : String → Bool → Response
  commit_offset_success : String → String → ℕ → ℕ → Response
  commit_offset_error : String → Response
  fetch_offset_success : String → String → ℕ → ℕ → Response
  fetch_offset_error : String → Response
  register_broker_success : ℕ → Response
  register_broker_error : String → Response
  cluster_metadata : List BrokerMetadata → List TopicPartitionMetadata → Response
  cluster_metadata_error : String → Response
  replication_fetch_success : List Record → ℕ → ℕ → Response
  replication_fetch_error : String → Response
