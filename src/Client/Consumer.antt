-- ===== src/Client/Consumer.antt =====
-- client/src/consumer.rs: the consumer, alone or in a group. A round of the heartbeat task is a step
-- of its own, since the task has the stream's lock for a whole exchange.
pub mod Groups
pub mod Counting
pub mod Polling
use gaffa.Prelude.{
  ℕ, zero, suc, ◌%◌, ◌^◌, String, str_eq, Bool, true, false, not, ◌&&◌, Option, none, some, List,
  [], ◌∷◌, ◌++◌, length, ◌==◌, if◌then◌else◌, add64,
}
use gaffa.Prelude.Maps.{find, put}
use gaffa.Common.Error.{Result, ok, err, panic, protocol, topic_not_found}
use gaffa.Common.Action.{Action, ◌>>=◌, ◌>>◌, done, fail, get, modify, for_each}
use gaffa.Protocol.Messages.{Record, TopicMetadata, PartitionAssignment, Request, Response, range}
use gaffa.Client.Connection.{Reply, Session, ask, unexpected, refused, update_client}

-- A topic and a partition.
abbrev pub Key : Type 0
Key = String × ℕ

abbrev pub key_eq : Key → Key → Bool
key_eq k l = str_eq k.0 l.0 && (k.1 == l.1)

-- `heartbeat_task` has the group and the member that the task beats for. A `Duration` is a number of
-- nanoseconds.
pub record Consumer : Type 0 where
  pub subscriptions : List (String × List ℕ)
  pub offsets : List (Key × ℕ)
  pub group_id : Option String
  pub member_id : Option String
  pub assignments : List PartitionAssignment
  pub auto_commit : Bool
  pub auto_commit_interval : ℕ
  pub heartbeat_task : Option (String × String)

-- What `connect` makes once it is connected.
unfoldable pub connected : Consumer
connected = record {
  subscriptions = [];
  offsets = [];
  group_id = none;
  member_id = none;
  assignments = [];
  auto_commit = false;
  auto_commit_interval = 5000000000;
  heartbeat_task = none;
}

unfoldable pub with_group_id : Consumer → String → Consumer
with_group_id c group_id = record c { group_id = some group_id }

unfoldable pub with_auto_commit : Consumer → Option ℕ → Consumer
with_auto_commit c none = record c { auto_commit = true }
with_auto_commit c (some interval) = record c {
  auto_commit = true;
  auto_commit_interval = interval;
}

-- `seek`, and `commit_offset`, which keeps an offset in the consumer only.
unfoldable pub seek : Consumer → String → ℕ → ℕ → Consumer
seek c topic partition offset = record c {
  offsets = put key_eq (topic, partition) offset c.offsets;
}

unfoldable pub commit_offset : Consumer → String → ℕ → ℕ → Consumer
commit_offset c topic partition offset = record c {
  offsets = put key_eq (topic, partition) offset c.offsets;
}

unfoldable pub get_offset : Consumer → String → ℕ → Option ℕ
get_offset c topic partition = find key_eq (topic, partition) c.offsets

-- `unwrap_or(&0)`
abbrev pub offset_or_zero : Consumer → Key → ℕ
offset_or_zero c k = elim (find key_eq k c.offsets) [ none ↦ 0 | some offset ↦ offset ]

-- `records.last()`, and the offset behind it.
unfoldable pub behind_last : List Record → Option ℕ
behind_last [] = none
behind_last (r ∷ []) = some (add64 r.offset 1)
behind_last (r ∷ q ∷ rs) = behind_last (q ∷ rs)

abbrev pub moved : Key → List Record → Consumer → Consumer
moved k records c = elim (behind_last records) [
  | none ↦ c
  | some offset ↦ record c { offsets = put key_eq k offset c.offsets }
]

-- `start_heartbeat_task`; both `unwrap`s panic without a value.
unfoldable pub start_heartbeat_task : Consumer → Result Consumer
start_heartbeat_task c = elim c.group_id [
  | none ↦ panic
  | some g ↦ elim c.member_id [
    | none ↦ panic
    | some m ↦ ok (record c { heartbeat_task = some (g, m) })
  ]
]

-- `Drop` stops the heartbeat task, too.
unfoldable pub drop : Consumer → Consumer
drop c = record c { heartbeat_task = none }

-- What a round of the heartbeat task makes of the reply: whether the task goes on.
unfoldable pub beats_on : Reply → Bool
beats_on (Reply.send_failed problem) = false
beats_on Reply.closed = false
beats_on (Reply.unreadable problem) = false
beats_on (Reply.answered response) = true

-- What `fetch` makes of a response.
abbrev pub fetched : {S : Type 0} → Response → Action S (List Record)
fetched (Response.fetch_success t p records) = done records
fetched (Response.fetch_error problem) = refused problem
fetched _ = unexpected

module _ {W : Type 0} (exchange : W → Request → W × Reply) where
  abbrev pub Call : Type 0 → Type 0
  Call T = Action (Session Consumer W) T

  -- A round of the heartbeat task.
  unfoldable pub heartbeat_round : String → String → W → W × Bool
  unfolding beats_on
  heartbeat_round group_id member_id w =
      let (w', reply) = exchange w (Request.heartbeat group_id member_id) in (w', beats_on reply)

  unfoldable pub fetch : String → ℕ → ℕ → ℕ → Call (List Record)
  fetch topic partition offset max_messages = do
    response ← ask exchange (Request.fetch topic partition offset max_messages)
    fetched response

  -- The body of the loops of `poll` and `poll_group` for one partition.
  unfoldable pub fetch_next : ℕ → Key → Call (List Record)
  unfolding fetch behind_last
  fetch_next max_messages k = do
    s ← get
    records ← fetch k.0 k.1 (offset_or_zero s.client k) max_messages
    modify (update_client (moved k records))
    done records

  -- The loop over the partitions; `all_records` is what the rounds before have brought.
  unfoldable pub fetch_all : ℕ → List Key → List Record → Call (List Record)
  unfolding fetch_next
  fetch_all max_messages [] all_records = done all_records
  fetch_all max_messages (k ∷ ks) all_records = do
    records ← fetch_next max_messages k
    fetch_all max_messages ks (all_records ++ records)

  abbrev pub keys_of : String → List ℕ → List Key
  keys_of topic [] = []
  keys_of topic (i ∷ is) = (topic, i) ∷ keys_of topic is

  -- The partitions that are subscribed to.
  unfoldable pub subscribed : List (String × List ℕ) → List Key
  subscribed [] = []
  subscribed (t ∷ ts) = keys_of t.0 t.1 ++ subscribed ts

  unfoldable pub poll : ℕ → Call (List Record)
  unfolding fetch_all subscribed
  poll max_messages = do s ← get; fetch_all max_messages (subscribed s.client.subscriptions) []

  unfoldable pub get_topic_metadata : String → Call TopicMetadata
  get_topic_metadata topic = do
    response ← ask exchange (Request.get_metadata (topic ∷ []))
    elim response [
      | Response.metadata [] ↦ fail (topic_not_found topic)
      | Response.metadata (t ∷ ts) ↦ done t
      | Response.metadata_error problem ↦ refused problem
      | _ ↦ unexpected
    ]

  abbrev pub zero_all : String → List ℕ → List (Key × ℕ) → List (Key × ℕ)
  zero_all topic [] offsets = offsets
  zero_all topic (i ∷ is) offsets = zero_all topic is (put key_eq (topic, i) 0 offsets)

  unfoldable pub subscribe_one : String → Call (Unit {0})
  unfolding get_topic_metadata
  subscribe_one topic = do
    metadata ← get_topic_metadata topic
    let partition_ids = range (length metadata.partitions % 2 ^ 32)
    modify (
        update_client (λ c. record c {
          subscriptions = put str_eq topic partition_ids c.subscriptions;
          offsets = zero_all topic partition_ids c.offsets;
        }))

  unfoldable pub subscribe : List String → Call (Unit {0})
  unfolding subscribe_one
  subscribe topics = for_each topics subscribe_one
