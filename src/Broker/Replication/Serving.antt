-- ===== src/Broker/Replication/Serving.antt =====
-- What the leader of broker/src/replication.rs hands to its followers.
use gaffa.Prelude.{
  ℕ, ◌+◌, ◌-◌, ◌^◌, ◌<◌, ◌≡◌, refl, sym, ap, ◌∙◌, String, str_eq, Bool, ◌&&◌, none, some, List, [],
  ◌∷◌, map, length, take, drop, arith, ltb, ◌==◌, if◌then◌else◌, Bool-cases, All, inl, inr,
}
use gaffa.Prelude.Maps.{find, Lawful, nat-Lawful, str-Lawful, same_sym}
use gaffa.Common.Error.{ok}
use gaffa.Protocol.Messages.{Record}
use gaffa.Storage.Compression.{Codecs, CodecLaws}
use gaffa.Storage.Record.{DiskRecord}
use gaffa.Storage.Segment.Reading.{Reads}
use gaffa.Storage.Partition as Partition
use gaffa.Storage.Partition.{Partition}
use gaffa.Storage.Partition.Chain.{Chain, all_records}
use gaffa.Storage.Partition.Fetching.{shown, fetched, fetch-records_from}
use gaffa.Storage.Topic.{TopicManager, Topic, get_topic, get_partition}
use gaffa.Broker.Cluster.{
  Key, key_eq, PartitionReplicaState, ClusterMetadata, get_all_partition_states, get_high_watermark,
  is_partition_leader, get_partition_leader,
}
use gaffa.Broker.Replication.{
  ReplicationFetchRequest, or_default, local_records, find_state, handle_replication_fetch,
}

-- Every state stands under its own topic and partition.
abbrev pub AreKeyed : List (Key × PartitionReplicaState) → Type 0
AreKeyed es = All (λ e. e.0 ≡ (e.1.topic, e.1.partition)) es

flip : {K : Type 0} (same : K → K → Bool) → Lawful same → (a b : K) → same a b ≡ same b a
flip same lawful a b = elim (Bool-cases (same a b)) [
  | inl h ↦ ap (same a) (sym (lawful.sound a b h)) ∙ ap (λ x. same x a) (lawful.sound a b h)
  | inr h ↦ h ∙ sym (same_sym same lawful a b h)
]

key_flip :
    (topic : String) (partition : ℕ) (k : Key)
    → (str_eq k.0 topic && (k.1 == partition)) ≡ key_eq (topic, partition) k
key_flip topic partition k =
    ap (λ x. x && (k.1 == partition)) (flip str_eq str-Lawful k.0 topic)
    ∙ ap (λ x. str_eq topic k.0 && x) (flip ◌==◌ nat-Lawful k.1 partition)

-- The search through the states finds what the map has under the key.
pub find_state-find :
    (topic : String) (partition : ℕ) (es : List (Key × PartitionReplicaState))
    → AreKeyed es
    → find_state topic partition (map (λ e. e.1) es) ≡ find key_eq (topic, partition) es
unfolding find_state
find_state-find topic partition [] k = refl
find_state-find topic partition (e ∷ es) (k, ks) =
    let head : (str_eq e.1.topic topic && (e.1.partition == partition))
        ≡ key_eq (topic, partition) e.0 =
      key_flip topic partition (e.1.topic, e.1.partition)
      ∙ ap (key_eq (topic, partition)) (sym k) in
    rw (find_state, head, find_state-find topic partition es ks)

-- What a follower that asks for an offset is owed: nothing where the log begins behind it.
abbrev pub owed : Partition → ℕ → List DiskRecord → ℕ → ℕ → List Record
owed p b rs offset max =
    if ltb offset b
    then []
    else map (shown p.topic_name p.partition_id) (take max (drop (offset - b) rs))

or_default-fetched :
    (p : Partition) (b : ℕ) (rs : List DiskRecord) (offset max : ℕ)
    → or_default (fetched p b rs offset max) ≡ ok (owed p b rs offset max)
or_default-fetched p b rs offset max = ground arith

module _ (lib : Codecs) where
  local_records_found :
      (m : TopicManager) (request : ReplicationFetchRequest) (t : Topic) (p : Partition)
      → get_topic m request.topic ≡ ok t
      → get_partition t request.partition ≡ ok p
      → local_records lib m request
        ≡ or_default (Partition.fetch lib p request.offset request.max_records)
  unfolding local_records
  local_records_found m request t p found found_p = rw (local_records, found, found_p)

  module _ (m : TopicManager) (c : ClusterMetadata) (request : ReplicationFetchRequest)
      (s : PartitionReplicaState) (rs : List Record)
      (known : find key_eq (request.topic, request.partition) c.partition_states ≡ some s) where
    answered :
        find_state request.topic request.partition (get_all_partition_states c) ≡ some s
        → local_records lib m request ≡ ok rs
        → handle_replication_fetch lib m c request ≡ (
            if s.leader == c.broker_id
            then ok (
                some (record {
                  records = rs;
                  high_watermark = s.high_watermark;
                  leader_epoch = s.leader_epoch;
                }))
            else ok none)
    unfolding handle_replication_fetch is_partition_leader get_partition_leader get_high_watermark
    answered f l = rw (
      handle_replication_fetch, is_partition_leader, get_partition_leader, get_high_watermark, f, l,
      known,
    )

module _ (lib : Codecs) (laws : CodecLaws lib) where
  -- The leader of a partition that it has as a chain of at least one segment answers a follower with
  -- the records of the log from the follower's offset on, up to its maximum, and with none where the
  -- log begins behind the offset; with them go the watermark and the epoch that the cluster has for
  -- the partition. A broker that is not the leader gives no answer. The states of the cluster stand
  -- under their own partitions, the codecs keep their laws, the follower's offset plus the number of
  -- records is below 2 ^ 64, and the maximum is below 2 ^ 32.
  pub handle_replication_fetch-owed :
      (m : TopicManager) (c : ClusterMetadata) (request : ReplicationFetchRequest) (t : Topic)
      (p : Partition) (s : PartitionReplicaState) (b : ℕ) (rss : List (List DiskRecord))
      → get_topic m request.topic ≡ ok t
      → get_partition t request.partition ≡ ok p
      → AreKeyed c.partition_states
      → find key_eq (request.topic, request.partition) c.partition_states ≡ some s
      → Chain (Reads lib) b p.segments rss
      → 0 < length p.segments
      → request.offset + length (all_records rss) < 2 ^ 64
      → request.max_records < 2 ^ 32
      → handle_replication_fetch lib m c request ≡ (
          if s.leader == c.broker_id
          then ok (
              some (record {
                records = owed p b (all_records rss) request.offset request.max_records;
                high_watermark = s.high_watermark;
                leader_epoch = s.leader_epoch;
              }))
          else ok none)
  unfolding get_all_partition_states
  handle_replication_fetch-owed m c request t p s b rss found found_p keyed known chain some_segment
        small room =
      answered lib m c request s (owed p b (all_records rss) request.offset request.max_records)
        known (find_state-find request.topic request.partition c.partition_states keyed ∙ known)
        (local_records_found lib m request t p found found_p
          ∙ ap or_default (
              fetch-records_from lib laws p rss b request.offset request.max_records chain
                some_segment small room)
          ∙ or_default-fetched p b (all_records rss) request.offset request.max_records)
