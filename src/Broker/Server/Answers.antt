-- ===== src/Broker/Server/Answers.antt =====
-- The kind of response that broker/src/server.rs gives to each request.
use gaffa.Prelude.{
  ℕ, ◌<◌, ◌≡◌, refl, String, Bool, true, false, Option, none, some, List, [], arith, ◌∷◌, ◌==◌,
  Bool-cases, inl, inr,
}
use gaffa.Protocol.Messages.{Request, Response, range}
use gaffa.Storage.Compression.{Codecs}
use gaffa.Storage.Topic.{get_topic, create_topic}
use gaffa.Broker.Coordinator.{leave_group, heartbeat, beat}
use gaffa.Broker.OffsetManager.{commit_offset, persist_group, fetch_offset}
use gaffa.Broker.Cluster.{ClusterMetadata, set_partition_replicas}
use gaffa.Broker.Replication.{ReplicationManager}
use gaffa.Broker.Replication.Assignment.{assign-eq-ok}
use gaffa.Broker.Server.Logs.{assign_all}
use gaffa.Broker.Server.{
  Server, World, process_request, on_create_topic, on_produce, on_fetch, on_get_metadata,
  on_get_partitions, on_join_group, on_leave_group, on_heartbeat, on_commit_offset, on_fetch_offset,
  on_register_broker, on_get_cluster_metadata, on_replication_fetch,
}

-- The responses that belong to a request: its success and its error.
abbrev pub answers : Request → Response → Bool
answers (Request.create_topic _ _) (Response.create_topic_success _ _) = true
answers (Request.create_topic _ _) (Response.create_topic_error _) = true
answers (Request.produce _ _ _) (Response.produce_success _ _ _ _) = true
answers (Request.produce _ _ _) (Response.produce_error _) = true
answers (Request.fetch _ _ _ _) (Response.fetch_success _ _ _) = true
answers (Request.fetch _ _ _ _) (Response.fetch_error _) = true
answers (Request.get_metadata _) (Response.metadata _) = true
answers (Request.get_metadata _) (Response.metadata_error _) = true
answers (Request.get_partitions _) (Response.partitions _ _) = true
answers (Request.get_partitions _) (Response.partitions_error _) = true
answers Request.list_topics (Response.topics _) = true
answers Request.list_topics (Response.topics_error _) = true
answers (Request.join_group _ _ _) (Response.join_group_success _ _ _) = true
answers (Request.join_group _ _ _) (Response.join_group_error _) = true
answers (Request.leave_group _ _) (Response.leave_group_success _) = true
answers (Request.leave_group _ _) (Response.leave_group_error _) = true
answers (Request.heartbeat _ _) Response.heartbeat_success = true
answers (Request.heartbeat _ _) (Response.heartbeat_error _ _) = true
answers (Request.commit_offset _ _ _ _) (Response.commit_offset_success _ _ _ _) = true
answers (Request.commit_offset _ _ _ _) (Response.commit_offset_error _) = true
answers (Request.fetch_offset _ _ _) (Response.fetch_offset_success _ _ _ _) = true
answers (Request.fetch_offset _ _ _) (Response.fetch_offset_error _) = true
answers (Request.register_broker _ _ _) (Response.register_broker_success _) = true
answers (Request.register_broker _ _ _) (Response.register_broker_error _) = true
answers Request.get_cluster_metadata (Response.cluster_metadata _ _) = true
answers Request.get_cluster_metadata (Response.cluster_metadata_error _) = true
answers (Request.replication_fetch _ _ _ _) (Response.replication_fetch_success _ _ _) = true
answers (Request.replication_fetch _ _ _ _) (Response.replication_fetch_error _) = true
answers _ _ = false

-- The requests whose arm can panic: those that reach a log, and a topic's creation if it has to
-- assign no replicas.
abbrev pub may_panic : Server → Request → Bool
may_panic s (Request.create_topic _ _) = s.replication_manager.replication_factor == 0
may_panic s (Request.produce _ _ _) = true
may_panic s (Request.fetch _ _ _ _) = true
may_panic s (Request.replication_fetch _ _ _ _) = true
may_panic s _ = false

abbrev pub is_answered : Server → Request → Option Response → Bool
is_answered s request none = may_panic s request
is_answered s request (some r) = answers request r

-- All partitions get their replicas.
assign_all_finishes :
    (r : ReplicationManager) (now : ℕ) (name : String) (is : List ℕ) (c : ClusterMetadata)
    → 0 < r.replication_factor
    → (assign_all r now name is c).1 ≡ true
unfolding assign_all
assign_all_finishes r now name [] c factor = refl
assign_all_finishes r now name (i ∷ is) c factor =
    let (leader, replicas, e) = assign-eq-ok r c now i factor in
    rw (assign_all, e)
      (assign_all_finishes r now name is (set_partition_replicas c name i leader replicas) factor)

module _ (lib : Codecs) (w : World) (s : Server) where
  pub answered :
      (request : Request) → is_answered s request (process_request lib w s request).1 ≡ true
  unfolding process_request on_create_topic on_produce on_fetch on_get_metadata on_get_partitions
      on_join_group on_leave_group on_heartbeat on_commit_offset on_fetch_offset on_register_broker
      on_get_cluster_metadata on_replication_fetch get_topic create_topic leave_group heartbeat beat
      commit_offset persist_group fetch_offset
  answered (Request.create_topic name partitions) =
      elim (Bool-cases (s.replication_manager.replication_factor == 0)) [
        | inl e ↦ ground (arith, e)
        | inr e ↦ ground (
          arith,
          e,
          assign_all_finishes s.replication_manager w.now name (range partitions) s.cluster
              (ground arith),
        )
      ]
  answered (Request.produce topic partition messages) = ground arith
  answered (Request.fetch topic partition offset max_messages) = ground arith
  answered (Request.get_metadata []) = refl
  answered (Request.get_metadata (t ∷ ts)) = refl
  answered (Request.get_partitions topic) = ground arith
  answered Request.list_topics = refl
  answered (Request.join_group group_id member_id topics) = refl
  answered (Request.leave_group group_id member_id) = ground arith
  answered (Request.heartbeat group_id member_id) = ground arith
  answered (Request.commit_offset group_id topic partition offset) = ground arith
  answered (Request.fetch_offset group_id topic partition) = ground arith
  answered (Request.register_broker broker_id host port) = refl
  answered Request.get_cluster_metadata = refl
  answered (Request.replication_fetch broker_id topic partition offset) = ground arith
