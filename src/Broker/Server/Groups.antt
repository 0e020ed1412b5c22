-- ===== src/Broker/Server/Groups.antt =====
-- broker/src/server.rs: the requests of consumer groups.
use gaffa.Prelude.{ℕ, String, true, false, Option, none, some, List, [], ◌∷◌, if◌then◌else◌}
use gaffa.Common.Error.{ok, err, panic, to_string}
use gaffa.Protocol.Messages.{Response}
use gaffa.Storage.Topic
use gaffa.Storage.Topic.{Topic, TopicManager, TopicDir, open_manager, get_topic, list_topics}
use gaffa.Broker.Coordinator
use gaffa.Broker.Coordinator.{GroupCoordinator, update_topic_partitions}
use gaffa.Broker.OffsetManager
use gaffa.Broker.OffsetManager.{OffsetManager, Write}
use gaffa.Broker.Server.State.{Server, World}

-- The loop of `JoinGroup`: the coordinator learns the numbers of partitions.
unfoldable pub learn_partitions : TopicManager → List String → GroupCoordinator → GroupCoordinator
learn_partitions m [] c = c
learn_partitions m (name ∷ names) c = learn_partitions m names (elim (get_topic m name) [
  | panic ↦ c
  | err e ↦ c
  | ok t ↦ update_topic_partitions c name (Topic.num_partitions t)
])

unfoldable pub on_join_group :
    World → Server → String → Option String → List String → Server × Option Response
unfolding learn_partitions
on_join_group w s group_id member_id topics =
    let (c, (id, assignments)) =
      Coordinator.join_group w.topic_order (learn_partitions s.topic_manager topics s.coordinator)
        w.now w.fresh group_id member_id topics in
    (record s { coordinator = c }, some (Response.join_group_success group_id id assignments))

unfoldable pub on_leave_group : World → Server → String → String → Server × Option Response
on_leave_group w s group_id member_id =
    let (c, outcome) = Coordinator.leave_group w.topic_order s.coordinator group_id member_id in
    elim outcome [
      | panic ↦ (s, none)
      | err e ↦ (record s { coordinator = c }, some (Response.leave_group_error (to_string e)))
      | ok done ↦ (record s { coordinator = c }, some (Response.leave_group_success group_id))
    ]

unfoldable pub on_heartbeat : World → Server → String → String → Server × Option Response
on_heartbeat w s group_id member_id =
    let (c, outcome) = Coordinator.heartbeat s.coordinator w.now group_id member_id in
    elim outcome [
      | panic ↦ (s, none)
      | err e ↦ (record s { coordinator = c }, some (Response.heartbeat_error (to_string e) false))
      | ok needs_rejoin ↦ (
        record s { coordinator = c },
        some (
            if needs_rejoin
            then Response.heartbeat_error "Rebalance in progress" true
            else Response.heartbeat_success),
      )
    ]

unfoldable pub on_commit_offset :
    World → Server → String → String → ℕ → ℕ → Server × Option Response
on_commit_offset w s group_id topic partition offset =
    let (m, outcome) =
      OffsetManager.commit_offset s.offset_manager w.write group_id topic partition offset in
    let s' : Server = record s { offset_manager = m } in
    elim outcome [
      | panic ↦ (s', none)
      | err e ↦ (s', some (Response.commit_offset_error (to_string e)))
      | ok done ↦ (s', some (Response.commit_offset_success group_id topic partition offset))
    ]

-- Nothing committed is offset 0.
unfoldable pub on_fetch_offset : Server → String → String → ℕ → Option Response
on_fetch_offset s group_id topic partition =
    elim (OffsetManager.fetch_offset s.offset_manager group_id topic partition) [
      | panic ↦ none
      | err e ↦ some (Response.fetch_offset_error (to_string e))
      | ok (some offset) ↦ some (Response.fetch_offset_success group_id topic partition offset)
      | ok none ↦ some (Response.fetch_offset_success group_id topic partition 0)
    ]
