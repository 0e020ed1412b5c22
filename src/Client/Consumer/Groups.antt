-- ===== src/Client/Consumer/Groups.antt =====
-- client/src/consumer.rs: the consumer as a member of a group.
use gaffa.Prelude.{
  ℕ, String, Bool, true, false, ◌&&◌, not, Option, none, some, List, [], ◌∷◌, map, if◌then◌else◌,
}
use gaffa.Prelude.Maps.{put}
use gaffa.Common.Error.{ok, err, panic, protocol}
use gaffa.Common.Action.{Action, ◌>>=◌, ◌>>◌, done, fail, get, modify, for_each}
use gaffa.Protocol.Messages.{Record, PartitionAssignment, Request, Response}
use gaffa.Client.Connection.{Reply, Session, ask, unexpected, refused, update_client}
use gaffa.Client.Consumer.{Consumer, Key, key_eq, fetch_all, start_heartbeat_task}

-- `ok_or_else` on an optional field.
abbrev pub required : {S : Type 0} → Option String → String → Action S String
required none problem = fail (protocol problem)
required (some value) problem = done value

abbrev pub is_empty : List Record → Bool
is_empty [] = true
is_empty (r ∷ rs) = false

abbrev pub key_of : PartitionAssignment → Key
key_of a = (a.topic, a.partition)

-- What `fetch_committed_offset` makes of a response.
abbrev pub committed : {S : Type 0} → Response → Action S ℕ
committed (Response.fetch_offset_success g t p offset) = done offset
committed (Response.fetch_offset_error problem) = refused problem
committed _ = unexpected

-- What `commit_offsets` makes of a response.
abbrev pub acknowledged : {S : Type 0} → Response → Action S (Unit {0})
acknowledged (Response.commit_offset_success g t p o) = done tt
acknowledged (Response.commit_offset_error problem) = refused problem
acknowledged _ = unexpected

module _ {W : Type 0} (exchange : W → Request → W × Reply) where
  abbrev pub Call : Type 0 → Type 0
  Call T = Action (Session Consumer W) T

  -- `unwrap` of the group id panics without one.
  unfoldable pub fetch_committed_offset : String → ℕ → Call ℕ
  fetch_committed_offset topic partition s = elim s.client.group_id [
    | none ↦ (s, panic)
    | some group_id ↦
        (do
          response ← ask exchange (Request.fetch_offset group_id topic partition)
          committed response)
          s
  ]

  -- The round of the loop of `join_group` for an assigned partition.
  unfoldable pub init_offset : PartitionAssignment → Call (Unit {0})
  unfolding fetch_committed_offset
  init_offset a = do
    offset ← fetch_committed_offset a.topic a.partition
    modify (update_client (λ c. record c { offsets = put key_eq (key_of a) offset c.offsets }))

  abbrev pub started : Call (Unit {0})
  started s = elim (start_heartbeat_task s.client) [
    | panic ↦ (s, panic)
    | err e ↦ (s, err e)
    | ok c ↦ (record s { client = c }, ok tt)
  ]

  -- What `join_group` does with a membership.
  unfoldable pub joined : String → List PartitionAssignment → Call (Unit {0})
  unfolding init_offset
  joined member_id assignments = do
    modify (update_client (λ c. record c { member_id = some member_id; assignments = assignments }))
    for_each assignments init_offset
    started

  unfoldable pub join_group : List String → Call (Unit {0})
  unfolding joined
  join_group topics = do
    s ← get
    group_id ← required s.client.group_id "Group ID not set"
    response ← ask exchange (Request.join_group group_id s.client.member_id topics)
    elim response [
      | Response.join_group_success g member_id assignments ↦ joined member_id assignments
      | Response.join_group_error problem ↦ refused problem
      | _ ↦ unexpected
    ]

  -- The heartbeat task is stopped before the broker is told.
  unfoldable pub leave_group : Call (Unit {0})
  leave_group = do
    s ← get
    group_id ← required s.client.group_id "Not in a group"
    member_id ← required s.client.member_id "Member ID not set"
    modify (update_client (λ c. record c { heartbeat_task = none }))
    response ← ask exchange (Request.leave_group group_id member_id)
    elim response [
      | Response.leave_group_success g ↦
          modify (update_client (λ c. record c { member_id = none; assignments = [] }))
      | Response.leave_group_error problem ↦ refused problem
      | _ ↦ unexpected
    ]

  -- The round of the loop of `commit_offsets` for an offset.
  unfoldable pub commit_one : String → Key × ℕ → Call (Unit {0})
  commit_one group_id e = do
    response ← ask exchange (Request.commit_offset group_id e.0.0 e.0.1 e.1)
    acknowledged response

  unfoldable pub commit_offsets : Call (Unit {0})
  unfolding commit_one
  commit_offsets = do
    s ← get
    group_id ← required s.client.group_id "Not in a consumer group"
    for_each s.client.offsets (commit_one group_id)

  -- A commit that fails is only logged.
  abbrev pub logged : Call (Unit {0}) → Call (Unit {0})
  logged call s =
      let (s', outcome) = call s in
      elim outcome [ panic ↦ (s', panic) | err e ↦ (s', ok tt) | ok t ↦ (s', ok tt) ]

  abbrev pub auto_committed : List Record → Call (Unit {0})
  auto_committed all_records s =
      (if s.client.auto_commit && not (is_empty all_records)
          then logged commit_offsets
          else done tt)
        s

  unfoldable pub poll_group : ℕ → Call (List Record)
  poll_group max_messages = do
    s ← get
    all_records ← fetch_all exchange max_messages (map key_of s.client.assignments) []
    auto_committed all_records
    done all_records
