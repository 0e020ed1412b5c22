-- ===== src/Client/Partitioner.antt =====
-- client/src/partitioner.rs: the partition that a message is sent to. The atomic counters are
-- fields of the state that a call returns; a call is one step.
pub mod Rotation
pub mod Stickiness
use gaffa.Prelude.{
  ℕ, ◌+◌, ◌%◌, ◌^◌, Bool, Option, none, some, [], ◌∷◌, ltb, ◌==◌, ◌&&◌, if◌then◌else◌, add32,
}
use gaffa.Prelude.Bytes.{Bytes}
use gaffa.Common.Error.{Result, ok, panic}

-- The trait `Partitioner`: a key and the number of partitions give the partition to send to.
pub record Partitioner (S : Type 0) : Type 0 where
  pub partition : S → Option Bytes → ℕ → S × Result ℕ

pub record RoundRobin : Type 0 where
  pub counter : ℕ

-- `RoundRobinPartitioner::new`
abbrev pub round_robin : RoundRobin
round_robin = record { counter = 0 }

unfoldable pub round_robin_partition : RoundRobin → Option Bytes → ℕ → RoundRobin × Result ℕ
round_robin_partition s key num_partitions =
    if num_partitions == 0
    then (s, ok 0)
    else (record s { counter = add32 s.counter 1 }, ok (s.counter % num_partitions))

-- `hash_bytes` stands on the hasher of the standard library: it is the argument `hash`, of which
-- only the low 32 bits are used.
unfoldable pub key_hash_partition : (Bytes → ℕ) → Unit {0} → Option Bytes → ℕ → Unit {0} × Result ℕ
key_hash_partition hash s key num_partitions =
    if num_partitions == 0 then (s, ok 0) else (elim key [
      | none ↦ (s, ok 0)
      | some [] ↦ (s, ok 0)
      | some (b ∷ bs) ↦ (s, ok (hash (b ∷ bs) % 2 ^ 32 % num_partitions))
    ])

pub record Sticky : Type 0 where
  pub current_partition : ℕ
  pub message_count : ℕ
  pub batch_size : ℕ

-- `StickyPartitioner::new`
abbrev pub sticky : ℕ → Sticky
sticky batch_size = record { current_partition = 0; message_count = 0; batch_size = batch_size }

-- `with_default_batch`
abbrev pub with_default_batch : Sticky
with_default_batch = sticky 100

-- The partition behind the current one.
unfoldable pub switched : Sticky → ℕ → Sticky
switched s num_partitions = record s {
  current_partition = add32 s.current_partition 1 % num_partitions;
}

-- A remainder by a batch size of 0 panics; the first call does not take one.
unfoldable pub sticky_partition : Sticky → Option Bytes → ℕ → Sticky × Result ℕ
unfolding switched
sticky_partition s key num_partitions =
    let counted = record s { message_count = add32 s.message_count 1 } in
    let next = switched counted num_partitions in
    if num_partitions == 0
    then (s, ok 0)
    else if s.message_count == 0
    then (counted, ok counted.current_partition)
    else if s.batch_size == 0
    then (counted, panic)
    else if s.message_count % s.batch_size == 0
    then (next, ok next.current_partition)
    else (counted, ok counted.current_partition)
