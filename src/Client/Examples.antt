-- ===== src/Client/Examples.antt =====
-- Concrete runs of the partitioners of client/src/partitioner.rs.
use gaffa.Prelude.{
  ℕ, ◌/◌, ◌%◌, ◌+◌, ◌<◌, ◌≡◌, ◌≢◌, refl, Option, none, some, zero, suc, List, [], ◌∷◌, map, arith,
}
use gaffa.Prelude.Bytes.{Bytes}
use gaffa.Prelude.Maps.{Distinct}
use gaffa.Protocol.Messages.{Message}
use gaffa.Common.Error.{ok}
use gaffa.Client.Partitioner.{
  Partitioner, RoundRobin, round_robin, round_robin_partition, sticky_partition,
}
use gaffa.Client.Producer.{group_messages}
use gaffa.Client.Producer.Grouping.{batch_of, sent_to, choose, group_messages-sent_to}
use gaffa.Client.Partitioner.Rotation
use gaffa.Client.Partitioner.Rotation.{pick_turns}
use gaffa.Client.Partitioner.Stickiness
use gaffa.Client.Partitioner.Stickiness.{sticky-batches, sticky_shrunk}

-- Calls with and without keys.
abbrev keys : ℕ → Option Bytes
keys zero = none
keys (suc i) = some (i ∷ [])

pick_turns_example :
    (a : ℕ) × (b : ℕ) × (Rotation.pick keys round_robin 3 1 ≡ ok a)
    × (Rotation.pick keys round_robin 3 2 ≡ ok b)
    × (a < 3)
    × (b < 3)
    × (a ≢ b)
    × (Rotation.pick keys round_robin 3 (1 + 3) ≡ ok a)
pick_turns_example = pick_turns keys round_robin 3 1 2 (omega arith) (omega arith) (omega arith)

sticky-batches_example : Stickiness.pick keys 100 3 250 ≡ ok (250 / 100 % 3)
sticky-batches_example =
    sticky-batches keys 100 3 (omega arith) (omega arith) (omega arith) 250 (omega arith)

-- A call for a topic of two partitions in the middle of a batch for the third one.
sticky_shrunk_example :
    (sticky_partition (Stickiness.behind keys 100 3 250) (keys 7) 2).1 ≡ ok (250 / 100 % 3)
sticky_shrunk_example =
    sticky_shrunk keys 100 3 (omega arith) (omega arith) (omega arith) 250 2 (keys 7)
      (λ e. omega (arith, e)) (omega arith) (omega arith)

abbrev turns : Partitioner RoundRobin
turns = record { partition = round_robin_partition }

abbrev text : ℕ → Message
text n = record { key = none; value = n ∷ []; timestamp = 1700000000 }

group_messages-sent_to_example :
    (batches : List (ℕ × List Message)) × (group_messages turns 2
        (text 7 ∷ text 8 ∷ text 9 ∷ [])
        round_robin
        []
      ≡ (record { counter = 3 }, ok batches))
    × Distinct (map (λ e. e.0) batches)
    × ((i : ℕ) → batch_of i batches ≡ sent_to i ((0, text 7) ∷ (1, text 8) ∷ (0, text 9) ∷ []))
unfolding choose round_robin_partition
group_messages-sent_to_example =
    group_messages-sent_to turns 2 (text 7 ∷ text 8 ∷ text 9 ∷ []) round_robin
      (record { counter = 3 }) ((0, text 7) ∷ (1, text 8) ∷ (0, text 9) ∷ []) refl
