-- ===== src/System/Examples.antt =====
-- Concrete runs of clients on a server.
use gaffa.Prelude.{none, some, ℕ, ◌+◌, ◌≡◌, refl, [], ◌∷◌, false}
use gaffa.Common.Error.{ok}
use gaffa.Storage.Segment
use gaffa.Storage.Examples.Fixtures.{plain}
use gaffa.Storage.Examples.Logs.{sold}
use gaffa.Broker.Server.{World}
use gaffa.Broker.Examples.Servers.{server, world}
use gaffa.Client.Partitioner.{Partitioner, RoundRobin, round_robin, round_robin_partition}
use gaffa.Client.Producer.{Producer}
use gaffa.Client.Producer as Writer
use gaffa.Client.Consumer.{Consumer}
use gaffa.Client.Consumer as Reader
use gaffa.System.{Running, serve}
use gaffa.Broker.Server.{Server}
use gaffa.Client.Consumer.Groups.{commit_offsets, fetch_committed_offset}
use gaffa.System.Offsets.{commit_offsets-fetch_committed_offset}

abbrev turns : Partitioner RoundRobin
turns = record { partition = round_robin_partition }

abbrev steady : ℕ → World
steady i = world

abbrev running : Running
running = record { server = server; served = 0 }

abbrev producer : Producer RoundRobin
producer = Writer.connected round_robin

-- A server with a record, and a consumer that is subscribed to its partition.
abbrev stocked : Server
stocked = record server {
  topic_manager = record {
    topics = ("orders", record { name = "orders"; partitions = sold ∷ [] }) ∷ [];
  };
}

abbrev reader : Consumer
reader = record {
  subscriptions = ("orders", 0 ∷ []) ∷ [];
  offsets = (("orders", 0), 0) ∷ [];
  group_id = none;
  member_id = none;
  assignments = [];
  auto_commit = false;
  auto_commit_interval = 5000000000;
  heartbeat_task = none;
}

-- Two members of a group, of which one has offsets to commit.
abbrev member : Consumer
member = record reader {
  group_id = some "audit";
  member_id = some "audit-1";
  offsets = (("orders", 0), 5) ∷ (("orders", 1), 7) ∷ [];
}

abbrev newcomer : Consumer
newcomer = record reader { group_id = some "audit"; offsets = [] }

commit_offsets-fetch_committed_offset_example :
    (r' : Running) × (commit_offsets
        (serve plain steady)
        (record { client = member; world = running })
      ≡ (record { client = member; world = r' }, ok tt))
    × (fetch_committed_offset
          (serve plain steady)
          "orders"
          1
          (record { client = newcomer; world = r' })
        ≡ (record { client = newcomer; world = record r' { served = r'.served + 1 } }, ok 7))
commit_offsets-fetch_committed_offset_example =
    commit_offsets-fetch_committed_offset plain steady member newcomer running "audit" ("orders", 1)
      7 (λ n. refl) refl refl (refl, (refl, tt)) refl
