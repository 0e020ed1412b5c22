-- ===== src/System/Delivery.antt =====
-- What a producer sends, a consumer fetches.
use gaffa.Prelude.{ℕ, ◌+◌, ◌≡◌, ap, Option, some}
use gaffa.Protocol.Messages.{Record, Request, Response}
use gaffa.Storage.Compression.{Codecs}
use gaffa.Storage.Partition.{Partition}
use gaffa.Storage.Partition.Chain.{Chain}
use gaffa.Storage.Topic.{Topic}
use gaffa.Broker.Server.{Server, World, process_request}
use gaffa.Client.Connection.{Reply}
use gaffa.Client.Partitioner.{Partitioner}
use gaffa.Client.Producer.{Producer}
use gaffa.Client.Consumer as Reader
use gaffa.Client.Consumer.{Consumer}
use gaffa.System.{Running, serve, reply_of}

module _ (lib : Codecs) (worlds : ℕ → World) where
  -- The server after a request.
  abbrev pub next : Running → Server → Running
  next r s = record { server = s; served = r.served + 1 }

  pub served :
      (r : Running) (request : Request) (s : Server) (response : Response)
      → process_request lib (worlds r.served) r.server request ≡ (s, some response)
      → serve lib worlds r request ≡ (next r s, Reply.answered response)
  unfolding serve
  served r request s response h =
      ap after {x = process_request lib (worlds r.served) r.server request} {y = (s, some response)}
        h
    where
      after : Server × Option Response → Running × Reply
      after x = (record { server = x.0; served = r.served + 1 }, reply_of x.1)
