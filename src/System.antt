-- ===== src/System.antt =====
-- Clients of the crate `client` on a connection to the server of the crate `broker`: what a client
-- sends is a request to `process_request`, in the loop of `handle_connection`
-- (broker/src/server.rs), and the response comes back whole, as the round trips of the codec say.
pub mod Delivery
pub mod Reading
pub mod Offsets
mod Examples
use gaffa.Prelude.{ℕ, ◌+◌, Option, none, some}
use gaffa.Protocol.Messages.{Request, Response}
use gaffa.Storage.Compression.{Codecs}
use gaffa.Broker.Server.{Server, World, process_request}
use gaffa.Client.Connection.{Reply}

-- The server, and how many requests it has processed.
pub record Running : Type 0 where
  pub server : Server
  pub served : ℕ

-- The task of a connection that panics closes the connection.
abbrev pub reply_of : Option Response → Reply
reply_of none = Reply.closed
reply_of (some response) = Reply.answered response

-- `worlds` gives what the server takes from the world for each request.
module _ (lib : Codecs) (worlds : ℕ → World) where
  unfoldable pub serve : Running → Request → Running × Reply
  serve r request =
      let (s, response) = process_request lib (worlds r.served) r.server request in
      (record { server = s; served = r.served + 1 }, reply_of response)
