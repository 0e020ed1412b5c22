-- ===== src/Client/Connection.antt =====
-- The exchange of a request and a response that the methods of client/src/producer.rs and of
-- client/src/consumer.rs start with. What is at the other end of the stream is the parameter
-- `exchange`, on a state of its own.
use gaffa.Prelude.{◌≡◌, ap, String}
use gaffa.Common.Error.{Result, ok, err, connection, protocol}
use gaffa.Common.Action.{Action, fail}
use gaffa.Protocol.Messages.{Request, Response}

-- What a client gets for a request: it cannot be sent, the stream has ended, what comes cannot be
-- read, or a response.
pub data Reply : Type 0 where
  send_failed : String → Reply
  closed : Reply
  unreadable : String → Reply
  answered : Response → Reply

-- A client's own state, and the other end's.
pub record Session (C W : Type 0) : Type 0 where
  pub client : C
  pub world : W

abbrev pub received : Reply → Result Response
received (send_failed problem) = err (connection problem)
received closed = err (connection "Connection closed")
received (unreadable problem) = err (connection problem)
received (answered response) = ok response

-- `send` and `next` of the framed stream.
unfoldable pub ask :
    {C W : Type 0} → (W → Request → W × Reply) → Request → Action (Session C W) Response
ask exchange request s =
    let (w, reply) = exchange s.world request in (record s { world = w }, received reply)

-- A response that is none of those expected.
abbrev pub unexpected : {S T : Type 0} → Action S T
unexpected = fail (protocol "Unexpected response")

-- An error that the broker reports.
abbrev pub refused : {S T : Type 0} → String → Action S T
refused problem = fail (protocol problem)

-- A change of the client's own fields.
abbrev pub update_client : {C W : Type 0} → (C → C) → Session C W → Session C W
update_client change s = record s { client = change s.client }

pub ask-eq-ok :
    {C W : Type 0} (exchange : W → Request → W × Reply) (request : Request) (c : C) (w w' : W)
    (response : Response)
    → exchange w request ≡ (w', Reply.answered response)
    → ask exchange request (record { client = c; world = w })
      ≡ (record { client = c; world = w' }, ok response)
unfolding ask
ask-eq-ok {C} {W} exchange request c w w' response h =
    ap after {x = exchange w request} {y = (w', Reply.answered response)} h
  where
    after : W × Reply → Session C W × Result Response
    after r = (record { client = c; world = r.0 }, received r.1)
