-- ===== src/Protocol/Examples.antt =====
-- Concrete runs of the frame codec of protocol/src/codec.rs, with a format that knows one request
-- and one response.
use gaffa.Prelude.{ℕ, zero, suc, ◌≡◌, refl, some, [], ◌∷◌, ◌++◌, arith, length}
use gaffa.Prelude.Bytes.{Bytes}
use gaffa.Common.Error.{ok}
use gaffa.Protocol.Messages.{Request, Response}
use gaffa.Protocol.Codec.{
  Attempt, Bincode, BincodeLaws, server_decode, server_encode, client_encode, client_decode,
}
use gaffa.Protocol.Codec.Framing.{server_decode-client_encode}
use gaffa.Protocol.Codec.Streams.{encode_all, decode_all, decode_all-encode_all}

replicate : ℕ → Bytes
replicate zero = []
replicate (suc n) = 0 ∷ replicate n

write_request : Request → Attempt Bytes
write_request Request.list_topics = Attempt.done (5 ∷ [])
write_request (Request.create_topic a0 a1) = Attempt.failed "not in the format"
write_request (Request.produce a0 a1 a2) = Attempt.failed "not in the format"
write_request (Request.fetch a0 a1 a2 a3) = Attempt.failed "not in the format"
write_request (Request.get_metadata a0) = Attempt.failed "not in the format"
write_request (Request.get_partitions a0) = Attempt.failed "not in the format"
write_request (Request.join_group a0 a1 a2) = Attempt.failed "not in the format"
write_request (Request.leave_group a0 a1) = Attempt.failed "not in the format"
write_request (Request.heartbeat a0 a1) = Attempt.failed "not in the format"
write_request (Request.commit_offset a0 a1 a2 a3) = Attempt.failed "not in the format"
write_request (Request.fetch_offset a0 a1 a2) = Attempt.failed "not in the format"
write_request (Request.register_broker a0 a1 a2) = Attempt.failed "not in the format"
write_request Request.get_cluster_metadata = Attempt.failed "not in the format"
write_request (Request.replication_fetch a0 a1 a2 a3) = Attempt.failed "not in the format"

write_response : Response → Attempt Bytes
write_response (Response.create_topic_success a0 a1) = Attempt.failed "not in the format"
write_response (Response.create_topic_error a0) = Attempt.failed "not in the format"
write_response (Response.produce_success a0 a1 a2 a3) = Attempt.failed "not in the format"
write_response (Response.produce_error a0) = Attempt.failed "not in the format"
write_response (Response.fetch_success a0 a1 a2) = Attempt.failed "not in the format"
write_response (Response.fetch_error a0) = Attempt.failed "not in the format"
write_response (Response.metadata a0) = Attempt.failed "not in the format"
write_response (Response.metadata_error a0) = Attempt.failed "not in the format"
write_response (Response.partitions a0 a1) = Attempt.failed "not in the format"
write_response (Response.partitions_error a0) = Attempt.failed "not in the format"
write_response (Response.topics a0) = Attempt.failed "not in the format"
write_response (Response.topics_error a0) = Attempt.failed "not in the format"
write_response (Response.join_group_success a0 a1 a2) = Attempt.failed "not in the format"
write_response (Response.join_group_error a0) = Attempt.failed "not in the format"
write_response (Response.leave_group_success a0) = Attempt.failed "not in the format"
write_response (Response.leave_group_error a0) = Attempt.failed "not in the format"
write_response Response.heartbeat_success = Attempt.done (7 ∷ [])
write_response (Response.heartbeat_error a0 a1) = Attempt.failed "not in the format"
write_response (Response.commit_offset_success a0 a1 a2 a3) = Attempt.failed "not in the format"
write_response (Response.commit_offset_error a0) = Attempt.failed "not in the format"
write_response (Response.fetch_offset_success a0 a1 a2 a3) = Attempt.failed "not in the format"
write_response (Response.fetch_offset_error a0) = Attempt.failed "not in the format"
write_response (Response.register_broker_success a0) = Attempt.failed "not in the format"
write_response (Response.register_broker_error a0) = Attempt.failed "not in the format"
write_response (Response.cluster_metadata a0 a1) = Attempt.failed "not in the format"
write_response (Response.cluster_metadata_error a0) = Attempt.failed "not in the format"
write_response (Response.replication_fetch_success a0 a1 a2) = Attempt.failed "not in the format"
write_response (Response.replication_fetch_error a0) = Attempt.failed "not in the format"

abbrev requests : Bincode Request
unfolding write_request
requests = record {
  serialize = write_request;
  deserialize = λ bytes. Attempt.done Request.list_topics;
}

abbrev responses : Bincode Response
unfolding write_response
responses = record {
  serialize = write_response;
  deserialize = λ bytes. Attempt.done Response.heartbeat_success;
}

requests-BincodeLaws : BincodeLaws requests
unfolding requests write_request
requests-BincodeLaws = record { inverse = law }
  where
    law :
        (item : Request) (bytes : Bytes)
        → write_request item ≡ Attempt.done bytes
        → ◌≡◌ {A = Attempt Request} (Attempt.done Request.list_topics) (Attempt.done item)
    law (Request.create_topic a0 a1) bytes h = cc
    law (Request.produce a0 a1 a2) bytes h = cc
    law (Request.fetch a0 a1 a2 a3) bytes h = cc
    law (Request.get_metadata a0) bytes h = cc
    law (Request.get_partitions a0) bytes h = cc
    law Request.list_topics bytes h = refl
    law (Request.join_group a0 a1 a2) bytes h = cc
    law (Request.leave_group a0 a1) bytes h = cc
    law (Request.heartbeat a0 a1) bytes h = cc
    law (Request.commit_offset a0 a1 a2 a3) bytes h = cc
    law (Request.fetch_offset a0 a1 a2) bytes h = cc
    law (Request.register_broker a0 a1 a2) bytes h = cc
    law Request.get_cluster_metadata bytes h = cc
    law (Request.replication_fetch a0 a1 a2 a3) bytes h = cc

responses-BincodeLaws : BincodeLaws responses
unfolding responses write_response
responses-BincodeLaws = record { inverse = law }
  where
    law :
        (item : Response) (bytes : Bytes)
        → write_response item ≡ Attempt.done bytes
        → ◌≡◌ {A = Attempt Response} (Attempt.done Response.heartbeat_success) (Attempt.done item)
    law (Response.create_topic_success a0 a1) bytes h = cc
    law (Response.create_topic_error a0) bytes h = cc
    law (Response.produce_success a0 a1 a2 a3) bytes h = cc
    law (Response.produce_error a0) bytes h = cc
    law (Response.fetch_success a0 a1 a2) bytes h = cc
    law (Response.fetch_error a0) bytes h = cc
    law (Response.metadata a0) bytes h = cc
    law (Response.metadata_error a0) bytes h = cc
    law (Response.partitions a0 a1) bytes h = cc
    law (Response.partitions_error a0) bytes h = cc
    law (Response.topics a0) bytes h = cc
    law (Response.topics_error a0) bytes h = cc
    law (Response.join_group_success a0 a1 a2) bytes h = cc
    law (Response.join_group_error a0) bytes h = cc
    law (Response.leave_group_success a0) bytes h = cc
    law (Response.leave_group_error a0) bytes h = cc
    law Response.heartbeat_success bytes h = refl
    law (Response.heartbeat_error a0 a1) bytes h = cc
    law (Response.commit_offset_success a0 a1 a2 a3) bytes h = cc
    law (Response.commit_offset_error a0) bytes h = cc
    law (Response.fetch_offset_success a0 a1 a2 a3) bytes h = cc
    law (Response.fetch_offset_error a0) bytes h = cc
    law (Response.register_broker_success a0) bytes h = cc
    law (Response.register_broker_error a0) bytes h = cc
    law (Response.cluster_metadata a0 a1) bytes h = cc
    law (Response.cluster_metadata_error a0) bytes h = cc
    law (Response.replication_fetch_success a0 a1 a2) bytes h = cc
    law (Response.replication_fetch_error a0) bytes h = cc

lists : requests.serialize Request.list_topics ≡ Attempt.done (5 ∷ [])
unfolding requests write_request
lists = refl

beats : responses.serialize Response.heartbeat_success ≡ Attempt.done (7 ∷ [])
unfolding responses write_response
beats = refl

server_decode-client_encode_example :
    ((sent : Bytes) × (client_encode requests Request.list_topics [] ≡ (ok tt, sent))
      × (server_decode requests (sent ++ 9 ∷ []) ≡ (ok (some Request.list_topics), 9 ∷ [])))
    × ((sent : Bytes) × (server_encode responses Response.heartbeat_success [] ≡ (ok tt, sent))
        × (client_decode responses (sent ++ 9 ∷ [])
            ≡ (ok (some Response.heartbeat_success), 9 ∷ [])))
server_decode-client_encode_example =
    server_decode-client_encode requests responses requests-BincodeLaws responses-BincodeLaws
      Request.list_topics Response.heartbeat_success (5 ∷ []) (7 ∷ []) (9 ∷ []) lists beats
      (omega arith) (omega arith)

decode_all-encode_all_example :
    decode_all requests 2
      (encode_all requests (Request.list_topics ∷ Request.list_topics ∷ []) [] ++ 9 ∷ [])
    ≡ (Request.list_topics ∷ Request.list_topics ∷ [], 9 ∷ [])
decode_all-encode_all_example =
    decode_all-encode_all requests requests-BincodeLaws
      (Request.list_topics ∷ Request.list_topics ∷ []) (9 ∷ [])
      ((5 ∷ [], lists, omega arith), ((5 ∷ [], lists, omega arith), tt))

-- A number is written as so many zeros.
abbrev zeros : Bincode ℕ
zeros = record {
  serialize = λ n. Attempt.done (replicate n);
  deserialize = λ bytes. Attempt.done (length bytes);
}

abbrev many : Bytes
many = replicate 10485761
