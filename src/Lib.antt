-- ===== src/Lib.antt =====
-- Verification of Gaffa, a message broker written in Rust: producers append messages to the
-- partitions of topics, the broker stores them in segmented log files, and consumers fetch them by
-- offset, alone or in groups.
--
-- The parts of the program and the files that model them:
--
-- Common: the crate `common`. Common/Error.antt has the variants of `GaffaError`
-- (common/src/error.rs) with their texts, and the outcome of a fallible call: `ok`, `err`, or `panic`
-- for the panics that the source can run into (a slice out of range, a subtraction below zero).
-- Common/Config.antt has `BrokerConfig` (common/src/config.rs).
--
-- Protocol: the crate `protocol`. Protocol/Messages.antt has the records and the requests and
-- responses of protocol/src/messages.rs, with the fields in the order of the source.
--
--   Protocol/Codec.antt is protocol/src/codec.rs: a buffer is a byte list, `decode` returns what it
--   leaves of it, and bincode is the parameter `Bincode`, with the law that it reads back what it
--   has written. `server_*` is `GaffaCodec`, `client_*` is `ClientCodec`.
--
-- Client: the crate `client`.
--   Partitioner.antt: the partitioners of client/src/partitioner.rs; an atomic counter is a field of
--     the state that a call returns.
--   Connection.antt: the sending of a request and the receiving of its response, which all methods
--     begin with; the other end is the parameter `exchange`.
--   Producer.antt, Consumer.antt: `Producer` of client/src/producer.rs and `Consumer` of
--     client/src/consumer.rs. A method is an `Action` (Common/Action.antt): it returns the state
--     with the result, since what was changed before an error stays changed. Consumer/Groups.antt
--     has the methods of members of a group; a round of the heartbeat task is a step of its own.
--
-- Broker: the crate `broker`.
--   Cluster.antt: broker/src/cluster.rs, the replica states of partitions and the cluster metadata.
--     `update_offset` is `PartitionReplicaState::update_replica_offset`. The order in which a
--     `HashSet` is iterated over is the parameter `order`, here and in Coordinator.antt.
--   Coordinator.antt: broker/src/coordinator.rs, the consumer groups. `beat` is the `heartbeat` of a
--     group; the two loops of `check_heartbeats` are done group by group.
--   OffsetManager.antt: broker/src/offset_manager.rs, the committed offsets and the text files that
--     keep them; where a path leads is the parameter `resolve`; OffsetManager/Text.antt
--     has a line of a file and the standard library's reading of it.
--   Replication.antt: broker/src/replication.rs. `replication_round` is a round of
--     `follower_replication_loop`, `check_states` the loop of `check_broker_health`.
--     Replication/Acknowledgement.antt has the changes of a cluster, in any order, as `Step` and
--     `Reach`.
--   Server.antt: broker/src/server.rs. `Server` is the state that the handles share, `World` what a
--     step takes from the world, and `on_*` the arm of a request in `process_request`; a request
--     is one step, and a panic leaves it without a response.
--   A map is an association list (Prelude/Maps.antt), and theorems on the order in which a map is
--   iterated over hold for every order of the list. The clock's reading is an argument.
--
-- Storage: the crate `storage`.
--   Compression.antt: compression.rs. The compressors and the checksum are third-party crates, the
--     parameter `Codecs`; `CodecLaws` says what is used of them.
--   Record.antt: `DiskRecord` of record.rs, `encode` and `decode` over byte lists. A reader is the
--     list of the bytes in front of it, and `decode` returns what it leaves of it.
--   File.antt: `std::fs::File`, its bytes and its cursor; writing, seeking and opening succeed.
--   Index.antt: `OffsetIndex` of index.rs; `open` is `open_existing`. The binary search runs on
--     fuel `size`, which is enough since the interval gets smaller in each round.
--   Segment.antt: `LogSegment` of segment.rs; `open` is `open_existing`. Each lock is held for a
--     whole call, so a method is one step on the record. The loops that decode run on fuel one more
--     than the number of bytes left, and a decoded record takes at least sixteen bytes.
--   Partition.antt: `Partition` of partition.rs, the list of its segments.
--   Topic.antt: `Topic` and `TopicManager` of topic.rs; what the directories hold is an argument.
--   Retention.antt: retention.rs; a `Duration` is a number of nanoseconds.
--
-- System: clients on a connection to the server. System.antt puts `process_request` at the other end
-- of the clients' exchanges; the frames and their decoding are left out there, as
-- Protocol/Codec/Framing.antt shows that they change nothing.
--
-- A `u8`, `u32` or `u64` is a native number; arithmetic that can wrap is written out, and the
-- theorems say which values have to stay in range. A memory map is the list of the bytes that the
-- file had when it was mapped. Segments are read as lists of records, and a partition as their
-- concatenation.
--
-- Not modelled: failures of the file system but for the writing of offset files, the flushing of
-- files to the disk, and logging; the sockets, the accepting of connections and the timers, which
-- choose the next step; the metrics of the broker, which only call a library; and the start-up code,
-- the examples and the tests.
pub mod Broker
pub mod Client
pub mod Common
pub mod Prelude
pub mod Protocol
pub mod Storage
pub mod System
