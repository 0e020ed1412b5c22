-- ===== src/Broker.antt =====
-- The crate `broker`.
pub mod Cluster
pub mod Coordinator
pub mod Replication
pub mod OffsetManager
pub mod Server
pub mod Examples
