-- ===== src/Client.antt =====
-- The crate `client`.
pub mod Partitioner
pub mod Connection
pub mod Producer
pub mod Consumer
mod Examples
