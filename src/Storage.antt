-- ===== src/Storage.antt =====
-- The crate `storage`: compression, records, the offset index, segments, partitions and retention.
pub mod Compression
pub mod Record
pub mod File
pub mod Index
pub mod Retention
pub mod Segment
pub mod Partition
pub mod Topic
pub mod Examples
