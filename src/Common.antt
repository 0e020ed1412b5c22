-- ===== src/Common.antt =====
-- The crate `common`: common/src/error.rs and common/src/config.rs.
pub mod Error
pub mod Config
pub mod Action
