-- ===== src/Mocking.antt =====
-- mocking.rs: librdkafka's mock clusters.
pub mod ApiKey
pub mod Defs
pub mod Session
pub mod Laws
pub mod SessionLaws
