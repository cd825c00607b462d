-- ===== src/Client.antt =====
-- client.rs and config.rs: the events of a client's queue, the callbacks of its context and the
-- configuration.
pub mod Config
pub mod ConfigLaws
pub mod Events
pub mod Calls
pub mod CallsLaws
pub mod NativeConfig
