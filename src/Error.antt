-- ===== src/Error.antt =====
-- error.rs: the errors of the library (`Defs`), what they print (`Text`) and what they say of the
-- librdkafka code behind them (`Laws`).
pub mod Defs
pub mod Text
pub mod Laws
