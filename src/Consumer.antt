-- ===== src/Consumer.antt =====
-- The consumers: `consumer/base_consumer.rs` (`Poll`, `Calls`), the rebalance of
-- `consumer/mod.rs` (`Rebalance`) and `consumer/stream_consumer.rs` (`Stream`).
pub mod Poll
pub mod PollLaws
pub mod Rebalance
pub mod Calls
pub mod Lifecycle
pub mod LifecycleLaws
pub mod CallsLaws
pub mod WaitLaws
pub mod Interface
pub mod Stream
