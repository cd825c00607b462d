-- ===== src/Producer.antt =====
-- The producers: `producer/base_producer.rs`, `producer/future_producer.rs`.
pub mod Record
pub mod Send
pub mod SendLaws
pub mod Poll
pub mod PollLaws
pub mod FlushLaws
pub mod Purge
pub mod Threaded
pub mod Boxes
pub mod BoxesLaws
pub mod BoxesDrain
pub mod Interface
pub mod Creation
pub mod ErrorLaws
pub mod Deliveries
