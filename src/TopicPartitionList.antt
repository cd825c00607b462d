-- ===== src/TopicPartitionList.antt =====
-- topic_partition_list.rs: offsets (`Offset`), the entries of a list (`Elem`), the calls of
-- librdkafka on its lists (`Native`), the list (`Tpl`) and what holds of them.
pub mod Offset
pub mod OffsetLaws
pub mod Elem
pub mod Native
pub mod Tpl
pub mod Keys
pub mod Update
pub mod RoundTrip
pub mod Equality
pub mod Entries
pub mod MapView
pub mod Collect
