-- ===== src/Lib.antt =====
-- rust-rdkafka: a Rust client of Kafka over the C library librdkafka. The crate translates between
-- Rust values and librdkafka's functions, polls librdkafka's event queues and calls the user's
-- contexts, and retries and waits on behalf of the user.
--
-- Parts, files, and the source from the repository's root:
-- - Prelude: the shared names, integers i32 and i64 over the natural numbers, lists, tests.
-- - Codes: RDKafkaRespErr (rdkafka-sys/src/bindings.rs), RDKafkaErrorCode and its Display
--   (rdkafka-sys/src/types.rs), the conversion between them (rdkafka-sys/src/helpers.rs).
-- - Util, ErrBuf: Timeout, Deadline and ErrBuf of src/util.rs.
-- - Error: KafkaError, its texts and its codes (src/error.rs). Error.Defs has the Result type that all
--   parts use.
-- - TopicPartitionList: src/topic_partition_list.rs. Offset is the type and its integer form, Elem an
--   entry, Tpl the list's methods over librdkafka's functions, which are the record Native.
-- - Message: src/message.rs. Headers are over a record of librdkafka's header functions.
-- - Client: ClientConfig and NativeClientConfig of src/config.rs (Config, NativeConfig);
--   EventPollResult, poll_event and the handlers of src/client.rs (Events), its creation, the token
--   refresh and what it fetches (Calls).
-- - Consumer: src/consumer/base_consumer.rs (Poll is poll_queue, Calls are the methods that map an
--   answer of librdkafka, Lifecycle the creation, the iterator and the drop, Interface the trait Consumer
--   with a law and its implementations), the default rebalance of src/consumer/mod.rs (Rebalance), and
--   src/consumer/stream_consumer.rs (Stream).
-- - Producer: records, send and the retries of src/producer/base_producer.rs and future_producer.rs
--   (Record, Send), poll, flush and transactions (Poll), creation (Creation), the futures (Deliveries),
--   the purge flags of src/producer/mod.rs (Purge), ThreadedProducer with its thread (Threaded), and the
--   heap of boxed opaques with send and the delivery reports (Boxes); the trait Producer with its laws
--   and its three implementations (Interface).
-- - Admin: src/admin.rs. Requests and Building are what is checked and built before a call of
--   librdkafka, Results and Futures what is made of its answers; Futures has the polling thread.
-- - Statistics: the structs of src/statistics.rs and the callback that parses them.
-- - Cluster: the accessors of src/groups.rs and src/metadata.rs.
-- - Mocking: MockCluster of src/mocking.rs: the calls of its methods (Defs), and how long the objects of
--   librdkafka live (Session), with the client that new makes and that a refused log queue leaves.
-- - Examples: the theorems at concrete values, and the parameters by concrete functions.
--
-- A consumer or a producer polls a queue of the client: Client.Events.poll_event handles what is for
-- the client and hands the rest on to Consumer.Poll.turn or Producer.Poll.serve. What librdkafka and
-- the clock answer is an input: a list of answers for a loop, a value or a function for a call. A loop
-- over a list of answers gives none when the list ends before the loop does, so a list that is long
-- enough is one at which it gives a result; the theorems of termination say which lists are. Fuel
-- stands in Message.Headers.iterate, where one step more than there are headers is enough, and in
-- Consumer.Lifecycle.next, a unit for a turn of its loop. The user's callbacks are values in a list, in
-- the order in which they are made. A panic is none, also that of a deadline past the last instant,
-- which is the one of Unix, 2^63 seconds.
--
-- Producer.Threaded is the state that the clones of a threaded producer share with its thread; its
-- actions are the accesses of that state, in any order. A reference count is that of the Arc.
--
-- Consumer.Stream takes poll_next apart into its accesses of the queue and of the wakers, and lets
-- librdkafka, the background task and the other streams of the consumer step between any two of them.
-- The slab of wakers is a parameter with the laws of its documentation.
--
-- Producer.Boxes makes explicit which opaques are raw pointers: into_ptr puts a box on the heap at an
-- address that is free, from_ptr takes it off and fails if it is not there. librdkafka reports on a
-- message of its queue once, in any order.
--
-- Not modelled: the parser that serde derives for the statistics; the runtimes; memory management
-- other than that of the opaques and the mock clusters; callbacks that a user sets on a queue;
-- StreamPartitionQueue; and contexts that only hand a callback on to another one. Names and
-- header keys of librdkafka are UTF-8 in the model: the accessors panic on one that is not.
pub mod Prelude
pub mod Codes
pub mod Util
pub mod ErrBuf
pub mod Error
pub mod TopicPartitionList
pub mod Message
pub mod Client
pub mod Consumer
pub mod Producer
pub mod Admin
pub mod Cluster
pub mod Statistics
pub mod Mocking
pub mod Examples
