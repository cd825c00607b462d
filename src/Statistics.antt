-- ===== src/Statistics.antt =====
-- statistics.rs: what librdkafka's statistics are parsed into, and the default callback of client.rs
-- that parses them. A `HashMap` is a list of its entries; the parsing that serde derives is a parameter.
use rust_rdkafka.Prelude.{ℕ, ℤ, String, Bool, Option, none, some, List}
use rust_rdkafka.Error.Defs.{Result, ok, err}

pub record Window : Type 0 where
  pub min : ℤ
  pub max : ℤ
  pub avg : ℤ
  pub sum : ℤ
  pub cnt : ℤ
  pub stddev : ℤ
  pub hdrsize : ℤ
  pub p50 : ℤ
  pub p75 : ℤ
  pub p90 : ℤ
  pub p95 : ℤ
  pub p99 : ℤ
  pub p99_99 : ℤ
  pub outofrange : ℤ

pub record TopicPartition : Type 0 where
  pub topic : String
  pub partition : ℤ

pub record Broker : Type 0 where
  pub name : String
  pub nodeid : ℤ
  pub nodename : String
  pub source : String
  pub state : String
  pub stateage : ℤ
  pub outbuf_cnt : ℤ
  pub outbuf_msg_cnt : ℤ
  pub waitresp_cnt : ℤ
  pub waitresp_msg_cnt : ℤ
  pub tx : ℕ
  pub txbytes : ℕ
  pub txerrs : ℕ
  pub txretries : ℕ
  pub txidle : ℤ
  pub req_timeouts : ℕ
  pub rx : ℕ
  pub rxbytes : ℕ
  pub rxerrs : ℕ
  pub rxcorriderrs : ℕ
  pub rxpartial : ℕ
  pub rxidle : ℤ
  pub req : List (String × ℤ)
  pub zbuf_grow : ℕ
  pub buf_grow : ℕ
  pub wakeups : Option ℕ
  pub connects : Option ℤ
  pub disconnects : Option ℤ
  pub int_latency : Option Window
  pub outbuf_latency : Option Window
  pub rtt : Option Window
  pub throttle : Option Window
  pub toppars : List (String × TopicPartition)

pub record Partition : Type 0 where
  pub partition : ℤ
  pub broker : ℤ
  pub leader : ℤ
  pub desired : Bool
  pub unknown : Bool
  pub msgq_cnt : ℤ
  pub msgq_bytes : ℕ
  pub xmit_msgq_cnt : ℤ
  pub xmit_msgq_bytes : ℕ
  pub fetchq_cnt : ℤ
  pub fetchq_size : ℕ
  pub fetch_state : String
  pub query_offset : ℤ
  pub next_offset : ℤ
  pub app_offset : ℤ
  pub stored_offset : ℤ
  pub committed_offset : ℤ
  pub eof_offset : ℤ
  pub lo_offset : ℤ
  pub hi_offset : ℤ
  pub ls_offset : ℤ
  pub consumer_lag : ℤ
  pub consumer_lag_stored : ℤ
  pub txmsgs : ℕ
  pub txbytes : ℕ
  pub rxmsgs : ℕ
  pub rxbytes : ℕ
  pub msgs : ℕ
  pub rx_ver_drops : ℕ
  pub msgs_inflight : ℤ
  pub next_ack_seq : ℤ
  pub next_err_seq : ℤ
  pub acked_msgid : ℕ

pub record Topic : Type 0 where
  pub topic : String
  pub metadata_age : ℤ
  pub batchsize : Window
  pub batchcnt : Window
  pub partitions : List (ℤ × Partition)

pub record ConsumerGroup : Type 0 where
  pub state : String
  pub stateage : ℤ
  pub join_state : String
  pub rebalance_age : ℤ
  pub rebalance_cnt : ℤ
  pub rebalance_reason : String
  pub assignment_size : ℤ

pub record ExactlyOnceSemantics : Type 0 where
  pub idemp_state : String
  pub idemp_stateage : ℤ
  pub txn_state : String
  pub txn_stateage : ℤ
  pub txn_may_enq : Bool
  pub producer_id : ℤ
  pub producer_epoch : ℤ
  pub epoch_cnt : ℤ

pub record Statistics : Type 0 where
  pub name : String
  pub client_id : String
  pub client_type : String
  pub ts : ℤ
  pub time : ℤ
  pub age : ℤ
  pub replyq : ℤ
  pub msg_cnt : ℕ
  pub msg_size : ℕ
  pub msg_max : ℕ
  pub msg_size_max : ℕ
  pub tx : ℤ
  pub tx_bytes : ℤ
  pub rx : ℤ
  pub rx_bytes : ℤ
  pub txmsgs : ℤ
  pub txmsg_bytes : ℤ
  pub rxmsgs : ℤ
  pub rxmsg_bytes : ℤ
  pub simple_cnt : ℤ
  pub metadata_cache_cnt : ℤ
  pub brokers : List (String × Broker)
  pub topics : List (String × Topic)
  pub cgrp : Option ConsumerGroup
  pub eos : Option ExactlyOnceSemantics

-- `ClientContext::stats_raw`: what `stats` is called with; a text that is not parsed is only logged.
unfoldable pub stats_raw :
    {E : Type 0} → (List ℕ → Result E Statistics) → List ℕ → Option Statistics
stats_raw from_slice statistics = elim (from_slice statistics) [
  | ok stats ↦ some stats
  | err e ↦ none
]
