-- ===== src/Consumer/Rebalance.antt =====
-- The default `ConsumerContext::rebalance` and `NativeClient::rebalance_protocol`.
use rust_rdkafka.Prelude.{
  ◌≡◌, ◌↔◌, refl, String, Bool, true, false, Option, none, some, List, [], ◌∷◌, str_eq,
  if◌then◌else◌, arith,
}
use rust_rdkafka.Codes.RespErr.{RespErr}
use rust_rdkafka.Codes.Convert.{to_error_code}
use rust_rdkafka.Error.Defs.{KafkaError, rebalance}
use rust_rdkafka.TopicPartitionList.Native.{Tpl}

pub data RebalanceProtocol : Type 0 where
  no_protocol eager cooperative : RebalanceProtocol

-- Of the name that `rd_kafka_rebalance_protocol` returns; `none` is the panic of `unreachable!`.
unfoldable pub rebalance_protocol : Option String → Option RebalanceProtocol
rebalance_protocol none = some no_protocol
rebalance_protocol (some protocol) =
    if str_eq protocol "NONE"
    then some no_protocol
    else if str_eq protocol "EAGER"
    then some eager
    else if str_eq protocol "COOPERATIVE"
    then some cooperative
    else none

-- `Rebalance`.
pub data Kind : Type 0 where
  assigned revoked : Tpl → Kind
  failed : KafkaError → Kind

-- What a rebalance does, in order: the callbacks and librdkafka's functions. `assign` of `none` is
-- that of the null pointer.
pub data Action : Type 0 where
  pre_rebalance post_rebalance : Kind → Action
  incremental_assign incremental_unassign : Tpl → Action
  assign : Option Tpl → Action

unfoldable pub kind_of : RespErr → Tpl → Kind
kind_of RespErr.assign_partitions tpl = assigned tpl
kind_of RespErr.revoke_partitions tpl = revoked tpl
kind_of e tpl = failed (rebalance (to_error_code e))

unfoldable pub execute : RebalanceProtocol → RespErr → Tpl → Action
execute cooperative RespErr.assign_partitions tpl = incremental_assign tpl
execute _ RespErr.assign_partitions tpl = assign (some tpl)
execute cooperative e tpl = incremental_unassign tpl
execute _ e tpl = assign none

unfoldable pub run : RebalanceProtocol → RespErr → Tpl → List Action
unfolding kind_of execute
run protocol e tpl =
    pre_rebalance (kind_of e tpl) ∷ execute protocol e tpl ∷ post_rebalance (kind_of e tpl) ∷ []

-- Whether an action gives partitions to the consumer, and whether it leaves those it has alone.
abbrev pub gives : Action → Bool
gives (incremental_assign t) = true
gives (assign (some t)) = true
gives _ = false

abbrev pub is_incremental : Action → Bool
is_incremental (incremental_assign t) = true
is_incremental (incremental_unassign t) = true
is_incremental _ = false

-- A rebalance makes one call of librdkafka between its two callbacks, which are told the same. The
-- call gives partitions exactly when the event assigns them, so that a revocation and an error both
-- take them away; and it is incremental exactly under the cooperative protocol.
pub run-one_call :
    (protocol : RebalanceProtocol) (e : RespErr) (tpl : Tpl)
    → (k : Kind) × (a : Action) × (run protocol e tpl ≡ pre_rebalance k ∷ a ∷ post_rebalance k ∷ [])
      × ((gives a ≡ true) ↔ (e ≡ RespErr.assign_partitions))
      × ((is_incremental a ≡ true) ↔ (protocol ≡ cooperative))
unfolding run execute
run-one_call protocol e tpl =
    (kind_of e tpl, execute protocol e tpl, refl, ground arith, ground arith)
