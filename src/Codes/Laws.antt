-- ===== src/Codes/Laws.antt =====
-- The conversion of codes loses nothing, and the description of a code is always librdkafka's.
use rust_rdkafka.Prelude.{◌≡◌, refl, some}
use rust_rdkafka.Codes.RespErr
use rust_rdkafka.Codes.RespErr.{RespErr}
use rust_rdkafka.Codes.ErrorCode
use rust_rdkafka.Codes.ErrorCode.{ErrorCode}
use rust_rdkafka.Codes.Convert.{to_error_code, native, description}

-- The converted code has the number of the code that librdkafka gave, for every code.
pub value-to_error_code : (e : RespErr) → ErrorCode.value (to_error_code e) ≡ RespErr.value e
unfolding ErrorCode.value to_error_code RespErr.value
value-to_error_code RespErr.begin = refl
value-to_error_code _ = refl

try_from-value : (e : RespErr) → RespErr.try_from (RespErr.value e) ≡ some e
unfolding RespErr.value RespErr.try_from
try_from-value RespErr.begin = refl
try_from-value _ = refl

-- Two codes of librdkafka that become the same `RDKafkaErrorCode` are the same code.
pub to_error_code_injective : (a b : RespErr) → to_error_code a ≡ to_error_code b → a ≡ b
to_error_code_injective a b h =
    cc (h, value-to_error_code a, value-to_error_code b, try_from-value a, try_from-value b)

-- The text of every code is librdkafka's for the code that converts to it: the "Unknown error"
-- branch of `Display` is never taken.
pub description_total :
    (c : ErrorCode) → (e : RespErr) × (description c ≡ native e) × (to_error_code e ≡ c)
unfolding description ErrorCode.value RespErr.try_from to_error_code
description_total ErrorCode.begin = (RespErr.begin, refl, refl)
description_total ErrorCode.bad_message = (RespErr.bad_msg, refl, refl)
description_total ErrorCode.bad_compression = (RespErr.bad_compression, refl, refl)
description_total ErrorCode.broker_destroy = (RespErr.destroy, refl, refl)
description_total ErrorCode.fail = (RespErr.fail, refl, refl)
description_total ErrorCode.broker_transport_failure = (RespErr.transport, refl, refl)
description_total ErrorCode.critical_system_resource = (RespErr.crit_sys_resource, refl, refl)
description_total ErrorCode.resolve = (RespErr.resolve, refl, refl)
description_total ErrorCode.message_timed_out = (RespErr.msg_timed_out, refl, refl)
description_total ErrorCode.partition_eof = (RespErr.partition_eof, refl, refl)
description_total ErrorCode.unknown_partition = (RespErr.unknown_partition, refl, refl)
description_total ErrorCode.file_system = (RespErr.fs, refl, refl)
description_total ErrorCode.unknown_topic = (RespErr.unknown_topic, refl, refl)
description_total ErrorCode.all_brokers_down = (RespErr.all_brokers_down, refl, refl)
description_total ErrorCode.invalid_argument = (RespErr.invalid_arg, refl, refl)
description_total ErrorCode.operation_timed_out = (RespErr.timed_out, refl, refl)
description_total ErrorCode.queue_full = (RespErr.queue_full, refl, refl)
description_total ErrorCode.isr_insufficient = (RespErr.isr_insuff, refl, refl)
description_total ErrorCode.node_update = (RespErr.node_update, refl, refl)
description_total ErrorCode.ssl = (RespErr.ssl, refl, refl)
description_total ErrorCode.waiting_for_coordinator = (RespErr.wait_coord, refl, refl)
description_total ErrorCode.unknown_group = (RespErr.unknown_group, refl, refl)
description_total ErrorCode.in_progress = (RespErr.in_progress, refl, refl)
description_total ErrorCode.previous_in_progress = (RespErr.prev_in_progress, refl, refl)
description_total ErrorCode.existing_subscription = (RespErr.existing_subscription, refl, refl)
description_total ErrorCode.assign_partitions = (RespErr.assign_partitions, refl, refl)
description_total ErrorCode.revoke_partitions = (RespErr.revoke_partitions, refl, refl)
description_total ErrorCode.conflict = (RespErr.conflict, refl, refl)
description_total ErrorCode.state = (RespErr.state, refl, refl)
description_total ErrorCode.unknown_protocol = (RespErr.unknown_protocol, refl, refl)
description_total ErrorCode.not_implemented = (RespErr.not_implemented, refl, refl)
description_total ErrorCode.authentication = (RespErr.authentication, refl, refl)
description_total ErrorCode.no_offset = (RespErr.no_offset, refl, refl)
description_total ErrorCode.outdated = (RespErr.outdated, refl, refl)
description_total ErrorCode.timed_out_queue = (RespErr.timed_out_queue, refl, refl)
description_total ErrorCode.unsupported_feature = (RespErr.unsupported_feature, refl, refl)
description_total ErrorCode.wait_cache = (RespErr.wait_cache, refl, refl)
description_total ErrorCode.interrupted = (RespErr.intr, refl, refl)
description_total ErrorCode.key_serialization = (RespErr.key_serialization, refl, refl)
description_total ErrorCode.value_serialization = (RespErr.value_serialization, refl, refl)
description_total ErrorCode.key_deserialization = (RespErr.key_deserialization, refl, refl)
description_total ErrorCode.value_deserialization = (RespErr.value_deserialization, refl, refl)
description_total ErrorCode.partial = (RespErr.partial, refl, refl)
description_total ErrorCode.read_only = (RespErr.read_only, refl, refl)
description_total ErrorCode.no_ent = (RespErr.noent, refl, refl)
description_total ErrorCode.underflow = (RespErr.underflow, refl, refl)
description_total ErrorCode.invalid_type = (RespErr.invalid_type, refl, refl)
description_total ErrorCode.retry = (RespErr.retry, refl, refl)
description_total ErrorCode.purge_queue = (RespErr.purge_queue, refl, refl)
description_total ErrorCode.purge_inflight = (RespErr.purge_inflight, refl, refl)
description_total ErrorCode.fatal = (RespErr.fatal, refl, refl)
description_total ErrorCode.inconsistent = (RespErr.inconsistent, refl, refl)
description_total ErrorCode.gapless_guarantee = (RespErr.gapless_guarantee, refl, refl)
description_total ErrorCode.poll_exceeded = (RespErr.max_poll_exceeded, refl, refl)
description_total ErrorCode.unknown_broker = (RespErr.unknown_broker, refl, refl)
description_total ErrorCode.not_configured = (RespErr.not_configured, refl, refl)
description_total ErrorCode.fenced = (RespErr.fenced, refl, refl)
description_total ErrorCode.application = (RespErr.application, refl, refl)
description_total ErrorCode.assignment_lost = (RespErr.assignment_lost, refl, refl)
description_total ErrorCode.noop = (RespErr.noop, refl, refl)
description_total ErrorCode.auto_offset_reset = (RespErr.auto_offset_reset, refl, refl)
description_total ErrorCode.end = (RespErr.end, refl, refl)
description_total ErrorCode.unknown = (RespErr.unknown, refl, refl)
description_total ErrorCode.no_error = (RespErr.no_error, refl, refl)
description_total ErrorCode.offset_out_of_range = (RespErr.offset_out_of_range, refl, refl)
description_total ErrorCode.invalid_message = (RespErr.invalid_msg, refl, refl)
description_total ErrorCode.unknown_topic_or_partition = (RespErr.unknown_topic_or_part, refl, refl)
description_total ErrorCode.invalid_message_size = (RespErr.invalid_msg_size, refl, refl)
description_total ErrorCode.leader_not_available = (RespErr.leader_not_available, refl, refl)
description_total ErrorCode.not_leader_for_partition =
    (RespErr.not_leader_for_partition, refl, refl)
description_total ErrorCode.request_timed_out = (RespErr.request_timed_out, refl, refl)
description_total ErrorCode.broker_not_available = (RespErr.broker_not_available, refl, refl)
description_total ErrorCode.replica_not_available = (RespErr.replica_not_available, refl, refl)
description_total ErrorCode.message_size_too_large = (RespErr.msg_size_too_large, refl, refl)
description_total ErrorCode.stale_controller_epoch = (RespErr.stale_ctrl_epoch, refl, refl)
description_total ErrorCode.offset_metadata_too_large =
    (RespErr.offset_metadata_too_large, refl, refl)
description_total ErrorCode.network_exception = (RespErr.network_exception, refl, refl)
description_total ErrorCode.coordinator_load_in_progress =
    (RespErr.coordinator_load_in_progress, refl, refl)
description_total ErrorCode.coordinator_not_available =
    (RespErr.coordinator_not_available, refl, refl)
description_total ErrorCode.not_coordinator = (RespErr.not_coordinator, refl, refl)
description_total ErrorCode.invalid_topic = (RespErr.topic_exception, refl, refl)
description_total ErrorCode.message_batch_too_large = (RespErr.record_list_too_large, refl, refl)
description_total ErrorCode.not_enough_replicas = (RespErr.not_enough_replicas, refl, refl)
description_total ErrorCode.not_enough_replicas_after_append =
    (RespErr.not_enough_replicas_after_append, refl, refl)
description_total ErrorCode.invalid_required_acks = (RespErr.invalid_required_acks, refl, refl)
description_total ErrorCode.illegal_generation = (RespErr.illegal_generation, refl, refl)
description_total ErrorCode.inconsistent_group_protocol =
    (RespErr.inconsistent_group_protocol, refl, refl)
description_total ErrorCode.invalid_group_id = (RespErr.invalid_group_id, refl, refl)
description_total ErrorCode.unknown_member_id = (RespErr.unknown_member_id, refl, refl)
description_total ErrorCode.invalid_session_timeout = (RespErr.invalid_session_timeout, refl, refl)
description_total ErrorCode.rebalance_in_progress = (RespErr.rebalance_in_progress, refl, refl)
description_total ErrorCode.invalid_commit_offset_size =
    (RespErr.invalid_commit_offset_size, refl, refl)
description_total ErrorCode.topic_authorization_failed =
    (RespErr.topic_authorization_failed, refl, refl)
description_total ErrorCode.group_authorization_failed =
    (RespErr.group_authorization_failed, refl, refl)
description_total ErrorCode.cluster_authorization_failed =
    (RespErr.cluster_authorization_failed, refl, refl)
description_total ErrorCode.invalid_timestamp = (RespErr.invalid_timestamp, refl, refl)
description_total ErrorCode.unsupported_sasl_mechanism =
    (RespErr.unsupported_sasl_mechanism, refl, refl)
description_total ErrorCode.illegal_sasl_state = (RespErr.illegal_sasl_state, refl, refl)
description_total ErrorCode.unsupported_version = (RespErr.unsupported_version, refl, refl)
description_total ErrorCode.topic_already_exists = (RespErr.topic_already_exists, refl, refl)
description_total ErrorCode.invalid_partitions = (RespErr.invalid_partitions, refl, refl)
description_total ErrorCode.invalid_replication_factor =
    (RespErr.invalid_replication_factor, refl, refl)
description_total ErrorCode.invalid_replica_assignment =
    (RespErr.invalid_replica_assignment, refl, refl)
description_total ErrorCode.invalid_config = (RespErr.invalid_config, refl, refl)
description_total ErrorCode.not_controller = (RespErr.not_controller, refl, refl)
description_total ErrorCode.invalid_request = (RespErr.invalid_request, refl, refl)
description_total ErrorCode.unsupported_for_message_format =
    (RespErr.unsupported_for_message_format, refl, refl)
description_total ErrorCode.policy_violation = (RespErr.policy_violation, refl, refl)
description_total ErrorCode.out_of_order_sequence_number =
    (RespErr.out_of_order_sequence_number, refl, refl)
description_total ErrorCode.duplicate_sequence_number =
    (RespErr.duplicate_sequence_number, refl, refl)
description_total ErrorCode.invalid_producer_epoch = (RespErr.invalid_producer_epoch, refl, refl)
description_total ErrorCode.invalid_transactional_state = (RespErr.invalid_txn_state, refl, refl)
description_total ErrorCode.invalid_producer_id_mapping =
    (RespErr.invalid_producer_id_mapping, refl, refl)
description_total ErrorCode.invalid_transaction_timeout =
    (RespErr.invalid_transaction_timeout, refl, refl)
description_total ErrorCode.concurrent_transactions = (RespErr.concurrent_transactions, refl, refl)
description_total ErrorCode.transaction_coordinator_fenced =
    (RespErr.transaction_coordinator_fenced, refl, refl)
description_total ErrorCode.transactional_id_authorization_failed =
    (RespErr.transactional_id_authorization_failed, refl, refl)
description_total ErrorCode.security_disabled = (RespErr.security_disabled, refl, refl)
description_total ErrorCode.operation_not_attempted = (RespErr.operation_not_attempted, refl, refl)
description_total ErrorCode.kafka_storage_error = (RespErr.kafka_storage_error, refl, refl)
description_total ErrorCode.log_dir_not_found = (RespErr.log_dir_not_found, refl, refl)
description_total ErrorCode.sasl_authentication_failed =
    (RespErr.sasl_authentication_failed, refl, refl)
description_total ErrorCode.unknown_producer_id = (RespErr.unknown_producer_id, refl, refl)
description_total ErrorCode.reassignment_in_progress =
    (RespErr.reassignment_in_progress, refl, refl)
description_total ErrorCode.delegation_token_auth_disabled =
    (RespErr.delegation_token_auth_disabled, refl, refl)
description_total ErrorCode.delegation_token_not_found =
    (RespErr.delegation_token_not_found, refl, refl)
description_total ErrorCode.delegation_token_owner_mismatch =
    (RespErr.delegation_token_owner_mismatch, refl, refl)
description_total ErrorCode.delegation_token_request_not_allowed =
    (RespErr.delegation_token_request_not_allowed, refl, refl)
description_total ErrorCode.delegation_token_authorization_failed =
    (RespErr.delegation_token_authorization_failed, refl, refl)
description_total ErrorCode.delegation_token_expired =
    (RespErr.delegation_token_expired, refl, refl)
description_total ErrorCode.invalid_principal_type = (RespErr.invalid_principal_type, refl, refl)
description_total ErrorCode.non_empty_group = (RespErr.non_empty_group, refl, refl)
description_total ErrorCode.group_id_not_found = (RespErr.group_id_not_found, refl, refl)
description_total ErrorCode.fetch_session_id_not_found =
    (RespErr.fetch_session_id_not_found, refl, refl)
description_total ErrorCode.invalid_fetch_session_epoch =
    (RespErr.invalid_fetch_session_epoch, refl, refl)
description_total ErrorCode.listener_not_found = (RespErr.listener_not_found, refl, refl)
description_total ErrorCode.topic_deletion_disabled = (RespErr.topic_deletion_disabled, refl, refl)
description_total ErrorCode.fenced_leader_epoch = (RespErr.fenced_leader_epoch, refl, refl)
description_total ErrorCode.unknown_leader_epoch = (RespErr.unknown_leader_epoch, refl, refl)
description_total ErrorCode.unsupported_compression_type =
    (RespErr.unsupported_compression_type, refl, refl)
description_total ErrorCode.stale_broker_epoch = (RespErr.stale_broker_epoch, refl, refl)
description_total ErrorCode.offset_not_available = (RespErr.offset_not_available, refl, refl)
description_total ErrorCode.member_id_required = (RespErr.member_id_required, refl, refl)
description_total ErrorCode.preferred_leader_not_available =
    (RespErr.preferred_leader_not_available, refl, refl)
description_total ErrorCode.group_max_size_reached = (RespErr.group_max_size_reached, refl, refl)
description_total ErrorCode.fenced_instance_id = (RespErr.fenced_instance_id, refl, refl)
description_total ErrorCode.eligible_leaders_not_available =
    (RespErr.eligible_leaders_not_available, refl, refl)
description_total ErrorCode.election_not_needed = (RespErr.election_not_needed, refl, refl)
description_total ErrorCode.no_reassignment_in_progress =
    (RespErr.no_reassignment_in_progress, refl, refl)
description_total ErrorCode.group_subscribed_to_topic =
    (RespErr.group_subscribed_to_topic, refl, refl)
description_total ErrorCode.invalid_record = (RespErr.invalid_record, refl, refl)
description_total ErrorCode.unstable_offset_commit = (RespErr.unstable_offset_commit, refl, refl)
description_total ErrorCode.throttling_quota_exceeded =
    (RespErr.throttling_quota_exceeded, refl, refl)
description_total ErrorCode.producer_fenced = (RespErr.producer_fenced, refl, refl)
description_total ErrorCode.resource_not_found = (RespErr.resource_not_found, refl, refl)
description_total ErrorCode.duplicate_resource = (RespErr.duplicate_resource, refl, refl)
description_total ErrorCode.unacceptable_credential = (RespErr.unacceptable_credential, refl, refl)
description_total ErrorCode.inconsistent_voter_set = (RespErr.inconsistent_voter_set, refl, refl)
description_total ErrorCode.invalid_update_version = (RespErr.invalid_update_version, refl, refl)
description_total ErrorCode.feature_update_failed = (RespErr.feature_update_failed, refl, refl)
description_total ErrorCode.principal_deserialization_failure =
    (RespErr.principal_deserialization_failure, refl, refl)
description_total ErrorCode.end_all = (RespErr.end_all, refl, refl)
description_total ErrorCode.log_truncation = (RespErr.log_truncation, refl, refl)
description_total ErrorCode.invalid_different_record =
    (RespErr.invalid_different_record, refl, refl)
description_total ErrorCode.destroy_broker = (RespErr.destroy_broker, refl, refl)
description_total ErrorCode.unknown_topic_id = (RespErr.unknown_topic_id, refl, refl)
description_total ErrorCode.fenced_member_epoch = (RespErr.fenced_member_epoch, refl, refl)
description_total ErrorCode.unreleased_instance_id = (RespErr.unreleased_instance_id, refl, refl)
description_total ErrorCode.unsupported_assignor = (RespErr.unsupported_assignor, refl, refl)
description_total ErrorCode.stale_member_epoch = (RespErr.stale_member_epoch, refl, refl)
description_total ErrorCode.unknown_subscription_id = (RespErr.unknown_subscription_id, refl, refl)
description_total ErrorCode.telemetry_too_large = (RespErr.telemetry_too_large, refl, refl)
description_total ErrorCode.rebootstrap_required = (RespErr.rebootstrap_required, refl, refl)
