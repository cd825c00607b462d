-- ===== src/Codes/Convert.antt =====
-- `rd_kafka_resp_err_t_to_rdkafka_error` of rdkafka-sys/src/helpers.rs, which
-- `From<RDKafkaRespErr> for RDKafkaErrorCode` of types.rs calls.
use rust_rdkafka.Prelude.{some, none}
use rust_rdkafka.Codes.RespErr
use rust_rdkafka.Codes.RespErr.{RespErr}
use rust_rdkafka.Codes.ErrorCode
use rust_rdkafka.Codes.ErrorCode.{ErrorCode}

unfoldable pub to_error_code : RespErr → ErrorCode
to_error_code RespErr.begin = ErrorCode.begin
to_error_code RespErr.bad_msg = ErrorCode.bad_message
to_error_code RespErr.bad_compression = ErrorCode.bad_compression
to_error_code RespErr.destroy = ErrorCode.broker_destroy
to_error_code RespErr.fail = ErrorCode.fail
to_error_code RespErr.transport = ErrorCode.broker_transport_failure
to_error_code RespErr.crit_sys_resource = ErrorCode.critical_system_resource
to_error_code RespErr.resolve = ErrorCode.resolve
to_error_code RespErr.msg_timed_out = ErrorCode.message_timed_out
to_error_code RespErr.partition_eof = ErrorCode.partition_eof
to_error_code RespErr.unknown_partition = ErrorCode.unknown_partition
to_error_code RespErr.fs = ErrorCode.file_system
to_error_code RespErr.unknown_topic = ErrorCode.unknown_topic
to_error_code RespErr.all_brokers_down = ErrorCode.all_brokers_down
to_error_code RespErr.invalid_arg = ErrorCode.invalid_argument
to_error_code RespErr.timed_out = ErrorCode.operation_timed_out
to_error_code RespErr.queue_full = ErrorCode.queue_full
to_error_code RespErr.isr_insuff = ErrorCode.isr_insufficient
to_error_code RespErr.node_update = ErrorCode.node_update
to_error_code RespErr.ssl = ErrorCode.ssl
to_error_code RespErr.wait_coord = ErrorCode.waiting_for_coordinator
to_error_code RespErr.unknown_group = ErrorCode.unknown_group
to_error_code RespErr.in_progress = ErrorCode.in_progress
to_error_code RespErr.prev_in_progress = ErrorCode.previous_in_progress
to_error_code RespErr.existing_subscription = ErrorCode.existing_subscription
to_error_code RespErr.assign_partitions = ErrorCode.assign_partitions
to_error_code RespErr.revoke_partitions = ErrorCode.revoke_partitions
to_error_code RespErr.conflict = ErrorCode.conflict
to_error_code RespErr.state = ErrorCode.state
to_error_code RespErr.unknown_protocol = ErrorCode.unknown_protocol
to_error_code RespErr.not_implemented = ErrorCode.not_implemented
to_error_code RespErr.authentication = ErrorCode.authentication
to_error_code RespErr.no_offset = ErrorCode.no_offset
to_error_code RespErr.outdated = ErrorCode.outdated
to_error_code RespErr.timed_out_queue = ErrorCode.timed_out_queue
to_error_code RespErr.unsupported_feature = ErrorCode.unsupported_feature
to_error_code RespErr.wait_cache = ErrorCode.wait_cache
to_error_code RespErr.intr = ErrorCode.interrupted
to_error_code RespErr.key_serialization = ErrorCode.key_serialization
to_error_code RespErr.value_serialization = ErrorCode.value_serialization
to_error_code RespErr.key_deserialization = ErrorCode.key_deserialization
to_error_code RespErr.value_deserialization = ErrorCode.value_deserialization
to_error_code RespErr.partial = ErrorCode.partial
to_error_code RespErr.read_only = ErrorCode.read_only
to_error_code RespErr.noent = ErrorCode.no_ent
to_error_code RespErr.underflow = ErrorCode.underflow
to_error_code RespErr.invalid_type = ErrorCode.invalid_type
to_error_code RespErr.retry = ErrorCode.retry
to_error_code RespErr.purge_queue = ErrorCode.purge_queue
to_error_code RespErr.purge_inflight = ErrorCode.purge_inflight
to_error_code RespErr.fatal = ErrorCode.fatal
to_error_code RespErr.inconsistent = ErrorCode.inconsistent
to_error_code RespErr.gapless_guarantee = ErrorCode.gapless_guarantee
to_error_code RespErr.max_poll_exceeded = ErrorCode.poll_exceeded
to_error_code RespErr.unknown_broker = ErrorCode.unknown_broker
to_error_code RespErr.not_configured = ErrorCode.not_configured
to_error_code RespErr.fenced = ErrorCode.fenced
to_error_code RespErr.application = ErrorCode.application
to_error_code RespErr.assignment_lost = ErrorCode.assignment_lost
to_error_code RespErr.noop = ErrorCode.noop
to_error_code RespErr.auto_offset_reset = ErrorCode.auto_offset_reset
to_error_code RespErr.end = ErrorCode.end
to_error_code RespErr.unknown = ErrorCode.unknown
to_error_code RespErr.no_error = ErrorCode.no_error
to_error_code RespErr.offset_out_of_range = ErrorCode.offset_out_of_range
to_error_code RespErr.invalid_msg = ErrorCode.invalid_message
to_error_code RespErr.unknown_topic_or_part = ErrorCode.unknown_topic_or_partition
to_error_code RespErr.invalid_msg_size = ErrorCode.invalid_message_size
to_error_code RespErr.leader_not_available = ErrorCode.leader_not_available
to_error_code RespErr.not_leader_for_partition = ErrorCode.not_leader_for_partition
to_error_code RespErr.request_timed_out = ErrorCode.request_timed_out
to_error_code RespErr.broker_not_available = ErrorCode.broker_not_available
to_error_code RespErr.replica_not_available = ErrorCode.replica_not_available
to_error_code RespErr.msg_size_too_large = ErrorCode.message_size_too_large
to_error_code RespErr.stale_ctrl_epoch = ErrorCode.stale_controller_epoch
to_error_code RespErr.offset_metadata_too_large = ErrorCode.offset_metadata_too_large
to_error_code RespErr.network_exception = ErrorCode.network_exception
to_error_code RespErr.coordinator_load_in_progress = ErrorCode.coordinator_load_in_progress
to_error_code RespErr.coordinator_not_available = ErrorCode.coordinator_not_available
to_error_code RespErr.not_coordinator = ErrorCode.not_coordinator
to_error_code RespErr.topic_exception = ErrorCode.invalid_topic
to_error_code RespErr.record_list_too_large = ErrorCode.message_batch_too_large
to_error_code RespErr.not_enough_replicas = ErrorCode.not_enough_replicas
to_error_code RespErr.not_enough_replicas_after_append = ErrorCode.not_enough_replicas_after_append
to_error_code RespErr.invalid_required_acks = ErrorCode.invalid_required_acks
to_error_code RespErr.illegal_generation = ErrorCode.illegal_generation
to_error_code RespErr.inconsistent_group_protocol = ErrorCode.inconsistent_group_protocol
to_error_code RespErr.invalid_group_id = ErrorCode.invalid_group_id
to_error_code RespErr.unknown_member_id = ErrorCode.unknown_member_id
to_error_code RespErr.invalid_session_timeout = ErrorCode.invalid_session_timeout
to_error_code RespErr.rebalance_in_progress = ErrorCode.rebalance_in_progress
to_error_code RespErr.invalid_commit_offset_size = ErrorCode.invalid_commit_offset_size
to_error_code RespErr.topic_authorization_failed = ErrorCode.topic_authorization_failed
to_error_code RespErr.group_authorization_failed = ErrorCode.group_authorization_failed
to_error_code RespErr.cluster_authorization_failed = ErrorCode.cluster_authorization_failed
to_error_code RespErr.invalid_timestamp = ErrorCode.invalid_timestamp
to_error_code RespErr.unsupported_sasl_mechanism = ErrorCode.unsupported_sasl_mechanism
to_error_code RespErr.illegal_sasl_state = ErrorCode.illegal_sasl_state
to_error_code RespErr.unsupported_version = ErrorCode.unsupported_version
to_error_code RespErr.topic_already_exists = ErrorCode.topic_already_exists
to_error_code RespErr.invalid_partitions = ErrorCode.invalid_partitions
to_error_code RespErr.invalid_replication_factor = ErrorCode.invalid_replication_factor
to_error_code RespErr.invalid_replica_assignment = ErrorCode.invalid_replica_assignment
to_error_code RespErr.invalid_config = ErrorCode.invalid_config
to_error_code RespErr.not_controller = ErrorCode.not_controller
to_error_code RespErr.invalid_request = ErrorCode.invalid_request
to_error_code RespErr.unsupported_for_message_format = ErrorCode.unsupported_for_message_format
to_error_code RespErr.policy_violation = ErrorCode.policy_violation
to_error_code RespErr.out_of_order_sequence_number = ErrorCode.out_of_order_sequence_number
to_error_code RespErr.duplicate_sequence_number = ErrorCode.duplicate_sequence_number
to_error_code RespErr.invalid_producer_epoch = ErrorCode.invalid_producer_epoch
to_error_code RespErr.invalid_txn_state = ErrorCode.invalid_transactional_state
to_error_code RespErr.invalid_producer_id_mapping = ErrorCode.invalid_producer_id_mapping
to_error_code RespErr.invalid_transaction_timeout = ErrorCode.invalid_transaction_timeout
to_error_code RespErr.concurrent_transactions = ErrorCode.concurrent_transactions
to_error_code RespErr.transaction_coordinator_fenced = ErrorCode.transaction_coordinator_fenced
to_error_code RespErr.transactional_id_authorization_failed =
    ErrorCode.transactional_id_authorization_failed
to_error_code RespErr.security_disabled = ErrorCode.security_disabled
to_error_code RespErr.operation_not_attempted = ErrorCode.operation_not_attempted
to_error_code RespErr.kafka_storage_error = ErrorCode.kafka_storage_error
to_error_code RespErr.log_dir_not_found = ErrorCode.log_dir_not_found
to_error_code RespErr.sasl_authentication_failed = ErrorCode.sasl_authentication_failed
to_error_code RespErr.unknown_producer_id = ErrorCode.unknown_producer_id
to_error_code RespErr.reassignment_in_progress = ErrorCode.reassignment_in_progress
to_error_code RespErr.delegation_token_auth_disabled = ErrorCode.delegation_token_auth_disabled
to_error_code RespErr.delegation_token_not_found = ErrorCode.delegation_token_not_found
to_error_code RespErr.delegation_token_owner_mismatch = ErrorCode.delegation_token_owner_mismatch
to_error_code RespErr.delegation_token_request_not_allowed =
    ErrorCode.delegation_token_request_not_allowed
to_error_code RespErr.delegation_token_authorization_failed =
    ErrorCode.delegation_token_authorization_failed
to_error_code RespErr.delegation_token_expired = ErrorCode.delegation_token_expired
to_error_code RespErr.invalid_principal_type = ErrorCode.invalid_principal_type
to_error_code RespErr.non_empty_group = ErrorCode.non_empty_group
to_error_code RespErr.group_id_not_found = ErrorCode.group_id_not_found
to_error_code RespErr.fetch_session_id_not_found = ErrorCode.fetch_session_id_not_found
to_error_code RespErr.invalid_fetch_session_epoch = ErrorCode.invalid_fetch_session_epoch
to_error_code RespErr.listener_not_found = ErrorCode.listener_not_found
to_error_code RespErr.topic_deletion_disabled = ErrorCode.topic_deletion_disabled
to_error_code RespErr.fenced_leader_epoch = ErrorCode.fenced_leader_epoch
to_error_code RespErr.unknown_leader_epoch = ErrorCode.unknown_leader_epoch
to_error_code RespErr.unsupported_compression_type = ErrorCode.unsupported_compression_type
to_error_code RespErr.stale_broker_epoch = ErrorCode.stale_broker_epoch
to_error_code RespErr.offset_not_available = ErrorCode.offset_not_available
to_error_code RespErr.member_id_required = ErrorCode.member_id_required
to_error_code RespErr.preferred_leader_not_available = ErrorCode.preferred_leader_not_available
to_error_code RespErr.group_max_size_reached = ErrorCode.group_max_size_reached
to_error_code RespErr.fenced_instance_id = ErrorCode.fenced_instance_id
to_error_code RespErr.eligible_leaders_not_available = ErrorCode.eligible_leaders_not_available
to_error_code RespErr.election_not_needed = ErrorCode.election_not_needed
to_error_code RespErr.no_reassignment_in_progress = ErrorCode.no_reassignment_in_progress
to_error_code RespErr.group_subscribed_to_topic = ErrorCode.group_subscribed_to_topic
to_error_code RespErr.invalid_record = ErrorCode.invalid_record
to_error_code RespErr.unstable_offset_commit = ErrorCode.unstable_offset_commit
to_error_code RespErr.throttling_quota_exceeded = ErrorCode.throttling_quota_exceeded
to_error_code RespErr.producer_fenced = ErrorCode.producer_fenced
to_error_code RespErr.resource_not_found = ErrorCode.resource_not_found
to_error_code RespErr.duplicate_resource = ErrorCode.duplicate_resource
to_error_code RespErr.unacceptable_credential = ErrorCode.unacceptable_credential
to_error_code RespErr.inconsistent_voter_set = ErrorCode.inconsistent_voter_set
to_error_code RespErr.invalid_update_version = ErrorCode.invalid_update_version
to_error_code RespErr.feature_update_failed = ErrorCode.feature_update_failed
to_error_code RespErr.principal_deserialization_failure =
    ErrorCode.principal_deserialization_failure
to_error_code RespErr.end_all = ErrorCode.end_all
to_error_code RespErr.log_truncation = ErrorCode.log_truncation
to_error_code RespErr.invalid_different_record = ErrorCode.invalid_different_record
to_error_code RespErr.destroy_broker = ErrorCode.destroy_broker
to_error_code RespErr.unknown_topic_id = ErrorCode.unknown_topic_id
to_error_code RespErr.fenced_member_epoch = ErrorCode.fenced_member_epoch
to_error_code RespErr.unreleased_instance_id = ErrorCode.unreleased_instance_id
to_error_code RespErr.unsupported_assignor = ErrorCode.unsupported_assignor
to_error_code RespErr.stale_member_epoch = ErrorCode.stale_member_epoch
to_error_code RespErr.unknown_subscription_id = ErrorCode.unknown_subscription_id
to_error_code RespErr.telemetry_too_large = ErrorCode.telemetry_too_large
to_error_code RespErr.rebootstrap_required = ErrorCode.rebootstrap_required

-- The description that `Display for RDKafkaErrorCode` prints: `rd_kafka_err2str` of a code, or a
-- text of its own.
pub data Description : Type 0 where
  native : RespErr → Description
  unknown_error : Description

unfoldable pub description : ErrorCode → Description
description c = elim (RespErr.try_from (ErrorCode.value c)) [
  | some err ↦ native err
  | none ↦ unknown_error
]
