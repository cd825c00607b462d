-- ===== src/Codes/ErrorCode.antt =====
-- `RDKafkaErrorCode` of rdkafka-sys/src/types.rs with the numbers that it declares.
use rust_rdkafka.Prelude.{ℤ, pos, negsuc}

pub data ErrorCode : Type 0 where
  begin bad_message bad_compression broker_destroy fail broker_transport_failure : ErrorCode
  critical_system_resource resolve message_timed_out partition_eof : ErrorCode
  unknown_partition file_system unknown_topic all_brokers_down invalid_argument : ErrorCode
  operation_timed_out queue_full isr_insufficient node_update ssl : ErrorCode
  waiting_for_coordinator unknown_group in_progress previous_in_progress : ErrorCode
  existing_subscription assign_partitions revoke_partitions conflict state : ErrorCode
  unknown_protocol not_implemented authentication no_offset outdated : ErrorCode
  timed_out_queue unsupported_feature wait_cache interrupted key_serialization : ErrorCode
  value_serialization key_deserialization value_deserialization partial read_only : ErrorCode
  no_ent underflow invalid_type retry purge_queue purge_inflight fatal : ErrorCode
  inconsistent gapless_guarantee poll_exceeded unknown_broker not_configured : ErrorCode
  fenced application assignment_lost noop auto_offset_reset log_truncation : ErrorCode
  invalid_different_record destroy_broker end unknown no_error offset_out_of_range : ErrorCode
  invalid_message unknown_topic_or_partition invalid_message_size : ErrorCode
  leader_not_available not_leader_for_partition request_timed_out : ErrorCode
  broker_not_available replica_not_available message_size_too_large : ErrorCode
  stale_controller_epoch offset_metadata_too_large network_exception : ErrorCode
  coordinator_load_in_progress coordinator_not_available not_coordinator : ErrorCode
  invalid_topic message_batch_too_large not_enough_replicas : ErrorCode
  not_enough_replicas_after_append invalid_required_acks illegal_generation : ErrorCode
  inconsistent_group_protocol invalid_group_id unknown_member_id : ErrorCode
  invalid_session_timeout rebalance_in_progress invalid_commit_offset_size : ErrorCode
  topic_authorization_failed group_authorization_failed : ErrorCode
  cluster_authorization_failed invalid_timestamp unsupported_sasl_mechanism : ErrorCode
  illegal_sasl_state unsupported_version topic_already_exists invalid_partitions : ErrorCode
  invalid_replication_factor invalid_replica_assignment invalid_config : ErrorCode
  not_controller invalid_request unsupported_for_message_format policy_violation : ErrorCode
  out_of_order_sequence_number duplicate_sequence_number invalid_producer_epoch : ErrorCode
  invalid_transactional_state invalid_producer_id_mapping : ErrorCode
  invalid_transaction_timeout concurrent_transactions : ErrorCode
  transaction_coordinator_fenced transactional_id_authorization_failed : ErrorCode
  security_disabled operation_not_attempted kafka_storage_error log_dir_not_found : ErrorCode
  sasl_authentication_failed unknown_producer_id reassignment_in_progress : ErrorCode
  delegation_token_auth_disabled delegation_token_not_found : ErrorCode
  delegation_token_owner_mismatch delegation_token_request_not_allowed : ErrorCode
  delegation_token_authorization_failed delegation_token_expired : ErrorCode
  invalid_principal_type non_empty_group group_id_not_found : ErrorCode
  fetch_session_id_not_found invalid_fetch_session_epoch listener_not_found : ErrorCode
  topic_deletion_disabled fenced_leader_epoch unknown_leader_epoch : ErrorCode
  unsupported_compression_type stale_broker_epoch offset_not_available : ErrorCode
  member_id_required preferred_leader_not_available group_max_size_reached : ErrorCode
  fenced_instance_id eligible_leaders_not_available election_not_needed : ErrorCode
  no_reassignment_in_progress group_subscribed_to_topic invalid_record : ErrorCode
  unstable_offset_commit throttling_quota_exceeded producer_fenced : ErrorCode
  resource_not_found duplicate_resource unacceptable_credential : ErrorCode
  inconsistent_voter_set invalid_update_version feature_update_failed : ErrorCode
  principal_deserialization_failure unknown_topic_id fenced_member_epoch : ErrorCode
  unreleased_instance_id unsupported_assignor stale_member_epoch : ErrorCode
  unknown_subscription_id telemetry_too_large rebootstrap_required end_all : ErrorCode

-- `code as i32`; the last variant has no number of its own and counts on from the one before.
unfoldable pub value : ErrorCode → ℤ
value begin = negsuc 199
value bad_message = negsuc 198
value bad_compression = negsuc 197
value broker_destroy = negsuc 196
value fail = negsuc 195
value broker_transport_failure = negsuc 194
value critical_system_resource = negsuc 193
value resolve = negsuc 192
value message_timed_out = negsuc 191
value partition_eof = negsuc 190
value unknown_partition = negsuc 189
value file_system = negsuc 188
value unknown_topic = negsuc 187
value all_brokers_down = negsuc 186
value invalid_argument = negsuc 185
value operation_timed_out = negsuc 184
value queue_full = negsuc 183
value isr_insufficient = negsuc 182
value node_update = negsuc 181
value ssl = negsuc 180
value waiting_for_coordinator = negsuc 179
value unknown_group = negsuc 178
value in_progress = negsuc 177
value previous_in_progress = negsuc 176
value existing_subscription = negsuc 175
value assign_partitions = negsuc 174
value revoke_partitions = negsuc 173
value conflict = negsuc 172
value state = negsuc 171
value unknown_protocol = negsuc 170
value not_implemented = negsuc 169
value authentication = negsuc 168
value no_offset = negsuc 167
value outdated = negsuc 166
value timed_out_queue = negsuc 165
value unsupported_feature = negsuc 164
value wait_cache = negsuc 163
value interrupted = negsuc 162
value key_serialization = negsuc 161
value value_serialization = negsuc 160
value key_deserialization = negsuc 159
value value_deserialization = negsuc 158
value partial = negsuc 157
value read_only = negsuc 156
value no_ent = negsuc 155
value underflow = negsuc 154
value invalid_type = negsuc 153
value retry = negsuc 152
value purge_queue = negsuc 151
value purge_inflight = negsuc 150
value fatal = negsuc 149
value inconsistent = negsuc 148
value gapless_guarantee = negsuc 147
value poll_exceeded = negsuc 146
value unknown_broker = negsuc 145
value not_configured = negsuc 144
value fenced = negsuc 143
value application = negsuc 142
value assignment_lost = negsuc 141
value noop = negsuc 140
value auto_offset_reset = negsuc 139
value log_truncation = negsuc 138
value invalid_different_record = negsuc 137
value destroy_broker = negsuc 136
value end = negsuc 99
value unknown = negsuc 0
value no_error = pos 0
value offset_out_of_range = pos 1
value invalid_message = pos 2
value unknown_topic_or_partition = pos 3
value invalid_message_size = pos 4
value leader_not_available = pos 5
value not_leader_for_partition = pos 6
value request_timed_out = pos 7
value broker_not_available = pos 8
value replica_not_available = pos 9
value message_size_too_large = pos 10
value stale_controller_epoch = pos 11
value offset_metadata_too_large = pos 12
value network_exception = pos 13
value coordinator_load_in_progress = pos 14
value coordinator_not_available = pos 15
value not_coordinator = pos 16
value invalid_topic = pos 17
value message_batch_too_large = pos 18
value not_enough_replicas = pos 19
value not_enough_replicas_after_append = pos 20
value invalid_required_acks = pos 21
value illegal_generation = pos 22
value inconsistent_group_protocol = pos 23
value invalid_group_id = pos 24
value unknown_member_id = pos 25
value invalid_session_timeout = pos 26
value rebalance_in_progress = pos 27
value invalid_commit_offset_size = pos 28
value topic_authorization_failed = pos 29
value group_authorization_failed = pos 30
value cluster_authorization_failed = pos 31
value invalid_timestamp = pos 32
value unsupported_sasl_mechanism = pos 33
value illegal_sasl_state = pos 34
value unsupported_version = pos 35
value topic_already_exists = pos 36
value invalid_partitions = pos 37
value invalid_replication_factor = pos 38
value invalid_replica_assignment = pos 39
value invalid_config = pos 40
value not_controller = pos 41
value invalid_request = pos 42
value unsupported_for_message_format = pos 43
value policy_violation = pos 44
value out_of_order_sequence_number = pos 45
value duplicate_sequence_number = pos 46
value invalid_producer_epoch = pos 47
value invalid_transactional_state = pos 48
value invalid_producer_id_mapping = pos 49
value invalid_transaction_timeout = pos 50
value concurrent_transactions = pos 51
value transaction_coordinator_fenced = pos 52
value transactional_id_authorization_failed = pos 53
value security_disabled = pos 54
value operation_not_attempted = pos 55
value kafka_storage_error = pos 56
value log_dir_not_found = pos 57
value sasl_authentication_failed = pos 58
value unknown_producer_id = pos 59
value reassignment_in_progress = pos 60
value delegation_token_auth_disabled = pos 61
value delegation_token_not_found = pos 62
value delegation_token_owner_mismatch = pos 63
value delegation_token_request_not_allowed = pos 64
value delegation_token_authorization_failed = pos 65
value delegation_token_expired = pos 66
value invalid_principal_type = pos 67
value non_empty_group = pos 68
value group_id_not_found = pos 69
value fetch_session_id_not_found = pos 70
value invalid_fetch_session_epoch = pos 71
value listener_not_found = pos 72
value topic_deletion_disabled = pos 73
value fenced_leader_epoch = pos 74
value unknown_leader_epoch = pos 75
value unsupported_compression_type = pos 76
value stale_broker_epoch = pos 77
value offset_not_available = pos 78
value member_id_required = pos 79
value preferred_leader_not_available = pos 80
value group_max_size_reached = pos 81
value fenced_instance_id = pos 82
value eligible_leaders_not_available = pos 83
value election_not_needed = pos 84
value no_reassignment_in_progress = pos 85
value group_subscribed_to_topic = pos 86
value invalid_record = pos 87
value unstable_offset_commit = pos 88
value throttling_quota_exceeded = pos 89
value producer_fenced = pos 90
value resource_not_found = pos 91
value duplicate_resource = pos 92
value unacceptable_credential = pos 93
value inconsistent_voter_set = pos 94
value invalid_update_version = pos 95
value feature_update_failed = pos 96
value principal_deserialization_failure = pos 97
value unknown_topic_id = pos 100
value fenced_member_epoch = pos 110
value unreleased_instance_id = pos 111
value unsupported_assignor = pos 112
value stale_member_epoch = pos 113
value unknown_subscription_id = pos 117
value telemetry_too_large = pos 118
value rebootstrap_required = pos 129
value end_all = pos 130
