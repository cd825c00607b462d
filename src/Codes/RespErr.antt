-- ===== src/Codes/RespErr.antt =====
-- `rd_kafka_resp_err_t` of rdkafka-sys/src/bindings.rs: the response codes of librdkafka with their
-- numbers. A constructor is the name behind RD_KAFKA_RESP_ERR_ (or RD_KAFKA_RESP_ERR__).
use rust_rdkafka.Prelude.{ℤ, pos, negsuc, eqb_ℤ, if◌then◌else◌, Option, none, some, List, [], ◌∷◌}

pub data RespErr : Type 0 where
  begin bad_msg bad_compression destroy fail transport crit_sys_resource resolve : RespErr
  msg_timed_out partition_eof unknown_partition fs unknown_topic all_brokers_down : RespErr
  invalid_arg timed_out queue_full isr_insuff node_update ssl wait_coord : RespErr
  unknown_group in_progress prev_in_progress existing_subscription : RespErr
  assign_partitions revoke_partitions conflict state unknown_protocol : RespErr
  not_implemented authentication no_offset outdated timed_out_queue : RespErr
  unsupported_feature wait_cache intr key_serialization value_serialization : RespErr
  key_deserialization value_deserialization partial read_only noent underflow : RespErr
  invalid_type retry purge_queue purge_inflight fatal inconsistent : RespErr
  gapless_guarantee max_poll_exceeded unknown_broker not_configured fenced : RespErr
  application assignment_lost noop auto_offset_reset log_truncation : RespErr
  invalid_different_record destroy_broker end unknown no_error offset_out_of_range : RespErr
  invalid_msg unknown_topic_or_part invalid_msg_size leader_not_available : RespErr
  not_leader_for_partition request_timed_out broker_not_available : RespErr
  replica_not_available msg_size_too_large stale_ctrl_epoch : RespErr
  offset_metadata_too_large network_exception coordinator_load_in_progress : RespErr
  coordinator_not_available not_coordinator topic_exception record_list_too_large : RespErr
  not_enough_replicas not_enough_replicas_after_append invalid_required_acks : RespErr
  illegal_generation inconsistent_group_protocol invalid_group_id : RespErr
  unknown_member_id invalid_session_timeout rebalance_in_progress : RespErr
  invalid_commit_offset_size topic_authorization_failed group_authorization_failed : RespErr
  cluster_authorization_failed invalid_timestamp unsupported_sasl_mechanism : RespErr
  illegal_sasl_state unsupported_version topic_already_exists invalid_partitions : RespErr
  invalid_replication_factor invalid_replica_assignment invalid_config : RespErr
  not_controller invalid_request unsupported_for_message_format policy_violation : RespErr
  out_of_order_sequence_number duplicate_sequence_number invalid_producer_epoch : RespErr
  invalid_txn_state invalid_producer_id_mapping invalid_transaction_timeout : RespErr
  concurrent_transactions transaction_coordinator_fenced : RespErr
  transactional_id_authorization_failed security_disabled operation_not_attempted : RespErr
  kafka_storage_error log_dir_not_found sasl_authentication_failed : RespErr
  unknown_producer_id reassignment_in_progress delegation_token_auth_disabled : RespErr
  delegation_token_not_found delegation_token_owner_mismatch : RespErr
  delegation_token_request_not_allowed delegation_token_authorization_failed : RespErr
  delegation_token_expired invalid_principal_type non_empty_group : RespErr
  group_id_not_found fetch_session_id_not_found invalid_fetch_session_epoch : RespErr
  listener_not_found topic_deletion_disabled fenced_leader_epoch : RespErr
  unknown_leader_epoch unsupported_compression_type stale_broker_epoch : RespErr
  offset_not_available member_id_required preferred_leader_not_available : RespErr
  group_max_size_reached fenced_instance_id eligible_leaders_not_available : RespErr
  election_not_needed no_reassignment_in_progress group_subscribed_to_topic : RespErr
  invalid_record unstable_offset_commit throttling_quota_exceeded producer_fenced : RespErr
  resource_not_found duplicate_resource unacceptable_credential : RespErr
  inconsistent_voter_set invalid_update_version feature_update_failed : RespErr
  principal_deserialization_failure unknown_topic_id fenced_member_epoch : RespErr
  unreleased_instance_id unsupported_assignor stale_member_epoch : RespErr
  unknown_subscription_id telemetry_too_large rebootstrap_required end_all : RespErr

-- The number of a code, its discriminant.
unfoldable pub value : RespErr → ℤ
value begin = negsuc 199
value bad_msg = negsuc 198
value bad_compression = negsuc 197
value destroy = negsuc 196
value fail = negsuc 195
value transport = negsuc 194
value crit_sys_resource = negsuc 193
value resolve = negsuc 192
value msg_timed_out = negsuc 191
value partition_eof = negsuc 190
value unknown_partition = negsuc 189
value fs = negsuc 188
value unknown_topic = negsuc 187
value all_brokers_down = negsuc 186
value invalid_arg = negsuc 185
value timed_out = negsuc 184
value queue_full = negsuc 183
value isr_insuff = negsuc 182
value node_update = negsuc 181
value ssl = negsuc 180
value wait_coord = negsuc 179
value unknown_group = negsuc 178
value in_progress = negsuc 177
value prev_in_progress = negsuc 176
value existing_subscription = negsuc 175
value assign_partitions = negsuc 174
value revoke_partitions = negsuc 173
value conflict = negsuc 172
value state = negsuc 171
value unknown_protocol = negsuc 170
value not_implemented = negsuc 169
value authentication = negsuc 168
value no_offset = negsuc 167
value outdated = negsuc 166
value timed_out_queue = negsuc 165
value unsupported_feature = negsuc 164
value wait_cache = negsuc 163
value intr = negsuc 162
value key_serialization = negsuc 161
value value_serialization = negsuc 160
value key_deserialization = negsuc 159
value value_deserialization = negsuc 158
value partial = negsuc 157
value read_only = negsuc 156
value noent = negsuc 155
value underflow = negsuc 154
value invalid_type = negsuc 153
value retry = negsuc 152
value purge_queue = negsuc 151
value purge_inflight = negsuc 150
value fatal = negsuc 149
value inconsistent = negsuc 148
value gapless_guarantee = negsuc 147
value max_poll_exceeded = negsuc 146
value unknown_broker = negsuc 145
value not_configured = negsuc 144
value fenced = negsuc 143
value application = negsuc 142
value assignment_lost = negsuc 141
value noop = negsuc 140
value auto_offset_reset = negsuc 139
value log_truncation = negsuc 138
value invalid_different_record = negsuc 137
value destroy_broker = negsuc 136
value end = negsuc 99
value unknown = negsuc 0
value no_error = pos 0
value offset_out_of_range = pos 1
value invalid_msg = pos 2
value unknown_topic_or_part = pos 3
value invalid_msg_size = pos 4
value leader_not_available = pos 5
value not_leader_for_partition = pos 6
value request_timed_out = pos 7
value broker_not_available = pos 8
value replica_not_available = pos 9
value msg_size_too_large = pos 10
value stale_ctrl_epoch = pos 11
value offset_metadata_too_large = pos 12
value network_exception = pos 13
value coordinator_load_in_progress = pos 14
value coordinator_not_available = pos 15
value not_coordinator = pos 16
value topic_exception = pos 17
value record_list_too_large = pos 18
value not_enough_replicas = pos 19
value not_enough_replicas_after_append = pos 20
value invalid_required_acks = pos 21
value illegal_generation = pos 22
value inconsistent_group_protocol = pos 23
value invalid_group_id = pos 24
value unknown_member_id = pos 25
value invalid_session_timeout = pos 26
value rebalance_in_progress = pos 27
value invalid_commit_offset_size = pos 28
value topic_authorization_failed = pos 29
value group_authorization_failed = pos 30
value cluster_authorization_failed = pos 31
value invalid_timestamp = pos 32
value unsupported_sasl_mechanism = pos 33
value illegal_sasl_state = pos 34
value unsupported_version = pos 35
value topic_already_exists = pos 36
value invalid_partitions = pos 37
value invalid_replication_factor = pos 38
value invalid_replica_assignment = pos 39
value invalid_config = pos 40
value not_controller = pos 41
value invalid_request = pos 42
value unsupported_for_message_format = pos 43
value policy_violation = pos 44
value out_of_order_sequence_number = pos 45
value duplicate_sequence_number = pos 46
value invalid_producer_epoch = pos 47
value invalid_txn_state = pos 48
value invalid_producer_id_mapping = pos 49
value invalid_transaction_timeout = pos 50
value concurrent_transactions = pos 51
value transaction_coordinator_fenced = pos 52
value transactional_id_authorization_failed = pos 53
value security_disabled = pos 54
value operation_not_attempted = pos 55
value kafka_storage_error = pos 56
value log_dir_not_found = pos 57
value sasl_authentication_failed = pos 58
value unknown_producer_id = pos 59
value reassignment_in_progress = pos 60
value delegation_token_auth_disabled = pos 61
value delegation_token_not_found = pos 62
value delegation_token_owner_mismatch = pos 63
value delegation_token_request_not_allowed = pos 64
value delegation_token_authorization_failed = pos 65
value delegation_token_expired = pos 66
value invalid_principal_type = pos 67
value non_empty_group = pos 68
value group_id_not_found = pos 69
value fetch_session_id_not_found = pos 70
value invalid_fetch_session_epoch = pos 71
value listener_not_found = pos 72
value topic_deletion_disabled = pos 73
value fenced_leader_epoch = pos 74
value unknown_leader_epoch = pos 75
value unsupported_compression_type = pos 76
value stale_broker_epoch = pos 77
value offset_not_available = pos 78
value member_id_required = pos 79
value preferred_leader_not_available = pos 80
value group_max_size_reached = pos 81
value fenced_instance_id = pos 82
value eligible_leaders_not_available = pos 83
value election_not_needed = pos 84
value no_reassignment_in_progress = pos 85
value group_subscribed_to_topic = pos 86
value invalid_record = pos 87
value unstable_offset_commit = pos 88
value throttling_quota_exceeded = pos 89
value producer_fenced = pos 90
value resource_not_found = pos 91
value duplicate_resource = pos 92
value unacceptable_credential = pos 93
value inconsistent_voter_set = pos 94
value invalid_update_version = pos 95
value feature_update_failed = pos 96
value principal_deserialization_failure = pos 97
value unknown_topic_id = pos 100
value fenced_member_epoch = pos 110
value unreleased_instance_id = pos 111
value unsupported_assignor = pos 112
value stale_member_epoch = pos 113
value unknown_subscription_id = pos 117
value telemetry_too_large = pos 118
value rebootstrap_required = pos 129
value end_all = pos 130

abbrev all : List RespErr
all =
    begin ∷ bad_msg ∷ bad_compression ∷ destroy ∷ fail ∷ transport ∷ crit_sys_resource ∷ resolve
    ∷ msg_timed_out ∷ partition_eof ∷ unknown_partition ∷ fs ∷ unknown_topic ∷ all_brokers_down
    ∷ invalid_arg ∷ timed_out ∷ queue_full ∷ isr_insuff ∷ node_update ∷ ssl ∷ wait_coord
    ∷ unknown_group ∷ in_progress ∷ prev_in_progress ∷ existing_subscription ∷ assign_partitions
    ∷ revoke_partitions ∷ conflict ∷ state ∷ unknown_protocol ∷ not_implemented ∷ authentication
    ∷ no_offset ∷ outdated ∷ timed_out_queue ∷ unsupported_feature ∷ wait_cache ∷ intr
    ∷ key_serialization ∷ value_serialization ∷ key_deserialization ∷ value_deserialization
    ∷ partial ∷ read_only ∷ noent ∷ underflow ∷ invalid_type ∷ retry ∷ purge_queue ∷ purge_inflight
    ∷ fatal ∷ inconsistent ∷ gapless_guarantee ∷ max_poll_exceeded ∷ unknown_broker ∷ not_configured
    ∷ fenced ∷ application ∷ assignment_lost ∷ noop ∷ auto_offset_reset ∷ log_truncation
    ∷ invalid_different_record ∷ destroy_broker ∷ end ∷ unknown ∷ no_error ∷ offset_out_of_range
    ∷ invalid_msg ∷ unknown_topic_or_part ∷ invalid_msg_size ∷ leader_not_available
    ∷ not_leader_for_partition ∷ request_timed_out ∷ broker_not_available ∷ replica_not_available
    ∷ msg_size_too_large ∷ stale_ctrl_epoch ∷ offset_metadata_too_large ∷ network_exception
    ∷ coordinator_load_in_progress ∷ coordinator_not_available ∷ not_coordinator ∷ topic_exception
    ∷ record_list_too_large ∷ not_enough_replicas ∷ not_enough_replicas_after_append
    ∷ invalid_required_acks ∷ illegal_generation ∷ inconsistent_group_protocol ∷ invalid_group_id
    ∷ unknown_member_id ∷ invalid_session_timeout ∷ rebalance_in_progress
    ∷ invalid_commit_offset_size ∷ topic_authorization_failed ∷ group_authorization_failed
    ∷ cluster_authorization_failed ∷ invalid_timestamp ∷ unsupported_sasl_mechanism
    ∷ illegal_sasl_state ∷ unsupported_version ∷ topic_already_exists ∷ invalid_partitions
    ∷ invalid_replication_factor ∷ invalid_replica_assignment ∷ invalid_config ∷ not_controller
    ∷ invalid_request ∷ unsupported_for_message_format ∷ policy_violation
    ∷ out_of_order_sequence_number ∷ duplicate_sequence_number ∷ invalid_producer_epoch
    ∷ invalid_txn_state ∷ invalid_producer_id_mapping ∷ invalid_transaction_timeout
    ∷ concurrent_transactions ∷ transaction_coordinator_fenced
    ∷ transactional_id_authorization_failed ∷ security_disabled ∷ operation_not_attempted
    ∷ kafka_storage_error ∷ log_dir_not_found ∷ sasl_authentication_failed ∷ unknown_producer_id
    ∷ reassignment_in_progress ∷ delegation_token_auth_disabled ∷ delegation_token_not_found
    ∷ delegation_token_owner_mismatch ∷ delegation_token_request_not_allowed
    ∷ delegation_token_authorization_failed ∷ delegation_token_expired ∷ invalid_principal_type
    ∷ non_empty_group ∷ group_id_not_found ∷ fetch_session_id_not_found
    ∷ invalid_fetch_session_epoch ∷ listener_not_found ∷ topic_deletion_disabled
    ∷ fenced_leader_epoch ∷ unknown_leader_epoch ∷ unsupported_compression_type ∷ stale_broker_epoch
    ∷ offset_not_available ∷ member_id_required ∷ preferred_leader_not_available
    ∷ group_max_size_reached ∷ fenced_instance_id ∷ eligible_leaders_not_available
    ∷ election_not_needed ∷ no_reassignment_in_progress ∷ group_subscribed_to_topic ∷ invalid_record
    ∷ unstable_offset_commit ∷ throttling_quota_exceeded ∷ producer_fenced ∷ resource_not_found
    ∷ duplicate_resource ∷ unacceptable_credential ∷ inconsistent_voter_set ∷ invalid_update_version
    ∷ feature_update_failed ∷ principal_deserialization_failure ∷ unknown_topic_id
    ∷ fenced_member_epoch ∷ unreleased_instance_id ∷ unsupported_assignor ∷ stale_member_epoch
    ∷ unknown_subscription_id ∷ telemetry_too_large ∷ rebootstrap_required ∷ end_all ∷ []

find_value : ℤ → List RespErr → Option RespErr
find_value n [] = none
find_value n (e ∷ es) = if eqb_ℤ (value e) n then some e else find_value n es

-- The derived `TryFromPrimitive`: the code that has the number.
unfoldable pub try_from : ℤ → Option RespErr
unfolding find_value value
try_from n = find_value n all
