-- ===== src/Mocking/ApiKey.antt =====
-- `RDKafkaApiKey` of rdkafka-sys/src/types.rs: the requests of the protocol, with their numbers.
use rust_rdkafka.Prelude.{ℤ, pos}

pub data ApiKey : Type 0 where
  produce fetch list_offsets metadata leader_and_isr stop_replica update_metadata : ApiKey
  controlled_shutdown offset_commit offset_fetch find_coordinator join_group heartbeat : ApiKey
  leave_group sync_group describe_groups list_groups sasl_handshake api_version : ApiKey
  create_topics delete_topics delete_records init_producer_id offset_for_leader_epoch : ApiKey
  add_partitions_to_txn add_offsets_to_txn end_txn write_txn_markers txn_offset_commit : ApiKey
  describe_acls create_acls delete_acls describe_configs alter_configs : ApiKey
  alter_replica_log_dirs describe_log_dirs sasl_authenticate create_partitions : ApiKey
  create_delegation_token renew_delegation_token expire_delegation_token : ApiKey
  describe_delegation_token delete_groups elect_leaders incremental_alter_configs : ApiKey
  alter_partition_reassignments list_partition_reassignments offset_delete : ApiKey
  describe_client_quotas alter_client_quotas describe_user_scram_credentials : ApiKey
  alter_user_scram_credentials vote begin_quorum_epoch end_quorum_epoch describe_quorum : ApiKey
  alter_isr update_features envelope : ApiKey

-- `From<RDKafkaApiKey> for i16`, which `IntoPrimitive` derives.
unfoldable pub value : ApiKey → ℤ
value produce = pos 0
value fetch = pos 1
value list_offsets = pos 2
value metadata = pos 3
value leader_and_isr = pos 4
value stop_replica = pos 5
value update_metadata = pos 6
value controlled_shutdown = pos 7
value offset_commit = pos 8
value offset_fetch = pos 9
value find_coordinator = pos 10
value join_group = pos 11
value heartbeat = pos 12
value leave_group = pos 13
value sync_group = pos 14
value describe_groups = pos 15
value list_groups = pos 16
value sasl_handshake = pos 17
value api_version = pos 18
value create_topics = pos 19
value delete_topics = pos 20
value delete_records = pos 21
value init_producer_id = pos 22
value offset_for_leader_epoch = pos 23
value add_partitions_to_txn = pos 24
value add_offsets_to_txn = pos 25
value end_txn = pos 26
value write_txn_markers = pos 27
value txn_offset_commit = pos 28
value describe_acls = pos 29
value create_acls = pos 30
value delete_acls = pos 31
value describe_configs = pos 32
value alter_configs = pos 33
value alter_replica_log_dirs = pos 34
value describe_log_dirs = pos 35
value sasl_authenticate = pos 36
value create_partitions = pos 37
value create_delegation_token = pos 38
value renew_delegation_token = pos 39
value expire_delegation_token = pos 40
value describe_delegation_token = pos 41
value delete_groups = pos 42
value elect_leaders = pos 43
value incremental_alter_configs = pos 44
value alter_partition_reassignments = pos 45
value list_partition_reassignments = pos 46
value offset_delete = pos 47
value describe_client_quotas = pos 48
value alter_client_quotas = pos 49
value describe_user_scram_credentials = pos 50
value alter_user_scram_credentials = pos 51
value vote = pos 52
value begin_quorum_epoch = pos 53
value end_quorum_epoch = pos 54
value describe_quorum = pos 55
value alter_isr = pos 56
value update_features = pos 57
value envelope = pos 58
