-- ===== src/Error/Text.antt =====
-- `Display` and `Debug` for `KafkaError` of error.rs. A text is the list of its pieces, in which the
-- parts that librdkafka words (a code, an error) stand as values.
use rust_rdkafka.Prelude.{ℤ, String, List, [], ◌∷◌}
use rust_rdkafka.Codes.ErrorCode.{ErrorCode}
use rust_rdkafka.Error.Defs.{
  RdKafkaError, KafkaError, admin_op_creation, admin_op, canceled, client_config, client_creation,
  consumer_commit, consumer_queue_close, flush, global, group_list_fetch, message_consumption,
  message_consumption_fatal, message_production, metadata_fetch, no_message_received, nul,
  offset_fetch, partition_eof, pause_resume, rebalance, seek, set_partition_offset, store_offset,
  subscription, transaction, mock_cluster,
}

pub data Piece : Type 0 where
  lit text : String → Piece
  code : ErrorCode → Piece
  native : RdKafkaError → Piece
  number : ℤ → Piece

unfoldable pub display : KafkaError → List Piece
display (admin_op e) = lit "Admin operation error: " ∷ code e ∷ []
display (admin_op_creation e) = lit "Admin operation creation error: " ∷ text e ∷ []
display canceled = lit "KafkaError (Client dropped)" ∷ []
display (client_config _ desc key value) =
    lit "Client config error: " ∷ text desc ∷ lit " " ∷ text key ∷ lit " " ∷ text value ∷ []
display (client_creation e) = lit "Client creation error: " ∷ text e ∷ []
display (consumer_commit e) = lit "Consumer commit error: " ∷ code e ∷ []
display (consumer_queue_close e) = lit "Consumer queue close error: " ∷ code e ∷ []
display (flush e) = lit "Flush error: " ∷ code e ∷ []
display (global e) = lit "Global error: " ∷ code e ∷ []
display (group_list_fetch e) = lit "Group list fetch error: " ∷ code e ∷ []
display (message_consumption e) = lit "Message consumption error: " ∷ code e ∷ []
display (message_consumption_fatal e) = lit "(Fatal) Message consumption error: " ∷ code e ∷ []
display (message_production e) = lit "Message production error: " ∷ code e ∷ []
display (metadata_fetch e) = lit "Meta data fetch error: " ∷ code e ∷ []
display no_message_received = lit "No message received within the given poll interval" ∷ []
display (nul _) = lit "FFI nul error" ∷ []
display (offset_fetch e) = lit "Offset fetch error: " ∷ code e ∷ []
display (partition_eof part_n) = lit "Partition EOF: " ∷ number part_n ∷ []
display (pause_resume e) = lit "Pause/resume error: " ∷ text e ∷ []
display (rebalance e) = lit "Rebalance error: " ∷ code e ∷ []
display (seek e) = lit "Seek error: " ∷ text e ∷ []
display (set_partition_offset e) = lit "Set partition offset error: " ∷ code e ∷ []
display (store_offset e) = lit "Store offset error: " ∷ code e ∷ []
display (subscription e) = lit "Subscription error: " ∷ text e ∷ []
display (transaction e) = lit "Transaction error: " ∷ native e ∷ []
display (mock_cluster e) = lit "Mock cluster error: " ∷ code e ∷ []

unfoldable pub debug : KafkaError → List Piece
debug (admin_op e) = lit "KafkaError (Admin operation error: " ∷ code e ∷ lit ")" ∷ []
debug (admin_op_creation e) =
    lit "KafkaError (Admin operation creation error: " ∷ text e ∷ lit ")" ∷ []
debug canceled = lit "KafkaError (Client dropped)" ∷ []
debug (client_config _ desc key value) =
    lit "KafkaError (Client config error: "
    ∷ text desc
    ∷ lit " "
    ∷ text key
    ∷ lit " "
    ∷ text value
    ∷ lit ")"
    ∷ []
debug (client_creation e) = lit "KafkaError (Client creation error: " ∷ text e ∷ lit ")" ∷ []
debug (consumer_commit e) = lit "KafkaError (Consumer commit error: " ∷ code e ∷ lit ")" ∷ []
debug (consumer_queue_close e) =
    lit "KafkaError (Consumer queue close error: " ∷ code e ∷ lit ")" ∷ []
debug (flush e) = lit "KafkaError (Flush error: " ∷ code e ∷ lit ")" ∷ []
debug (global e) = lit "KafkaError (Global error: " ∷ code e ∷ lit ")" ∷ []
debug (group_list_fetch e) = lit "KafkaError (Group list fetch error: " ∷ code e ∷ lit ")" ∷ []
debug (message_consumption e) =
    lit "KafkaError (Message consumption error: " ∷ code e ∷ lit ")" ∷ []
debug (message_consumption_fatal e) =
    lit "(Fatal) KafkaError (Message consumption error: " ∷ code e ∷ lit ")" ∷ []
debug (message_production e) = lit "KafkaError (Message production error: " ∷ code e ∷ lit ")" ∷ []
debug (metadata_fetch e) = lit "KafkaError (Metadata fetch error: " ∷ code e ∷ lit ")" ∷ []
debug no_message_received = lit "No message received within the given poll interval" ∷ []
debug (nul _) = lit "FFI null error" ∷ []
debug (offset_fetch e) = lit "KafkaError (Offset fetch error: " ∷ code e ∷ lit ")" ∷ []
debug (partition_eof part_n) = lit "KafkaError (Partition EOF: " ∷ number part_n ∷ lit ")" ∷ []
debug (pause_resume e) = lit "KafkaError (Pause/resume error: " ∷ text e ∷ lit ")" ∷ []
debug (rebalance e) = lit "KafkaError (Rebalance error: " ∷ code e ∷ lit ")" ∷ []
debug (seek e) = lit "KafkaError (Seek error: " ∷ text e ∷ lit ")" ∷ []
debug (set_partition_offset e) =
    lit "KafkaError (Set partition offset error: " ∷ code e ∷ lit ")" ∷ []
debug (store_offset e) = lit "KafkaError (Store offset error: " ∷ code e ∷ lit ")" ∷ []
debug (subscription e) = lit "KafkaError (Subscription error: " ∷ text e ∷ lit ")" ∷ []
debug (transaction e) = lit "KafkaError (Transaction error: " ∷ native e ∷ lit ")" ∷ []
debug (mock_cluster e) = lit "KafkaError (Mock cluster error: " ∷ code e ∷ lit ")" ∷ []
