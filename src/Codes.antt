-- ===== src/Codes.antt =====
-- The error codes of librdkafka, as rdkafka-sys declares and converts them.
pub mod RespErr
pub mod ErrorCode
pub mod Convert
pub mod Laws
