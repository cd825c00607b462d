-- ===== src/Message.antt =====
-- message.rs: timestamps and messages (`Defs`), headers and their iterator (`Headers`), and what
-- holds of them.
pub mod Headers
pub mod HeadersLaws
pub mod Defs
pub mod Laws
pub mod Owned
