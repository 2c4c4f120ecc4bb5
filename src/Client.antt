-- ===== src/Client.antt =====
-- crates/aelf-client: the transport with its retries, the REST services, and the transaction builder.
pub mod Crates
pub mod Error
pub mod Config
pub mod Counting
pub mod Provider
pub mod Action
pub mod Http
pub mod Handles
pub mod Protobuf
pub mod Mock
pub mod Codec
pub mod Dto
pub mod Utils
pub mod Builder
pub mod Service
pub mod TransactionId
