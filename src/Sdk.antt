-- ===== src/Sdk.antt =====
-- crates/aelf-sdk: the facade, the formatting of token amounts, and the examples.
pub mod Facade
pub mod Amount
pub mod Examples
