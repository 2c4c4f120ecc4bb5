-- ===== src/Stubs.antt =====
-- Small executable stand-ins for the other crates, with the laws that the model asks of them. They are used
-- in the tests only; none of them is the real algorithm, but hex.
pub mod Hex
pub mod Crypto
pub mod Keystore
pub mod Client
pub mod Contract
