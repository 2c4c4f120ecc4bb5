-- ===== src/Tests.antt =====
-- The theorems at concrete inputs, with the stand-ins of Stubs for the other crates, and runs of the code.
mod Crypto
mod Keystore
mod Client
mod Payloads
mod Contract
mod Calls
mod Http
mod Examples
