-- ===== src/Keystore.antt =====
-- crates/aelf-keystore/src/lib.rs: JS-compatible keystores. `Types` has the data, `Crates` what is taken from
-- other crates, `Cipher` the choice of a cipher and its two directions, `Scrypt` the crate's own scrypt, `Kdf`
-- the derivation of the key, and `Seal` the keystore's operations.
pub mod Types
pub mod Crates
pub mod Cipher
pub mod Scrypt
pub mod Kdf
pub mod Seal
