-- ===== src/Crypto.antt =====
-- crates/aelf-crypto/src/lib.rs: addresses, chain ids, private keys, wallets and signatures.
-- `Crates` holds what the crate takes from other crates; its laws are in `Crates` too. A child defines a
-- part of the crate, and the child below it proves it.
pub mod Error
pub mod Crates
pub mod Proto
pub mod Base58
pub mod Address
pub mod ChainId
pub mod PrivateKey
pub mod Wallet
pub mod Signature
