-- ===== src/Lib.antt =====
-- A model of the AElf Rust SDK with the theorems that make it correct.
--
-- The program. crates/aelf-crypto makes wallets, addresses and signatures; crates/aelf-keystore seals a
-- wallet under a password and unlocks it; crates/aelf-client talks to a node over HTTP, with retries, and
-- builds transactions from what the node answers and what a wallet signs; crates/aelf-sdk is the facade
-- over them, with aelf-contract, which calls contracts through their descriptors. A transaction goes from
-- the builder of aelf-client, which asks the node for its chain status, through the address codec and the
-- signature of aelf-crypto, back to the node.
--
-- The files.
--   Base: what the parts share. Base/Outcome is Rust's `Result`, with a panic (an index out of range, a
--     failed `expect`) as a third outcome. Base/Text is `str`, as a list of Unicode scalar values with its
--     UTF-8 bytes, and the methods the code calls. Base/Word has the machine integers, Base/Decimal their
--     decimal notation, and Base/Json `serde_json::Value` and its `Map`, whose keys ascend. Base/Mask has
--     bit masks as remainders.
--   Crypto: crates/aelf-crypto/src/lib.rs. Crypto/Base58 is base58check_encode and base58check_decode,
--     Crypto/Address the parsing and conversion of addresses, Crypto/ChainId the chain ids,
--     Crypto/PrivateKey normalize_private_key_hex, Crypto/Signature sign_payload and verify_signature,
--     Crypto/Wallet the struct Wallet with its constructors and its signing. Crypto/Proto has the messages.
--   Keystore: crates/aelf-keystore/src/lib.rs. Keystore/Types is the keystore's data, Keystore/Cipher the
--     enum CipherSpec and the six ciphers, Keystore/Kdf derive_key, Keystore/Scrypt the scrypt that is
--     written in this crate, Keystore/Seal encrypt_js_with_options and unlock_js.
--   Client: crates/aelf-client/src. Client/Provider is HttpProvider of provider.rs, Client/Config and
--     Client/Error are config.rs and error.rs, Client/Dto is dto/mod.rs, and of lib.rs Client/Service and
--     Client/Service/Tx are the four services, Client/TransactionId the checks on a transaction id,
--     Client/Utils ClientUtilsService and Client/Builder TransactionBuilder. Client/Handles is AElfClient
--     with the services as handles, Client/Protobuf is protobuf.rs, Client/Http makes HttpProvider a value
--     of the provider interface, Client/Mock is MockProvider, and Client/Counting counts the requests of a
--     kind that reach a provider, each at a price: one, or in Client/Http/Price the HTTP requests that
--     HttpProvider sends for it, retries included.
--   Contract: crates/aelf-contract/src/lib.rs. Contract/Normalize is normalize_json_message and
--     normalize_json_field, Contract/Dynamic the dynamic contracts, their methods, the lazily initialized
--     contract and ZeroContract, and Contract/Reflect what they take from prost-reflect.
--     Contract/Dynamic/Json is call_json and send_json, and Contract/Typed the wrappers TokenContract,
--     ElectionContract, VoteContract, CrossChainContract and AedposContract.
--   Sdk: Sdk/Facade is AElfClient and Sdk/Amount is format_token_amount of crates/aelf-sdk/src/lib.rs.
--     Sdk/Examples has the examples token_transfer and raw_transaction_flow of crates/aelf-sdk/examples,
--     wallet_keystore_roundtrip in Sdk/Examples/KeystoreRoundTrip, and basic_client, public_balance and
--     dynamic_contract_get_balance in Sdk/Examples/ReadOnly.
--   Stubs and Tests: executable stand-ins for the other crates, and the theorems and the code at concrete
--     inputs.
--
-- The correspondence. A function keeps its name. A method takes its `self` first, and one that two types
-- share is a module's (`Client.Utils.sign_transaction`). `?` is the bind of Result. The code of other
-- crates is a record of operations, Crates of Crypto/Crates, KeystoreCrates of Keystore/Crates, HttpCrate
-- of Client/Crates, Codec of Client/Codec, Reflect of Contract/Reflect, Messages of Contract/Typed,
-- Environment of Sdk/Examples and TokenMessages of Sdk/Examples/ReadOnly; the laws that a theorem needs of
-- them are named hypotheses, and Stubs shows that they can hold together. Random bytes come from a source
-- that is an argument. An async function of the client is a function of the state behind its provider
-- (Client/Action), so that what it requests and in which order is part of its meaning. A request is there
-- one call of the provider, which HttpProvider may have to send more than once. For HttpProvider itself
-- the network is the outcome of each attempt, and the sends and the waits are a list of events.
--
-- Bounds and fuel. `usize` has 64 bits. Buffers are lists of bytes. A slice out of range panics in the
-- model as it does in the code, and so does a `vec!` of more than `isize::MAX` bytes, for the buffers of
-- scrypt and the derived key, whose sizes come from parameters (`zeroed` of Keystore/Scrypt). The retry loop recurs on the number of retries that are left; the loops of
-- scrypt recur on their chunks and on `n`; cutting into chunks has the length of its input as fuel, which
-- is enough because each chunk takes at least one byte; the digits of a number have the number as fuel. A
-- `Duration` is its nanoseconds.
--
-- Not modelled. Two first calls of one lazily initialized contract at the same time, which the OnceCell of
-- tokio puts in order; memory that runs out below that size, where the allocator ends the process;
-- crates/aelf-proto, which is generated; the derived code of serde, which is a parameter of the services;
-- zeroizing on drop and the redacted Debug output.
pub mod Base
pub mod Crypto
pub mod Keystore
pub mod Client
pub mod Contract
pub mod Sdk
mod Stubs
mod Tests
