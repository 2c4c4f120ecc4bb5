-- ===== src/Crypto/Error.antt =====
-- crates/aelf-crypto/src/lib.rs: `CryptoError`. An error of another crate is kept as its message.
use aelf_web3_rust.Base.{Result}
use aelf_web3_rust.Base.Text.{Text}

pub data CryptoError : Type 0 where
  hex mnemonic derivation_path : Text → CryptoError
  invalid_private_key invalid_address invalid_signature : CryptoError
  protobuf_encode protobuf_decode : Text → CryptoError

abbrev pub CryptoResult : Type 0 → Type 0
CryptoResult A = Result CryptoError A
