-- ===== src/Crypto/Signature.antt =====
-- crates/aelf-crypto/src/lib.rs: `sign_payload`, `verify_signature` and the signing of transactions.
pub mod Verify
use aelf_web3_rust.Base.{
  ℕ, [], ◌∷◌, ◌++◌, Bool, Option, none, some, Result, ok, err, panic, ◌>>=◌, ◌>>◌, guard, ok_or,
  index, ◌==◌, length, take,
}
use aelf_web3_rust.Base.Text.{Text, Bytes}
use aelf_web3_rust.Crypto.Error.{CryptoResult, invalid_signature}
use aelf_web3_rust.Crypto.Crates.{Crates}
use aelf_web3_rust.Crypto.Proto.{Transaction}

module _ (crates : Crates) where
  open crates use {
    sha256, SigningKey, VerifyingKey, Signature, RecoveryId, verifying_key_eq, from_sec1_bytes,
    recovery_id_from_byte, recovery_id_to_byte, signature_from_slice, signature_to_bytes,
    sign_digest_recoverable, recover_from_digest, encode_transaction,
  }

  -- The signature's bytes with the recovery id behind them.
  abbrev pub signature_bytes : Signature × RecoveryId → Bytes
  signature_bytes (signature, recovery_id) =
      signature_to_bytes signature ++ recovery_id_to_byte recovery_id ∷ []

  unfoldable pub sign_payload : SigningKey → Bytes → CryptoResult Bytes
  sign_payload signing_key payload = do
    signed ← ok_or (sign_digest_recoverable signing_key (sha256 payload)) invalid_signature
    ok (signature_bytes signed)

  unfoldable pub verify_signature : Bytes → Bytes → Bytes → CryptoResult Bool
  verify_signature public_key payload bytes = do
    guard (length bytes == 65) invalid_signature
    verifying_key ← ok_or (from_sec1_bytes public_key) invalid_signature
    last ← index bytes 64
    recovery_id ← ok_or (recovery_id_from_byte last) invalid_signature
    signature ← ok_or (signature_from_slice (take 64 bytes)) invalid_signature
    recovered ← ok_or (recover_from_digest (sha256 payload) signature recovery_id) invalid_signature
    ok (verifying_key_eq recovered verifying_key)

  unfoldable pub transaction_hash : Transaction → Bytes
  transaction_hash transaction = sha256 (encode_transaction transaction)
