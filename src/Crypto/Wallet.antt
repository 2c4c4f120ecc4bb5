-- ===== src/Crypto/Wallet.antt =====
-- crates/aelf-crypto/src/lib.rs: `Wallet`, and signing with a wallet.
pub mod Restore
pub mod Signing
use aelf_web3_rust.Base.{ℕ, [], Option, Result, ok, err, panic, ◌>>=◌, ok_or, map_err}
use aelf_web3_rust.Base.Text.{Text, Bytes, codes}
use aelf_web3_rust.Crypto.Error.{CryptoError, CryptoResult, derivation_path, invalid_private_key}
use aelf_web3_rust.Crypto.Crates.{Crates}
use aelf_web3_rust.Crypto.Proto.{Transaction}
use aelf_web3_rust.Crypto.Address.{address_from_public_key}
use aelf_web3_rust.Crypto.PrivateKey.{normalize_private_key_hex}
use aelf_web3_rust.Crypto.Signature.{sign_payload}

abbrev pub default_bip44_path : Text
default_bip44_path = codes "m/44'/1616'/0'/0/0"

pub record Wallet : Type 0 where
  pub mnemonic : Text
  pub bip44_path : Text
  pub private_key : Text
  pub public_key : Text
  pub address : Text

module _ (crates : Crates) where
  open crates use {
    hex_encode, SigningKey, signing_key_from_bytes, signing_key_to_bytes, verifying_key,
    to_encoded_point, Rng, mnemonic_from_rng_with_count, mnemonic_from_phrase, to_phrase,
    path_from_str, derivation_string, derive_key, encode_transaction,
  }

  unfoldable pub from_signing_key : SigningKey → Text → Text → Wallet
  from_signing_key signing_key mnemonic bip44_path =
      let public_key_bytes = to_encoded_point (verifying_key signing_key) in
      record {
        mnemonic = mnemonic;
        bip44_path = bip44_path;
        private_key = hex_encode (signing_key_to_bytes signing_key);
        public_key = hex_encode public_key_bytes;
        address = address_from_public_key crates public_key_bytes;
      }

  unfoldable pub from_mnemonic_with_path : Text → Text → CryptoResult Wallet
  unfolding from_signing_key
  from_mnemonic_with_path phrase path_text = do
    words ← map_err CryptoError.mnemonic (mnemonic_from_phrase phrase)
    path ← map_err derivation_path (path_from_str path_text)
    derived ← map_err CryptoError.mnemonic (derive_key words path)
    ok (from_signing_key derived (to_phrase words) (derivation_string path))

  unfoldable pub from_mnemonic : Text → CryptoResult Wallet
  unfolding from_mnemonic_with_path
  from_mnemonic phrase = from_mnemonic_with_path phrase default_bip44_path

  -- The random source is an argument.
  unfoldable pub create_with_path : Rng → Text → CryptoResult Wallet
  unfolding from_mnemonic_with_path
  create_with_path rng path = do
    words ← map_err CryptoError.mnemonic (mnemonic_from_rng_with_count rng 12)
    from_mnemonic_with_path (to_phrase words) path

  unfoldable pub create : Rng → CryptoResult Wallet
  unfolding create_with_path
  create rng = create_with_path rng default_bip44_path

  unfoldable pub from_private_key : Text → CryptoResult Wallet
  unfolding from_signing_key
  from_private_key private_key_hex = do
    bytes ← normalize_private_key_hex crates private_key_hex
    signing_key ← ok_or (signing_key_from_bytes bytes) invalid_private_key
    ok (from_signing_key signing_key [] default_bip44_path)

  -- `Wallet::signing_key`.
  unfoldable pub signing_key : Wallet → CryptoResult SigningKey
  signing_key wallet = do
    bytes ← normalize_private_key_hex crates wallet.private_key
    ok_or (signing_key_from_bytes bytes) invalid_private_key

  -- `Wallet::sign`.
  unfoldable pub sign : Wallet → Bytes → CryptoResult Bytes
  sign wallet payload = do key ← signing_key wallet; sign_payload crates key payload

  unfoldable pub sign_transaction : Wallet → Transaction → CryptoResult Bytes
  sign_transaction wallet transaction = do
    key ← signing_key wallet
    sign_payload crates key (encode_transaction transaction)

  unfoldable pub sign_transaction_with_private_key : Text → Transaction → CryptoResult Bytes
  unfolding sign_transaction
  sign_transaction_with_private_key private_key_hex transaction = do
    wallet ← from_private_key private_key_hex
    sign_transaction wallet transaction
