-- ===== src/Crypto/Crates.antt =====
-- What aelf-crypto takes from other crates: hex, bs58, sha2, coins-bip32 with its secp256k1 (k256),
-- coins-bip39, and prost's encoding of a transaction. The operations are parameters of the model, and what
-- the code relies on is stated as laws, one record for each crate.
use aelf_web3_rust.Base.{ℕ, ◌*◌, ◌≡◌, Option, some, Bool, true, Result, ok, length, All}
use aelf_web3_rust.Base.Text.{Text, Bytes, IsBytes, len}
use aelf_web3_rust.Base.Text.Ascii.{IsHexDigit, IsAlphanumeric}
use aelf_web3_rust.Crypto.Proto.{Transaction}

pub record Crates : Type 1 where
  -- hex::encode, hex::decode
  pub hex_encode : Bytes → Text
  pub hex_decode : Text → Result Text Bytes
  -- bs58::encode(..).into_string(), bs58::decode(..).into_vec()
  pub bs58_encode : Bytes → Text
  pub bs58_decode : Text → Result Text Bytes
  -- Sha256::digest
  pub sha256 : Bytes → Bytes
  -- k256: keys, and signatures with a recovery id, over a SHA-256 digest
  pub SigningKey : Type 0
  pub VerifyingKey : Type 0
  pub Signature : Type 0
  pub RecoveryId : Type 0
  pub signing_key_from_bytes : Bytes → Option SigningKey
  pub signing_key_to_bytes : SigningKey → Bytes
  pub verifying_key : SigningKey → VerifyingKey
  pub to_encoded_point : VerifyingKey → Bytes
  pub from_sec1_bytes : Bytes → Option VerifyingKey
  pub verifying_key_eq : VerifyingKey → VerifyingKey → Bool
  pub recovery_id_from_byte : ℕ → Option RecoveryId
  pub recovery_id_to_byte : RecoveryId → ℕ
  pub signature_from_slice : Bytes → Option Signature
  pub signature_to_bytes : Signature → Bytes
  pub sign_digest_recoverable : SigningKey → Bytes → Option (Signature × RecoveryId)
  pub recover_from_digest : Bytes → Signature → RecoveryId → Option VerifyingKey
  -- coins-bip39 and coins-bip32; `Rng` is the random source
  pub Rng : Type 0
  pub Mnemonic : Type 0
  pub DerivationPath : Type 0
  pub mnemonic_from_rng_with_count : Rng → ℕ → Result Text Mnemonic
  pub mnemonic_from_phrase : Text → Result Text Mnemonic
  pub to_phrase : Mnemonic → Text
  pub path_from_str : Text → Result Text DerivationPath
  pub derivation_string : DerivationPath → Text
  pub derive_key : Mnemonic → DerivationPath → Result Text SigningKey
  -- Transaction::encode_to_vec
  pub encode_transaction : Transaction → Bytes

module _ (crates : Crates) where
  open crates use {
    Mnemonic, DerivationPath, mnemonic_from_phrase, to_phrase, path_from_str, derivation_string,
    hex_encode, hex_decode, bs58_encode, bs58_decode, sha256, SigningKey, VerifyingKey, Signature,
    RecoveryId, signing_key_from_bytes, signing_key_to_bytes, verifying_key, to_encoded_point,
    from_sec1_bytes, verifying_key_eq, recovery_id_from_byte, recovery_id_to_byte,
    signature_from_slice, signature_to_bytes, sign_digest_recoverable, recover_from_digest,
  }

  pub record HexLaws : Type 0 where
    pub decode_encode : (b : Bytes) → IsBytes b → hex_decode (hex_encode b) ≡ ok b
    pub decode_length : (t : Text) (b : Bytes) → hex_decode t ≡ ok b → len t ≡ 2 * length b
    pub decode_bytes : (t : Text) (b : Bytes) → hex_decode t ≡ ok b → IsBytes b
    pub encode_digits : (b : Bytes) → IsBytes b → All IsHexDigit (hex_encode b)

  -- A phrase and the text of a path read back.
  pub record Bip39Laws : Type 0 where
    pub phrase_back : (m : Mnemonic) → mnemonic_from_phrase (to_phrase m) ≡ ok m
    pub path_back : (p : DerivationPath) → path_from_str (derivation_string p) ≡ ok p

  pub record Bs58Laws : Type 0 where
    pub decode_encode : (b : Bytes) → IsBytes b → bs58_decode (bs58_encode b) ≡ ok b
    pub encode_decode : (t : Text) (b : Bytes) → bs58_decode t ≡ ok b → bs58_encode b ≡ t
    pub decode_bytes : (t : Text) (b : Bytes) → bs58_decode t ≡ ok b → IsBytes b
    pub encode_alphabet : (b : Bytes) → All IsAlphanumeric (bs58_encode b)

  pub record Sha256Laws : Type 0 where
    pub digest_length : (b : Bytes) → length (sha256 b) ≡ 32
    pub digest_bytes : (b : Bytes) → IsBytes (sha256 b)

  -- Keys, signatures and recovery ids survive their byte forms, and the key that signs is the key that is
  -- recovered.
  pub record EcdsaLaws : Type 0 where
    pub key_length : (k : SigningKey) → length (signing_key_to_bytes k) ≡ 32
    pub key_bytes : (k : SigningKey) → IsBytes (signing_key_to_bytes k)
    pub key_from_bytes : (k : SigningKey) → signing_key_from_bytes (signing_key_to_bytes k) ≡ some k
    pub point_from_bytes : (v : VerifyingKey) → from_sec1_bytes (to_encoded_point v) ≡ some v
    pub point_bytes : (v : VerifyingKey) → IsBytes (to_encoded_point v)
    pub key_eq_refl : (v : VerifyingKey) → verifying_key_eq v v ≡ true
    pub key_eq_sound : (v w : VerifyingKey) → verifying_key_eq v w ≡ true → v ≡ w
    pub id_from_byte : (r : RecoveryId) → recovery_id_from_byte (recovery_id_to_byte r) ≡ some r
    pub signature_length : (s : Signature) → length (signature_to_bytes s) ≡ 64
    pub signature_from_bytes :
        (s : Signature) → signature_from_slice (signature_to_bytes s) ≡ some s
    pub recovers :
        (k : SigningKey) (d : Bytes) (s : Signature) (r : RecoveryId)
        → sign_digest_recoverable k d ≡ some (s, r)
        → recover_from_digest d s r ≡ some (verifying_key k)
