-- ===== src/Keystore/Types.antt =====
-- crates/aelf-keystore/src/lib.rs: the errors, the keystore's parts, what is unlocked, and the options.
-- An error of another crate is kept as its message. The serde attributes are not modelled.
use aelf_web3_rust.Base.{ℕ, Option, none, Result}
use aelf_web3_rust.Base.Text.{Text, Bytes, codes}

pub data KeystoreError : Type 0 where
  invalid_scrypt_params : KeystoreError
  unsupported_cipher : Text → KeystoreError
  invalid_cipher_length invalid_password cipher_padding : KeystoreError
  hex json : Text → KeystoreError

abbrev pub KeystoreResult : Type 0 → Type 0
KeystoreResult A = Result KeystoreError A

pub record CipherParams : Type 0 where
  pub iv : Text

pub record KdfParams : Type 0 where
  pub r : ℕ
  pub n : ℕ
  pub p : ℕ
  pub dklen : ℕ
  pub salt : Text

pub record KeystoreCrypto : Type 0 where
  pub cipher : Text
  pub ciphertext : Text
  pub cipherparams : CipherParams
  pub mnemonic_encrypted : Text
  pub kdf : Text
  pub kdfparams : KdfParams
  pub mac : Text

pub record Keystore : Type 0 where
  pub version : ℕ
  pub kind : Text
  pub nick_name : Text
  pub id : Option Text
  pub address : Text
  pub crypto : KeystoreCrypto

pub record UnlockedKeystore : Type 0 where
  pub nick_name : Text
  pub address : Text
  pub mnemonic : Text
  pub private_key : Text

pub record KeystoreEncryptOptions : Type 0 where
  pub cipher : Text
  pub dklen : ℕ
  pub n : ℕ
  pub r : ℕ
  pub p : ℕ
  pub salt : Option Bytes
  pub iv : Option Bytes
  pub nick_name : Option Text
  pub address : Option Text

abbrev pub default_options : KeystoreEncryptOptions
default_options = record {
  cipher = codes "aes-128-ctr";
  dklen = 32;
  n = 8192;
  r = 8;
  p = 1;
  salt = none;
  iv = none;
  nick_name = none;
  address = none;
}
