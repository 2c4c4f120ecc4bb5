-- ===== src/Keystore/Cipher.antt =====
-- crates/aelf-keystore/src/lib.rs: `CipherSpec`, `encrypt` and `decrypt`.
pub mod Names
pub mod RoundTrip
use aelf_web3_rust.Base.{
  ℕ, [], ◌++◌, Bool, true, false, ◌||◌, Option, none, some, Result, ok, err, panic, ◌>>=◌, ◌>>◌,
  ok_or, list_eq, if◌then◌else◌, length, replicate,
}
use aelf_web3_rust.Base.Text.{Text, Bytes, codes}
use aelf_web3_rust.Base.Text.Ascii.{to_ascii_lowercase}
use aelf_web3_rust.Keystore.Types.{
  KeystoreResult, unsupported_cipher, invalid_cipher_length, invalid_password, cipher_padding,
}
use aelf_web3_rust.Keystore.Crates.{Aes, aes128, aes192, aes256, KeystoreCrates}

pub data CipherSpec : Type 0 where
  aes128_ctr aes192_ctr aes256_ctr aes128_cbc aes192_cbc aes256_cbc : CipherSpec

-- The match on the lower-case name.
unfoldable pub spec_of_name : Text → KeystoreResult CipherSpec
spec_of_name name =
    if list_eq name (codes "aes-128-ctr")
    then ok aes128_ctr
    else if list_eq name (codes "aes-192-ctr")
    then ok aes192_ctr
    else if list_eq name (codes "aes-256-ctr")
    then ok aes256_ctr
    else if list_eq name (codes "aes-128-cbc") || list_eq name (codes "aes128")
    then ok aes128_cbc
    else if list_eq name (codes "aes-192-cbc") || list_eq name (codes "aes192")
    then ok aes192_cbc
    else if list_eq name (codes "aes-256-cbc") || list_eq name (codes "aes256")
    then ok aes256_cbc
    else err (unsupported_cipher name)

unfoldable pub parse : Text → KeystoreResult CipherSpec
unfolding spec_of_name to_ascii_lowercase list_eq
parse value = spec_of_name (to_ascii_lowercase value)

abbrev pub as_str : CipherSpec → Text
as_str aes128_ctr = codes "aes-128-ctr"
as_str aes192_ctr = codes "aes-192-ctr"
as_str aes256_ctr = codes "aes-256-ctr"
as_str aes128_cbc = codes "aes-128-cbc"
as_str aes192_cbc = codes "aes-192-cbc"
as_str aes256_cbc = codes "aes-256-cbc"

abbrev pub key_len : CipherSpec → ℕ
key_len aes128_ctr = 16
key_len aes128_cbc = 16
key_len aes192_ctr = 24
key_len aes192_cbc = 24
key_len aes256_ctr = 32
key_len aes256_cbc = 32

abbrev pub iv_len : CipherSpec → ℕ
iv_len spec = 16

module _ (crates : KeystoreCrates) where
  open crates use {
    ctr_new, apply_keystream, cbc_encryptor_new, cbc_decryptor_new, encrypt_padded, decrypt_padded,
  }

  unfoldable pub encrypt_ctr : Aes → Bytes → Bytes → Bytes → KeystoreResult Bytes
  encrypt_ctr aes key iv plaintext = do
    cipher ← ok_or (ctr_new aes key iv) invalid_cipher_length
    ok (apply_keystream cipher plaintext)

  unfoldable pub decrypt_ctr : Aes → Bytes → Bytes → Bytes → KeystoreResult Bytes
  unfolding encrypt_ctr
  decrypt_ctr aes key iv ciphertext = encrypt_ctr aes key iv ciphertext

  -- The buffer holds the plaintext and 16 zeros for the padding.
  unfoldable pub encrypt_cbc : Aes → Bytes → Bytes → Bytes → KeystoreResult Bytes
  encrypt_cbc aes key iv plaintext = do
    let buffer = plaintext ++ replicate 16 0
    encryptor ← ok_or (cbc_encryptor_new aes key iv) invalid_cipher_length
    ok_or (encrypt_padded encryptor buffer (length plaintext)) cipher_padding

  unfoldable pub decrypt_cbc : Aes → Bytes → Bytes → Bytes → KeystoreResult Bytes
  decrypt_cbc aes key iv ciphertext = do
    decryptor ← ok_or (cbc_decryptor_new aes key iv) invalid_cipher_length
    ok_or (decrypt_padded decryptor ciphertext) invalid_password

  -- The one-line functions `encrypt_aes128_ctr` and so on are the right sides.
  unfoldable pub encrypt : CipherSpec → Bytes → Bytes → Bytes → KeystoreResult Bytes
  unfolding encrypt_ctr encrypt_cbc
  encrypt aes128_ctr = encrypt_ctr aes128
  encrypt aes192_ctr = encrypt_ctr aes192
  encrypt aes256_ctr = encrypt_ctr aes256
  encrypt aes128_cbc = encrypt_cbc aes128
  encrypt aes192_cbc = encrypt_cbc aes192
  encrypt aes256_cbc = encrypt_cbc aes256

  unfoldable pub decrypt : CipherSpec → Bytes → Bytes → Bytes → KeystoreResult Bytes
  unfolding decrypt_ctr decrypt_cbc
  decrypt aes128_ctr = decrypt_ctr aes128
  decrypt aes192_ctr = decrypt_ctr aes192
  decrypt aes256_ctr = decrypt_ctr aes256
  decrypt aes128_cbc = decrypt_cbc aes128
  decrypt aes192_cbc = decrypt_cbc aes192
  decrypt aes256_cbc = decrypt_cbc aes256
