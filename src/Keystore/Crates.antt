-- ===== src/Keystore/Crates.antt =====
-- What aelf-keystore takes from other crates: aes with ctr and cbc, scrypt, pbkdf2, salsa20, sha3 and rand.
-- The operations are parameters of the model, and what the code relies on is stated as laws.
use aelf_web3_rust.Base.{
  ℕ, ◌*◌, ◌^◌, ◌<◌, ◌≡◌, ◌≢◌, Result, ok, panic, List, ◌++◌, Option, some, length, replicate,
}
use aelf_web3_rust.Base.Text.{Text, Bytes, IsBytes}

-- The block ciphers that the code names.
pub data Aes : Type 0 where
  aes128 aes192 aes256 : Aes

pub record KeystoreCrates : Type 1 where
  -- Ctr128BE<C>: `new_from_slices`, and the bytes after `apply_keystream` by a fresh cipher
  pub Ctr : Type 0
  pub ctr_new : Aes → Bytes → Bytes → Option Ctr
  pub apply_keystream : Ctr → Bytes → Bytes
  -- cbc::Encryptor<C> and Decryptor<C> with Pkcs7: the part of the buffer that is returned
  pub CbcEncryptor : Type 0
  pub CbcDecryptor : Type 0
  pub cbc_encryptor_new : Aes → Bytes → Bytes → Option CbcEncryptor
  pub cbc_decryptor_new : Aes → Bytes → Bytes → Option CbcDecryptor
  pub encrypt_padded : CbcEncryptor → Bytes → ℕ → Option Bytes
  pub decrypt_padded : CbcDecryptor → Bytes → Option Bytes
  -- scrypt::Params::new and scrypt::scrypt for an output of the given length, which allocates and so can panic
  pub ScryptParams : Type 0
  pub scrypt_params : ℕ → ℕ → ℕ → ℕ → Option ScryptParams
  pub scrypt : Bytes → Bytes → ScryptParams → ℕ → Result Text Bytes
  -- pbkdf2_hmac::<Sha256>: password, salt, rounds, length
  pub pbkdf2_hmac : Bytes → Bytes → ℕ → ℕ → Bytes
  -- SalsaCore<U4>: the keystream block of a raw state of 16 words
  pub salsa_block : List ℕ → Bytes
  -- Keccak256::digest
  pub keccak256 : Bytes → Bytes
  -- rng().fill_bytes for the given number of bytes
  pub Rng : Type 0
  pub random_bytes : Rng → ℕ → Bytes × Rng

module _ (crates : KeystoreCrates) where
  open crates use {
    Ctr, ctr_new, apply_keystream, CbcEncryptor, CbcDecryptor, cbc_encryptor_new, cbc_decryptor_new,
    encrypt_padded, decrypt_padded, ScryptParams, scrypt_params, scrypt, pbkdf2_hmac, salsa_block,
    Rng, random_bytes,
  }

  -- A keystream applied twice is gone. A CBC decryptor is made from what makes an encryptor, and reads what
  -- that encryptor writes when the buffer holds the padding.
  pub record CipherLaws : Type 0 where
    pub keystream_twice : (c : Ctr) (b : Bytes) → apply_keystream c (apply_keystream c b) ≡ b
    pub keystream_bytes : (c : Ctr) (b : Bytes) → IsBytes b → IsBytes (apply_keystream c b)
    pub decryptor_of :
        (a : Aes) (key iv : Bytes) (e : CbcEncryptor)
        → cbc_encryptor_new a key iv ≡ some e
        → (d : CbcDecryptor) × (cbc_decryptor_new a key iv ≡ some d)
    pub decrypts :
        (a : Aes) (key iv plain cipher : Bytes) (e : CbcEncryptor) (d : CbcDecryptor)
        → cbc_encryptor_new a key iv ≡ some e
        → cbc_decryptor_new a key iv ≡ some d
        → encrypt_padded e (plain ++ replicate 16 0) (length plain) ≡ some cipher
        → decrypt_padded d cipher ≡ some plain
    pub padded_bytes :
        (e : CbcEncryptor) (plain cipher : Bytes)
        → encrypt_padded e (plain ++ replicate 16 0) (length plain) ≡ some cipher
        → IsBytes plain
        → IsBytes cipher

  -- The crate's scrypt panics only where one of its buffers, of `p` and of `n` blocks of `r` times 128 bytes,
  -- has more than `isize::MAX` bytes.
  pub record KdfLaws : Type 0 where
    pub scrypt_allocates :
        (password salt : Bytes) (log_n r p dklen : ℕ) (params : ScryptParams)
        → scrypt_params log_n r p dklen ≡ some params
        → p * (r * 128) < 2 ^ 63
        → 2 ^ log_n * (r * 128) < 2 ^ 63
        → scrypt password salt params dklen ≢ panic
    pub scrypt_length :
        (password salt : Bytes) (params : ScryptParams) (n : ℕ) (key : Bytes)
        → scrypt password salt params n ≡ ok key
        → length key ≡ n
    pub pbkdf2_length :
        (password salt : Bytes) (rounds n : ℕ) → length (pbkdf2_hmac password salt rounds n) ≡ n
    pub salsa_length : (state : List ℕ) → length (salsa_block state) ≡ 64

  pub record RngLaws : Type 0 where
    pub random_IsBytes : (rng : Rng) (n : ℕ) → IsBytes (random_bytes rng n).0
