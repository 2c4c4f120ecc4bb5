-- ===== src/Keystore/Cipher/RoundTrip.antt =====
-- Decrypting undoes encrypting, for every cipher; neither panics.
use aelf_web3_rust.Base.{
  ◌≡◌, subst, ◌≢◌, arith, some, Option-cases, inl, inr, ok, panic, length, replicate, ◌++◌,
}
use aelf_web3_rust.Base.Text.{Bytes, IsBytes}
use aelf_web3_rust.Keystore.Crates.{Aes, aes128, aes192, aes256, KeystoreCrates, CipherLaws}
use aelf_web3_rust.Keystore.Cipher.{
  CipherSpec, aes128_ctr, aes192_ctr, aes256_ctr, aes128_cbc, aes192_cbc, aes256_cbc, encrypt_ctr,
  encrypt_cbc, decrypt_ctr, decrypt_cbc, encrypt, decrypt,
}

module _ (crates : KeystoreCrates) where
  open crates use {ctr_new, apply_keystream, cbc_encryptor_new, cbc_decryptor_new, encrypt_padded}

  module _ (laws : CipherLaws crates) where
    ctr_lem :
        (aes : Aes) (key iv plain cipher : Bytes)
        → encrypt_ctr crates aes key iv plain ≡ ok cipher
        → (decrypt_ctr crates aes key iv cipher ≡ ok plain) × (IsBytes plain → IsBytes cipher)
    unfolding encrypt_ctr decrypt_ctr
    ctr_lem aes key iv plain cipher h = elim (Option-cases (ctr_new aes key iv)) [
      | inl e ↦ absurd (ground arith)
      | inr (c, e) ↦ (
        ground (arith, laws.keystream_twice c plain),
        λ b. subst IsBytes (ground arith) (laws.keystream_bytes c plain b),
      )
    ]

    cbc_lem :
        (aes : Aes) (key iv plain cipher : Bytes)
        → encrypt_cbc crates aes key iv plain ≡ ok cipher
        → (decrypt_cbc crates aes key iv cipher ≡ ok plain) × (IsBytes plain → IsBytes cipher)
    unfolding encrypt_cbc decrypt_cbc
    cbc_lem aes key iv plain cipher h = elim (Option-cases (cbc_encryptor_new aes key iv)) [
      | inl e ↦ absurd (ground arith)
      | inr (enc, e) ↦
          let (dec, d) = laws.decryptor_of aes key iv enc e in
          let written : encrypt_padded enc (plain ++ replicate 16 0) (length plain) ≡ some cipher =
            ground arith in
          (
            ground (arith, laws.decrypts aes key iv plain cipher enc dec e d written),
            laws.padded_bytes enc plain cipher written,
          )
    ]

    -- Decrypting, and that bytes are encrypted to bytes.
    pub cipher_lem :
        (spec : CipherSpec) (key iv plain cipher : Bytes)
        → encrypt crates spec key iv plain ≡ ok cipher
        → (decrypt crates spec key iv cipher ≡ ok plain) × (IsBytes plain → IsBytes cipher)
    cipher_lem aes128_ctr key iv plain cipher h =
        unfold encrypt decrypt in ctr_lem aes128 key iv plain cipher h
    cipher_lem aes192_ctr key iv plain cipher h =
        unfold encrypt decrypt in ctr_lem aes192 key iv plain cipher h
    cipher_lem aes256_ctr key iv plain cipher h =
        unfold encrypt decrypt in ctr_lem aes256 key iv plain cipher h
    cipher_lem aes128_cbc key iv plain cipher h =
        unfold encrypt decrypt in cbc_lem aes128 key iv plain cipher h
    cipher_lem aes192_cbc key iv plain cipher h =
        unfold encrypt decrypt in cbc_lem aes192 key iv plain cipher h
    cipher_lem aes256_cbc key iv plain cipher h =
        unfold encrypt decrypt in cbc_lem aes256 key iv plain cipher h

    -- With the documented behaviour of the cipher crates, what a cipher encrypts, the same cipher
    -- decrypts under the same key and IV.
    pub decrypt-encrypt :
        (spec : CipherSpec) (key iv plain cipher : Bytes)
        → encrypt crates spec key iv plain ≡ ok cipher
        → decrypt crates spec key iv cipher ≡ ok plain
    decrypt-encrypt spec key iv plain cipher h = (cipher_lem spec key iv plain cipher h).0

  pub encrypt-ne-panic :
      (spec : CipherSpec) (key iv plain : Bytes) → encrypt crates spec key iv plain ≢ panic
  unfolding encrypt
  encrypt-ne-panic aes128_ctr key iv plain h = ground arith
  encrypt-ne-panic _ key iv plain h = ground arith

  pub decrypt-ne-panic :
      (spec : CipherSpec) (key iv cipher : Bytes) → decrypt crates spec key iv cipher ≢ panic
  unfolding decrypt
  decrypt-ne-panic aes128_ctr key iv cipher h = ground arith
  decrypt-ne-panic _ key iv cipher h = ground arith
