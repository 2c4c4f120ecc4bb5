-- ===== src/Keystore/Seal/Guards.antt =====
-- What `unlock_js` and `encrypt_js_with_options` refuse, and where neither panics.
use aelf_web3_rust.Base.{
  ℕ, ◌≤◌, ◌<◌, ◌≡◌, ◌≢◌, sym, ◌∙◌, ◌++◌, arith, ok, err, panic, map_err, map_err-eq-ok, list_eq,
  list_eq→eq, guard, slice_to, slice_from, bind_ok, bind-ne-panic, map_err-ne-panic,
  slice_to-ne-panic, slice_from-ne-panic, guard-ne-panic, drop,
}
use aelf_web3_rust.Base.Text.{Text, Bytes, as_bytes}
use aelf_web3_rust.Crypto.Crates.{Crates}
use aelf_web3_rust.Crypto.Wallet.{Wallet}
use aelf_web3_rust.Keystore.Types.{
  KeystoreError, invalid_scrypt_params, invalid_password, Keystore, UnlockedKeystore,
  KeystoreEncryptOptions,
}
use aelf_web3_rust.Keystore.Crates.{KeystoreCrates, KdfLaws}
use aelf_web3_rust.Keystore.Cipher.{CipherSpec, spec_of_name, parse, key_len, encrypt, decrypt}
use aelf_web3_rust.Base.Text.Ascii.{to_ascii_lowercase}
use aelf_web3_rust.Keystore.Cipher.Names.{parse-spec_of_name}
use aelf_web3_rust.Keystore.Cipher.RoundTrip.{encrypt-ne-panic, decrypt-ne-panic}
use aelf_web3_rust.Keystore.Kdf.{ensure_derived_key_len, derive_key}
use aelf_web3_rust.Keystore.Kdf.Length.{Derivable, length-derive_key, derive_key-ne-panic}
use aelf_web3_rust.Keystore.Seal.{keccak256_hex, encrypt_js_with_options, unlock_js}

key_len_bounds : (spec : CipherSpec) → (16 ≤ key_len spec) × (key_len spec ≤ 32)
key_len_bounds spec = ground arith

pub ensured :
    (dklen : ℕ) (spec : CipherSpec)
    → ensure_derived_key_len dklen spec ≡ ok tt
    → (16 ≤ dklen) × (key_len spec ≤ dklen)
unfolding ensure_derived_key_len
ensured dklen spec h = ground (arith, key_len_bounds spec)

pub refused :
    (dklen : ℕ) (spec : CipherSpec)
    → dklen < key_len spec
    → ensure_derived_key_len dklen spec ≡ err invalid_scrypt_params
unfolding ensure_derived_key_len
refused dklen spec h = ground (arith, key_len_bounds spec)

spec_of_name-ne-panic : (name : Text) → spec_of_name name ≢ panic
unfolding spec_of_name
spec_of_name-ne-panic name h = ground arith

parse-ne-panic : (value : Text) → parse value ≢ panic
parse-ne-panic value h =
    spec_of_name-ne-panic (to_ascii_lowercase value) (sym (parse-spec_of_name value) ∙ h)

ensure-ne-panic : (dklen : ℕ) (spec : CipherSpec) → ensure_derived_key_len dklen spec ≢ panic
unfolding ensure_derived_key_len
ensure-ne-panic dklen spec h = ground arith

module _ (crypto : Crates) (crates : KeystoreCrates) where
  -- Where the options name a cipher and a derived key shorter than the cipher's key, sealing is refused
  -- for its scrypt parameters.
  pub short_dklen :
      (wallet : Wallet) (password : Text) (options : KeystoreEncryptOptions) (rng : crates.Rng)
      (spec : CipherSpec)
      → parse options.cipher ≡ ok spec
      → options.dklen < key_len spec
      → encrypt_js_with_options crypto crates wallet password options rng
        ≡ err invalid_scrypt_params
  unfolding encrypt_js_with_options
  short_dklen wallet password options rng spec parsed short =
      rw (parsed, refused options.dklen spec short)

  -- A keystore that is unlocked holds, as its MAC, the Keccak-256 in hexadecimal of the derived key
  -- from its byte 16 on and the ciphertext, for the key that the password derives with the keystore's
  -- own salt and parameters.
  pub unlock_js-mac :
      (keystore : Keystore) (password : Text) (unlocked : UnlockedKeystore)
      → unlock_js crypto crates keystore password ≡ ok unlocked
      → (salt ciphertext derived_key : Bytes) × (crypto.hex_decode keystore.crypto.kdfparams.salt
          ≡ ok salt)
        × (crypto.hex_decode keystore.crypto.ciphertext ≡ ok ciphertext)
        × (derive_key crates password salt keystore.crypto.kdfparams.n keystore.crypto.kdfparams.r
              keystore.crypto.kdfparams.p keystore.crypto.kdfparams.dklen
            ≡ ok derived_key)
        × (keystore.crypto.mac ≡ keccak256_hex crypto crates (drop 16 derived_key ++ ciphertext))
  unfolding unlock_js
  unlock_js-mac keystore password unlocked h =
      let c = keystore.crypto in
      let q = c.kdfparams in
      bind_ok (parse c.cipher) _ h λ spec _ h₁.
        bind_ok (ensure_derived_key_len q.dklen spec) _ h₁ λ _ long h₂.
          bind_ok (map_err KeystoreError.hex (crypto.hex_decode q.salt)) _ h₂ λ salt es h₃.
            bind_ok (map_err KeystoreError.hex (crypto.hex_decode c.cipherparams.iv)) _ h₃
              λ iv ei h₄.
                bind_ok (map_err KeystoreError.hex (crypto.hex_decode c.ciphertext)) _ h₄
                  λ ct ec h₅.
                    bind_ok (map_err KeystoreError.hex (crypto.hex_decode c.mnemonic_encrypted)) _
                      h₅
                      λ mct em h₆.
                        bind_ok (derive_key crates password salt q.n q.r q.p q.dklen) _ h₆
                          λ derived dk h₇. bind_ok (slice_from derived 16) _ h₇ λ mk mm h₈.
                            bind_ok
                              (guard (list_eq (keccak256_hex crypto crates (mk ++ ct)) c.mac)
                                invalid_password)
                              _ h₈
                              λ _ checked _. (
                                salt,
                                ct,
                                derived,
                                map_err-eq-ok KeystoreError.hex _ es,
                                map_err-eq-ok KeystoreError.hex _ ec,
                                dk,
                                ground (
                                  arith,
                                  list_eq→eq (keccak256_hex crypto crates (mk ++ ct)) c.mac,
                                ),
                              )

  module _ (kdf : KdfLaws crates) where
    -- With a KDF whose outputs have the right lengths and which panics for no other reason than a
    -- buffer of more than `isize::MAX` bytes, and where decoding hexadecimal does not panic: if the
    -- cost that the options name is a `u32`, and `p` and `n` times 128 `r` bytes and `dklen` bytes are
    -- each `isize::MAX` at most, sealing does not panic, whatever the wallet, the password, the rest of
    -- the options and the random source are.
    pub encrypt_js_with_options-ne-panic :
        ((t : Text) → crypto.hex_decode t ≢ panic)
        → (wallet : Wallet) (password : Text) (options : KeystoreEncryptOptions) (rng : crates.Rng)
        → Derivable options.n options.r options.p options.dklen
        → encrypt_js_with_options crypto crates wallet password options rng ≢ panic
    unfolding encrypt_js_with_options
    encrypt_js_with_options-ne-panic hex wallet password options rng fits =
        bind-ne-panic (parse options.cipher) _ (parse-ne-panic options.cipher) λ spec _.
          bind-ne-panic (ensure_derived_key_len options.dklen spec) _
            (ensure-ne-panic options.dklen spec)
            λ _ long.
              let (enough, whole) = ensured options.dklen spec long in
              bind-ne-panic
                (derive_key crates password _ options.n options.r options.p options.dklen) _
                (derive_key-ne-panic crates kdf password _ options.n options.r options.p
                  options.dklen fits)
                λ derived dk.
                  let size =
                    length-derive_key crates kdf password _ options.n options.r options.p
                      options.dklen derived fits dk in
                  bind-ne-panic (map_err KeystoreError.hex (crypto.hex_decode wallet.private_key)) _
                    (map_err-ne-panic _ _ (hex wallet.private_key))
                    λ private _.
                      bind-ne-panic (slice_to derived (key_len spec)) _
                        (slice_to-ne-panic derived (key_len spec) (omega arith))
                        λ key _.
                          bind-ne-panic (encrypt crates spec key _ private) _
                            (encrypt-ne-panic crates spec key _ private)
                            λ ct _.
                              bind-ne-panic (encrypt crates spec key _ (as_bytes wallet.mnemonic)) _
                                (encrypt-ne-panic crates spec key _ (as_bytes wallet.mnemonic))
                                λ mct _.
                                  bind-ne-panic (slice_from derived 16) _
                                    (slice_from-ne-panic derived 16 (omega arith)) λ mk _ h. cc

    -- With a KDF whose outputs have the right lengths and which panics for no other reason than a
    -- buffer of more than `isize::MAX` bytes, and where decoding hexadecimal does not panic: if the
    -- cost that the keystore names is a `u32`, and `p` and `n` times 128 `r` bytes and `dklen` bytes
    -- are each `isize::MAX` at most, unlocking does not panic, whatever else the keystore holds and
    -- whatever the password is.
    pub unlock_js-ne-panic :
        ((t : Text) → crypto.hex_decode t ≢ panic)
        → (keystore : Keystore) (password : Text)
        → (let q = keystore.crypto.kdfparams in Derivable q.n q.r q.p q.dklen)
        → unlock_js crypto crates keystore password ≢ panic
    unfolding unlock_js
    unlock_js-ne-panic hex keystore password fits =
        let c = keystore.crypto in
        let q = c.kdfparams in
        bind-ne-panic (parse c.cipher) _ (parse-ne-panic c.cipher) λ spec _.
          bind-ne-panic (ensure_derived_key_len q.dklen spec) _ (ensure-ne-panic q.dklen spec)
            λ _ long.
              let (enough, whole) = ensured q.dklen spec long in
              bind-ne-panic (map_err KeystoreError.hex (crypto.hex_decode q.salt)) _
                (map_err-ne-panic _ _ (hex q.salt))
                λ salt _.
                  bind-ne-panic (map_err KeystoreError.hex (crypto.hex_decode c.cipherparams.iv)) _
                    (map_err-ne-panic _ _ (hex c.cipherparams.iv))
                    λ iv _.
                      bind-ne-panic (map_err KeystoreError.hex (crypto.hex_decode c.ciphertext)) _
                        (map_err-ne-panic _ _ (hex c.ciphertext))
                        λ ct _.
                          bind-ne-panic
                            (map_err KeystoreError.hex (crypto.hex_decode c.mnemonic_encrypted)) _
                            (map_err-ne-panic _ _ (hex c.mnemonic_encrypted))
                            λ mct _.
                              bind-ne-panic (derive_key crates password salt q.n q.r q.p q.dklen) _
                                (derive_key-ne-panic crates kdf password salt q.n q.r q.p q.dklen
                                  fits)
                                λ derived dk.
                                  let size =
                                    length-derive_key crates kdf password salt q.n q.r q.p q.dklen
                                      derived fits dk in
                                  bind-ne-panic (slice_from derived 16) _
                                    (slice_from-ne-panic derived 16 (omega arith))
                                    λ mk _.
                                      bind-ne-panic
                                        (guard
                                          (list_eq (keccak256_hex crypto crates (mk ++ ct)) c.mac)
                                          invalid_password)
                                        _ (guard-ne-panic _ _)
                                        λ _ _.
                                          bind-ne-panic (slice_to derived (key_len spec)) _
                                            (slice_to-ne-panic derived (key_len spec) (omega arith))
                                            λ key _.
                                              bind-ne-panic (decrypt crates spec key iv ct) _
                                                (decrypt-ne-panic crates spec key iv ct)
                                                λ private _.
                                                  bind-ne-panic (decrypt crates spec key iv mct) _
                                                    (decrypt-ne-panic crates spec key iv mct)
                                                    λ mnemonic _ h. cc
