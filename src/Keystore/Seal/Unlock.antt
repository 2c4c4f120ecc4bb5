-- ===== src/Keystore/Seal/Unlock.antt =====
-- Unlocking with the password undoes sealing.
use aelf_web3_rust.Base.{
  ℕ, ◌≡◌, refl, sym, ap, subst, ◌∙◌, [], ◌++◌, Option, none, some, ok, ok-injective, bind_ok,
  map_err, map_err-eq-ok, slice_to, slice_from, list_eq_refl, All,
}
use aelf_web3_rust.Base.Text.{Text, Bytes, IsBytes, as_bytes, unwrap_or}
use aelf_web3_rust.Base.Text.Utf8.{IsScalar, from_utf8_lossy-as_bytes, as_bytes-IsBytes}
use aelf_web3_rust.Crypto.Crates.{Crates, HexLaws, EcdsaLaws}
use aelf_web3_rust.Crypto.Wallet.{Wallet}
use aelf_web3_rust.Crypto.Wallet.Restore.{IsWallet}
use aelf_web3_rust.Keystore.Types.{KeystoreError, KeystoreResult, Keystore, KeystoreEncryptOptions}
use aelf_web3_rust.Keystore.Crates.{KeystoreCrates, CipherLaws, RngLaws}
use aelf_web3_rust.Keystore.Cipher.{CipherSpec, parse, as_str, key_len, encrypt}
use aelf_web3_rust.Keystore.Cipher.Names.{parse-own_name}
use aelf_web3_rust.Keystore.Cipher.RoundTrip.{cipher_lem}
use aelf_web3_rust.Keystore.Kdf.{ensure_derived_key_len, derive_key}
use aelf_web3_rust.Keystore.Seal.{keccak256_hex, or_random, encrypt_js_with_options, unlock_js}

-- Bytes that are given are bytes.
abbrev pub IsBytesIfGiven : Option Bytes → Type 0
IsBytesIfGiven none = Unit
IsBytesIfGiven (some bytes) = IsBytes bytes

module _ (crypto : Crates) (crates : KeystoreCrates) where
  open crypto use {hex_encode, hex_decode}
  open crates use {Rng, random_bytes}

  or_random-IsBytes :
      RngLaws crates
      → (o : Option Bytes) (n : ℕ) (rng : Rng) → IsBytesIfGiven o
      → IsBytes (or_random crypto crates o n rng).0
  or_random-IsBytes laws none n rng h = laws.random_IsBytes rng n
  or_random-IsBytes laws (some b) n rng h = h

  -- The steps of unlocking, each with what sealing has computed for it.
  reopen :
      HexLaws crypto
      → CipherLaws crates
      → (wallet : Wallet) (password : Text) (keystore : Keystore) (spec : CipherSpec)
        (salt iv derived private key ct mct mac_key : Bytes)
      → All IsScalar wallet.mnemonic
      → (IsBytes salt × IsBytes iv × IsBytes private)
      → hex_encode private ≡ wallet.private_key
      → keystore.crypto.cipher ≡ as_str spec
      → ensure_derived_key_len keystore.crypto.kdfparams.dklen spec ≡ ok tt
      → (keystore.crypto.kdfparams.salt ≡ hex_encode salt)
        × (keystore.crypto.cipherparams.iv ≡ hex_encode iv)
        × (keystore.crypto.ciphertext ≡ hex_encode ct)
        × (keystore.crypto.mnemonic_encrypted ≡ hex_encode mct)
        × (keystore.crypto.mac ≡ keccak256_hex crypto crates (mac_key ++ ct))
      → derive_key crates password salt keystore.crypto.kdfparams.n keystore.crypto.kdfparams.r
          keystore.crypto.kdfparams.p keystore.crypto.kdfparams.dklen
        ≡ ok derived
      → ◌≡◌ {A = KeystoreResult Bytes} (slice_from derived 16) (ok mac_key)
      → ◌≡◌ {A = KeystoreResult Bytes} (slice_to derived (key_len spec)) (ok key)
      → encrypt crates spec key iv private ≡ ok ct
      → encrypt crates spec key iv (as_bytes wallet.mnemonic) ≡ ok mct
      → unlock_js crypto crates keystore password
        ≡ ok (record {
          nick_name = keystore.nick_name;
          address = keystore.address;
          mnemonic = wallet.mnemonic;
          private_key = wallet.private_key;
        })
  unfolding unlock_js
  reopen hex cipher wallet password keystore spec salt iv derived private key ct mct mac_key scalar
        (bs, bi, bp) same named long (es, ei, ec, em, mac) dk mm kk sealed sealed' =
      let (opens, bc) = cipher_lem crates cipher spec key iv private ct sealed in
      let (opens', bm) =
        cipher_lem crates cipher spec key iv (as_bytes wallet.mnemonic) mct sealed' in
      let text = from_utf8_lossy-as_bytes wallet.mnemonic scalar in
      rw (
        named,
        parse-own_name spec,
        long,
        es,
        hex.decode_encode salt bs,
        ei,
        hex.decode_encode iv bi,
        ec,
        hex.decode_encode ct (bc bp),
        em,
        hex.decode_encode mct (bm (as_bytes-IsBytes wallet.mnemonic scalar)),
        dk,
        mm,
        mac,
        list_eq_refl (keccak256_hex crypto crates (mac_key ++ ct)),
        kk,
        opens,
        opens',
        text,
        same,
      )

  -- With the documented behaviour of the other crates, take a wallet whose keys and address come from
  -- one signing key, with a mnemonic of Unicode scalar values, and options whose salt and IV, if given,
  -- are bytes. A keystore that was sealed from it under a password is unlocked by that password to the
  -- wallet's mnemonic and private key, and to the nickname and the address of the options where they
  -- are given, else to the empty nickname and the wallet's address; this holds for every cipher and all
  -- scrypt parameters.
  pub unlock_js-encrypt_js_with_options :
      HexLaws crypto
      → EcdsaLaws crypto
      → CipherLaws crates
      → RngLaws crates
      → (wallet : Wallet) (password : Text) (options : KeystoreEncryptOptions) (rng : Rng)
        (keystore : Keystore)
      → IsWallet crypto wallet
      → All IsScalar wallet.mnemonic
      → IsBytesIfGiven options.salt
      → IsBytesIfGiven options.iv
      → encrypt_js_with_options crypto crates wallet password options rng ≡ ok keystore
      → unlock_js crypto crates keystore password
        ≡ ok (record {
          nick_name = unwrap_or options.nick_name [];
          address = unwrap_or options.address wallet.address;
          mnemonic = wallet.mnemonic;
          private_key = wallet.private_key;
        })
  unfolding encrypt_js_with_options
  unlock_js-encrypt_js_with_options hex ecdsa cipher random wallet password options rng keystore w
        scalar bs bi h =
      bind_ok (parse options.cipher) _ h λ spec _ h₁.
        bind_ok (ensure_derived_key_len options.dklen spec) _ h₁ λ _ long h₂.
          bind_ok (derive_key crates password _ options.n options.r options.p options.dklen) _ h₂
            λ derived dk h₃.
              bind_ok (map_err KeystoreError.hex (hex_decode wallet.private_key)) _ h₃
                λ private pk h₄. bind_ok (slice_to derived (key_len spec)) _ h₄ λ key kk h₅.
                  bind_ok (encrypt crates spec key _ private) _ h₅ λ ct sealed h₆.
                    bind_ok (encrypt crates spec key _ (as_bytes wallet.mnemonic)) _ h₆
                      λ mct sealed' h₇. bind_ok (slice_from derived 16) _ h₇ λ mk mm h₈.
                        let back = hex.decode_encode _ (ecdsa.key_bytes w.key) in
                        let decoded = map_err-eq-ok KeystoreError.hex _ pk in
                        let bp = hex.decode_bytes wallet.private_key private decoded in
                        let same : hex_encode private ≡ wallet.private_key =
                          ap hex_encode
                            (ok-injective (sym decoded ∙ ap hex_decode w.private_key_of ∙ back))
                          ∙ sym w.private_key_of in
                        let salted = or_random crypto crates options.salt 32 rng in
                        subst
                          (λ k.
                            unlock_js crypto crates k password
                            ≡ ok (record {
                              nick_name = unwrap_or options.nick_name [];
                              address = unwrap_or options.address wallet.address;
                              mnemonic = wallet.mnemonic;
                              private_key = wallet.private_key;
                            }))
                          (ok-injective h₈)
                          (reopen hex cipher wallet password _ spec salted.0
                            (or_random crypto crates options.iv 16 salted.1).0 derived private key
                            ct mct mk scalar
                            (
                              or_random-IsBytes random options.salt 32 rng bs,
                              or_random-IsBytes random options.iv 16 salted.1 bi,
                              bp,
                            )
                            same refl long (refl, refl, refl, refl, refl) dk mm kk sealed sealed')
