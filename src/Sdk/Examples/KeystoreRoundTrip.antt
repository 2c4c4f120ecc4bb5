-- ===== src/Sdk/Examples/KeystoreRoundTrip.antt =====
-- crates/aelf-sdk/examples/wallet_keystore_roundtrip.rs.
use aelf_web3_rust.Base.{
  ◌≡◌, [], ◌∷◌, ◌++◌, List, Result, ok, panic, map_err, list_eq, list_eq_refl, if◌then◌else◌, All,
}
use aelf_web3_rust.Base.Async.{Async, ◌>>=◌, ◌>>◌, lift}
use aelf_web3_rust.Base.Text.{Text, codes}
use aelf_web3_rust.Base.Text.Utf8.{IsScalar}
use aelf_web3_rust.Crypto.Crates.{Crates, HexLaws, EcdsaLaws}
use aelf_web3_rust.Crypto.Error.{CryptoError}
use aelf_web3_rust.Crypto.Wallet.{Wallet, create, default_bip44_path}
use aelf_web3_rust.Crypto.Wallet.Restore.{create_with_path-IsWallet}
use aelf_web3_rust.Keystore.Crates.{KeystoreCrates, CipherLaws, RngLaws}
use aelf_web3_rust.Keystore.Types.{Keystore, KeystoreError, default_options}
use aelf_web3_rust.Keystore.Seal.{encrypt_js, unlock_js}
use aelf_web3_rust.Keystore.Seal.Unlock.{unlock_js-encrypt_js_with_options}

-- `Box<dyn Error>`, by where the error comes from.
pub data RoundTripError : Type 0 where
  wallet_error : CryptoError → RoundTripError
  keystore_error : KeystoreError → RoundTripError

-- `assert_eq!` of two texts.
abbrev pub assert_eq : Text → Text → Result RoundTripError (Unit {0})
assert_eq s t = if list_eq s t then ok tt else panic

abbrev println : Text → Async RoundTripError (List Text) (Unit {0})
println line out = (ok tt, out ++ line ∷ [])

module _ (crypto : Crates) (crates : KeystoreCrates) where
  -- The state is what has been printed.
  unfoldable pub roundtrip_main :
      crypto.Rng → crates.Rng → Async RoundTripError (List Text) (Unit {0})
  unfolding create encrypt_js unlock_js
  roundtrip_main wallet_rng keystore_rng = do
    wallet ← lift (map_err wallet_error (create crypto wallet_rng))
    keystore ←
        lift
          (map_err keystore_error (encrypt_js crypto crates wallet (codes "123123") keystore_rng))
    unlocked ← lift (map_err keystore_error (unlock_js crypto crates keystore (codes "123123")))
    println (codes "address=" ++ unlocked.address)
    println (codes "keystore_roundtrip=ok")
    println (codes "warning=private_key_and_mnemonic_are_intentionally_redacted")
    lift (assert_eq wallet.private_key unlocked.private_key)
    lift (assert_eq wallet.mnemonic unlocked.mnemonic)

  -- With the documented behaviour of hex, the ECDSA crates, the ciphers and the random source: where a
  -- wallet is created whose mnemonic is of Unicode scalar values and sealing it under the password
  -- succeeds, the example ends without a panic, so that both of its assertions hold, and prints the
  -- address of the wallet.
  pub roundtrip_main_lem :
      HexLaws crypto
      → EcdsaLaws crypto
      → CipherLaws crates
      → RngLaws crates
      → (wallet_rng : crypto.Rng) (keystore_rng : crates.Rng) (wallet : Wallet)
        (keystore : Keystore)
      → create crypto wallet_rng ≡ ok wallet
      → All IsScalar wallet.mnemonic
      → encrypt_js crypto crates wallet (codes "123123") keystore_rng ≡ ok keystore
      → roundtrip_main wallet_rng keystore_rng [] ≡ (
        ok tt,
        (codes "address=" ++ wallet.address)
            ∷ codes "keystore_roundtrip=ok"
            ∷ codes "warning=private_key_and_mnemonic_are_intentionally_redacted"
            ∷ [],
      )
  unfolding roundtrip_main create encrypt_js
  roundtrip_main_lem hex ecdsa cipher random wallet_rng keystore_rng wallet keystore created scalar
        sealed =
      let whole = create_with_path-IsWallet crypto wallet_rng default_bip44_path wallet created in
      let unlocks =
        unlock_js-encrypt_js_with_options crypto crates hex ecdsa cipher random wallet
          (codes "123123") default_options keystore_rng keystore whole scalar tt tt sealed in
      rw (created, sealed, unlocks, list_eq_refl wallet.private_key, list_eq_refl wallet.mnemonic)
