-- ===== src/Tests/Keystore.antt =====
-- aelf-keystore at concrete inputs.
use aelf_web3_rust.Base.{
  ◌*◌, ◌^◌, ◌≡◌, ◌≢◌, ◌↔◌, refl, inl, [], ◌∷◌, ◌++◌, none, true, ok, err, panic, length, All,
  replicate, drop, list_eq, All-replicate, arith,
}
use aelf_web3_rust.Base.Text.{Bytes, codes, as_bytes}
use aelf_web3_rust.Base.Text.Utf8.{IsScalar}
use aelf_web3_rust.Base.Word.{is_power_of_two}
use aelf_web3_rust.Crypto.Wallet.{Wallet, default_bip44_path, from_signing_key}
use aelf_web3_rust.Crypto.Wallet.Restore.{IsWallet}
use aelf_web3_rust.Keystore.Types.{
  Keystore, KeystoreResult, KeystoreEncryptOptions, UnlockedKeystore, default_options,
  invalid_password,
}
use aelf_web3_rust.Keystore.Cipher.{aes256_cbc, parse, encrypt}
use aelf_web3_rust.Keystore.Scrypt.{
  CompatScryptParams, new_params, compat_scrypt, compat_scrypt_ro_mix, compat_scrypt_block_mix,
}
use aelf_web3_rust.Keystore.Scrypt.BlockMix.{block_mix, compat_scrypt_block_mix_lem}
use aelf_web3_rust.Keystore.Scrypt.RoMix.{ro_mix, compat_scrypt_ro_mix_lem}
use aelf_web3_rust.Keystore.Scrypt.Total.{
  IsSafe, FitsMemory, new_params_iff, compat_scrypt_lem, scrypt_rfc7914,
}
use aelf_web3_rust.Keystore.Kdf.{derive_key, ensure_derived_key_len}
use aelf_web3_rust.Keystore.Seal.{encrypt_js_with_options, unlock_js, keccak256_hex}
use aelf_web3_rust.Keystore.Seal.Unlock.{unlock_js-encrypt_js_with_options}
use aelf_web3_rust.Keystore.Seal.Guards.{
  unlock_js-mac, encrypt_js_with_options-ne-panic, unlock_js-ne-panic,
}
use aelf_web3_rust.Keystore.Seal.{encrypt_js}
use aelf_web3_rust.Crypto.Wallet.{create}
use aelf_web3_rust.Sdk.Examples.KeystoreRoundTrip.{roundtrip_main, roundtrip_main_lem}
use aelf_web3_rust.Stubs.Hex.{decode-ne-panic}
use aelf_web3_rust.Stubs.Crypto.{toy, toy-HexLaws, toy-EcdsaLaws}
use aelf_web3_rust.Stubs.Keystore.{toy_keystore, toy-CipherLaws, toy-KdfLaws, toy-RngLaws}

abbrev wallet : Wallet
wallet = from_signing_key toy true (codes "word") default_bip44_path

abbrev wallet-IsWallet : IsWallet toy wallet
unfolding from_signing_key
wallet-IsWallet = record {
  key = true;
  private_key_of = refl;
  public_key_of = refl;
  address_of = refl;
}

abbrev options : KeystoreEncryptOptions
options = record default_options { n = 2; r = 1 }

abbrev value_or : Keystore → KeystoreResult Keystore → Keystore
value_or d (ok k) = k
value_or d (err e) = d
value_or d panic = d

abbrev no_keystore : Keystore
no_keystore = record {
  version = 0;
  kind = [];
  nick_name = [];
  id = none;
  address = [];
  crypto = record {
    cipher = [];
    ciphertext = [];
    cipherparams = record { iv = [] };
    mnemonic_encrypted = [];
    kdf = [];
    kdfparams = record { r = 0; n = 0; p = 0; dklen = 0; salt = [] };
    mac = [];
  };
}

abbrev sealed : Keystore
sealed =
    value_or no_keystore (encrypt_js_with_options toy toy_keystore wallet (codes "pw") options 7)

seals : encrypt_js_with_options toy toy_keystore wallet (codes "pw") options 7 ≡ ok sealed
unfolding encrypt_js_with_options from_signing_key parse ensure_derived_key_len derive_key
    is_power_of_two as_bytes encrypt
seals = refl

abbrev unlocked : UnlockedKeystore
unlocked = record {
  nick_name = [];
  address = wallet.address;
  mnemonic = wallet.mnemonic;
  private_key = wallet.private_key;
}

scalars : All IsScalar wallet.mnemonic
unfolding from_signing_key
scalars = (
  (omega arith, inl (omega arith)),
  (
    (omega arith, inl (omega arith)),
    ((omega arith, inl (omega arith)), ((omega arith, inl (omega arith)), tt)),
  ),
)

unlock_js-encrypt_js_with_options_example :
    unlock_js toy toy_keystore sealed (codes "pw") ≡ ok unlocked
unlock_js-encrypt_js_with_options_example =
    unlock_js-encrypt_js_with_options toy toy_keystore toy-HexLaws toy-EcdsaLaws toy-CipherLaws
      toy-RngLaws wallet (codes "pw") options 7 sealed wallet-IsWallet scalars tt tt seals

-- Another password is refused.
wrong_password : unlock_js toy toy_keystore sealed (codes "pwx") ≡ err invalid_password
unfolding encrypt_js_with_options from_signing_key parse ensure_derived_key_len derive_key
    is_power_of_two as_bytes encrypt unlock_js list_eq
wrong_password = refl

unlock_js-mac_example :
    (salt ciphertext derived_key : Bytes) × (toy.hex_decode sealed.crypto.kdfparams.salt ≡ ok salt)
    × (toy.hex_decode sealed.crypto.ciphertext ≡ ok ciphertext)
    × (derive_key toy_keystore
          (codes "pw")
          salt
          sealed.crypto.kdfparams.n
          sealed.crypto.kdfparams.r
          sealed.crypto.kdfparams.p
          sealed.crypto.kdfparams.dklen
        ≡ ok derived_key)
    × (sealed.crypto.mac ≡ keccak256_hex toy toy_keystore (drop 16 derived_key ++ ciphertext))
unlock_js-mac_example =
    unlock_js-mac toy toy_keystore sealed (codes "pw") unlocked
      unlock_js-encrypt_js_with_options_example

encrypt_js_with_options-ne-panic_example :
    encrypt_js_with_options toy toy_keystore wallet (codes "pw") options 7 ≢ panic
encrypt_js_with_options-ne-panic_example =
    encrypt_js_with_options-ne-panic toy toy_keystore toy-KdfLaws decode-ne-panic wallet
      (codes "pw") options 7 (omega arith, (omega arith, omega arith), omega arith)

unlock_js-ne-panic_example : unlock_js toy toy_keystore no_keystore (codes "pw") ≢ panic
unlock_js-ne-panic_example =
    unlock_js-ne-panic toy toy_keystore toy-KdfLaws decode-ne-panic no_keystore (codes "pw")
      (omega arith, (omega arith, omega arith), omega arith)

abbrev key_32 : Bytes
key_32 = replicate 32 5

abbrev iv_16 : Bytes
iv_16 = replicate 16 9

encrypted : encrypt toy_keystore aes256_cbc key_32 iv_16 (1 ∷ 2 ∷ []) ≡ ok (16 ∷ 1 ∷ 2 ∷ [])
unfolding encrypt
encrypted = refl

abbrev block : Bytes
block = replicate 128 7

compat_scrypt_block_mix_lem_example :
    compat_scrypt_block_mix toy_keystore block (replicate 128 0) ≡ ok (block_mix toy_keystore block)
compat_scrypt_block_mix_lem_example =
    compat_scrypt_block_mix_lem toy_keystore toy-KdfLaws 1 block (replicate 128 0) (omega arith)
      refl refl

power_2 : is_power_of_two 2 ≡ true
unfolding is_power_of_two
power_2 = refl

compat_scrypt_ro_mix_lem_example :
    (v' t' : Bytes) × (compat_scrypt_ro_mix toy_keystore block (replicate 256 0) (replicate 128 0) 2
      ≡ ok (ro_mix toy_keystore 2 block, v', t'))
    × (length v' ≡ 2 * (128 * 1))
    × (length t' ≡ 128 * 1)
    × (length (ro_mix toy_keystore 2 block) ≡ 128 * 1)
compat_scrypt_ro_mix_lem_example =
    compat_scrypt_ro_mix_lem toy_keystore toy-KdfLaws 1 (omega arith) 2 block (replicate 256 0)
      (replicate 128 0) (power_2, omega arith) (refl, refl, refl)

abbrev params : CompatScryptParams
params = record { n = 2; r = 1; p = 2; dklen = 32 }

accepted : new_params 2 1 2 32 ≡ ok params
unfolding new_params is_power_of_two
accepted = refl

compat_scrypt_lem_example :
    (FitsMemory 2 1 2
      → (compat_scrypt toy_keystore (codes "pw") iv_16 params
          ≡ ok (scrypt_rfc7914 toy_keystore toy-KdfLaws (codes "pw") iv_16 params))
        × (length (scrypt_rfc7914 toy_keystore toy-KdfLaws (codes "pw") iv_16 params) ≡ 32))
    × (¬ FitsMemory 2 1 2 → compat_scrypt toy_keystore (codes "pw") iv_16 params ≡ panic)
compat_scrypt_lem_example =
    compat_scrypt_lem toy_keystore toy-KdfLaws (codes "pw") iv_16 2 1 2 32 params (omega arith)
      accepted

-- Accepted parameters whose store has 2 ^ 63 bytes.
large_accepted :
    new_params (2 ^ 31) (2 ^ 25) 1 32 ≡ ok (record { n = 2 ^ 31; r = 2 ^ 25; p = 1; dklen = 32 })
unfolding new_params is_power_of_two
large_accepted = refl

large_panics :
    compat_scrypt toy_keystore
      (codes "pw")
      iv_16
      (record { n = 2 ^ 31; r = 2 ^ 25; p = 1; dklen = 32 })
    ≡ panic
large_panics =
    (compat_scrypt_lem toy_keystore toy-KdfLaws (codes "pw") iv_16 (2 ^ 31) (2 ^ 25) 1 32 _
        (omega arith) large_accepted).1
      (λ (a, b). omega arith)

new_params_iff_example :
    (new_params 2 1 2 32 ≡ ok params)
    ↔ (IsSafe 2 1 2 32 × (record { n = 2; r = 1; p = 2; dklen = 32 } ≡ params))
new_params_iff_example = new_params_iff 2 1 2 32 params

derived :
    derive_key toy_keystore (codes "pw") iv_16 2 1 1 32 ≡ ok (iv_16 ++ codes "pw" ++ replicate 14 9)
unfolding derive_key is_power_of_two as_bytes
derived = refl

-- The mnemonic is twelve letters.
abbrev made : Wallet
made = from_signing_key toy true (replicate 12 b'a') default_bip44_path

creates : create toy 0 ≡ ok made
unfolding create
creates = refl

made_scalars : All IsScalar made.mnemonic
unfolding from_signing_key
made_scalars = All-replicate IsScalar 12 b'a' (omega arith, inl (omega arith))

abbrev sealed_js : Keystore
sealed_js = value_or no_keystore (encrypt_js toy toy_keystore made (codes "123123") 7)

seals_js : encrypt_js toy toy_keystore made (codes "123123") 7 ≡ ok sealed_js
unfolding encrypt_js encrypt_js_with_options from_signing_key parse ensure_derived_key_len
    derive_key is_power_of_two as_bytes encrypt
seals_js = refl

roundtrip_main_lem_example : roundtrip_main toy toy_keystore 0 7 [] ≡ (
  ok tt,
  (codes "address=" ++ made.address)
      ∷ codes "keystore_roundtrip=ok"
      ∷ codes "warning=private_key_and_mnemonic_are_intentionally_redacted"
      ∷ [],
)
roundtrip_main_lem_example =
    roundtrip_main_lem toy toy_keystore toy-HexLaws toy-EcdsaLaws toy-CipherLaws toy-RngLaws 0 7
      made sealed_js creates made_scalars seals_js
