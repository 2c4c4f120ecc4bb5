-- ===== src/Keystore/Seal.antt =====
-- crates/aelf-keystore/src/lib.rs: `Keystore::encrypt_js_with_options`, `encrypt_js`, `unlock_js` and
-- `check_password`. The random source is an argument.
pub mod Unlock
pub mod Guards
use aelf_web3_rust.Base.{
  ℕ, [], ◌++◌, Bool, not, Option, none, some, Result, ok, err, panic, ◌>>=◌, ◌>>◌, guard, map_err,
  is_ok, slice_to, slice_from, list_eq, if◌then◌else◌,
}
use aelf_web3_rust.Base.Text.{Text, Bytes, codes, as_bytes, unwrap_or}
use aelf_web3_rust.Base.Text.Utf8.{from_utf8_lossy}
use aelf_web3_rust.Crypto.Crates.{Crates}
use aelf_web3_rust.Crypto.Wallet.{Wallet}
use aelf_web3_rust.Keystore.Types.{
  KeystoreError, KeystoreResult, invalid_password, Keystore, UnlockedKeystore,
  KeystoreEncryptOptions, default_options,
}
use aelf_web3_rust.Keystore.Crates.{KeystoreCrates}
use aelf_web3_rust.Keystore.Cipher.{parse, as_str, key_len, iv_len, encrypt, decrypt}
use aelf_web3_rust.Keystore.Kdf.{ensure_derived_key_len, derive_key}

module _ (crypto : Crates) (crates : KeystoreCrates) where
  open crypto use {hex_encode, hex_decode}
  open crates use {keccak256, Rng, random_bytes}

  abbrev pub keccak256_hex : Bytes → Text
  keccak256_hex bytes = hex_encode (keccak256 bytes)

  -- `.unwrap_or_else(|| random_bytes(len))`, with the random source after it.
  abbrev pub or_random : Option Bytes → ℕ → Rng → Bytes × Rng
  or_random none len rng = random_bytes rng len
  or_random (some bytes) len rng = (bytes, rng)

  unfoldable pub encrypt_js_with_options :
      Wallet → Text → KeystoreEncryptOptions → Rng → KeystoreResult Keystore
  encrypt_js_with_options wallet password options rng = do
    spec ← parse options.cipher
    ensure_derived_key_len options.dklen spec
    let salted = or_random options.salt 32 rng
    let salt = salted.0
    let iv = (or_random options.iv (iv_len spec) salted.1).0
    derived_key ← derive_key crates password salt options.n options.r options.p options.dklen
    private_key ← map_err KeystoreError.hex (hex_decode wallet.private_key)
    key ← slice_to derived_key (key_len spec)
    private_key_ciphertext ← encrypt crates spec key iv private_key
    mnemonic_ciphertext ← encrypt crates spec key iv (as_bytes wallet.mnemonic)
    mac_key ← slice_from derived_key 16
    let raw_mac = mac_key ++ private_key_ciphertext
    ok (record {
      version = 1;
      kind = codes "aelf";
      nick_name = unwrap_or options.nick_name [];
      id = none;
      address = unwrap_or options.address wallet.address;
      crypto = record {
        cipher = as_str spec;
        ciphertext = hex_encode private_key_ciphertext;
        cipherparams = record { iv = hex_encode iv };
        mnemonic_encrypted = hex_encode mnemonic_ciphertext;
        kdf = codes "scrypt";
        kdfparams = record {
          r = options.r;
          n = options.n;
          p = options.p;
          dklen = options.dklen;
          salt = hex_encode salt;
        };
        mac = keccak256_hex raw_mac;
      };
    })

  unfoldable pub encrypt_js : Wallet → Text → Rng → KeystoreResult Keystore
  unfolding encrypt_js_with_options
  encrypt_js wallet password rng = encrypt_js_with_options wallet password default_options rng

  unfoldable pub unlock_js : Keystore → Text → KeystoreResult UnlockedKeystore
  unlock_js keystore password = do
    let crypto = keystore.crypto
    spec ← parse crypto.cipher
    ensure_derived_key_len crypto.kdfparams.dklen spec
    salt ← map_err KeystoreError.hex (hex_decode crypto.kdfparams.salt)
    iv ← map_err KeystoreError.hex (hex_decode crypto.cipherparams.iv)
    ciphertext ← map_err KeystoreError.hex (hex_decode crypto.ciphertext)
    mnemonic_ciphertext ← map_err KeystoreError.hex (hex_decode crypto.mnemonic_encrypted)
    let params = crypto.kdfparams
    derived_key ← derive_key crates password salt params.n params.r params.p params.dklen
    mac_key ← slice_from derived_key 16
    let raw_mac = mac_key ++ ciphertext
    guard (list_eq (keccak256_hex raw_mac) crypto.mac) invalid_password
    key ← slice_to derived_key (key_len spec)
    private_key ← decrypt crates spec key iv ciphertext
    mnemonic ← decrypt crates spec key iv mnemonic_ciphertext
    ok (record {
      nick_name = keystore.nick_name;
      address = keystore.address;
      mnemonic = from_utf8_lossy mnemonic;
      private_key = hex_encode private_key;
    })

  unfoldable pub check_password : Keystore → Text → Bool
  unfolding unlock_js
  check_password keystore password = is_ok (unlock_js keystore password)
