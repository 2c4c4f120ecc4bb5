-- ===== src/Keystore/Kdf.antt =====
-- crates/aelf-keystore/src/lib.rs: `derive_key`, `derive_key_compat` and `ensure_derived_key_len`.
pub mod Length
use Prim.Native.Nat.{max}
use aelf_web3_rust.Base.{
  ℕ, Bool, not, ◌||◌, Option, none, some, Result, ok, err, panic, ◌>>=◌, ◌>>◌, guard, map_err, ltb,
  ◌==◌, if◌then◌else◌,
}
use aelf_web3_rust.Base.Text.{Text, Bytes, as_bytes}
use aelf_web3_rust.Base.Word.{is_power_of_two, ilog2}
use aelf_web3_rust.Keystore.Types.{KeystoreResult, invalid_scrypt_params}
use aelf_web3_rust.Keystore.Crates.{KeystoreCrates}
use aelf_web3_rust.Keystore.Cipher.{CipherSpec, key_len}
use aelf_web3_rust.Keystore.Scrypt.{zeroed, new_params, compat_scrypt}

unfoldable pub ensure_derived_key_len : ℕ → CipherSpec → KeystoreResult Unit
ensure_derived_key_len dklen spec = do
  let minimum = max 16 (key_len spec)
  guard (not (ltb dklen minimum)) invalid_scrypt_params

module _ (crates : KeystoreCrates) where
  open crates use {scrypt_params, scrypt}

  unfoldable pub derive_key_compat : Text → Bytes → ℕ → ℕ → ℕ → ℕ → KeystoreResult Bytes
  derive_key_compat password salt n r p dklen = do
    params ← new_params n r p dklen
    compat_scrypt crates (as_bytes password) salt params

  -- Parameters that the scrypt crate rejects go to the crate's own scrypt.
  unfoldable pub derive_key : Text → Bytes → ℕ → ℕ → ℕ → ℕ → KeystoreResult Bytes
  unfolding derive_key_compat zeroed
  derive_key password salt n r p dklen = do
    guard (not (not (is_power_of_two n) || n == 0 || r == 0 || p == 0 || dklen == 0))
        invalid_scrypt_params
    elim (scrypt_params (ilog2 n) r p dklen) [
      | some params ↦ do
        _ ← zeroed dklen
        map_err (λ _. invalid_scrypt_params) (scrypt (as_bytes password) salt params dklen)
      | none ↦ derive_key_compat password salt n r p dklen
    ]
