-- ===== src/Crypto/Base58.antt =====
-- crates/aelf-crypto/src/lib.rs: `sha256_bytes`, `base58check_encode` and `base58check_decode`.
pub mod RoundTrip
use aelf_web3_rust.Base.{
  ◌-◌, ◌++◌, Result, err, ok, ◌>>=◌, ◌>>◌, guard, map_err, ltb, not, list_eq, length, take, drop,
}
use aelf_web3_rust.Base.Text.{Text, Bytes}
use aelf_web3_rust.Crypto.Error.{CryptoResult, invalid_address}
use aelf_web3_rust.Crypto.Crates.{Crates}

module _ (crates : Crates) where
  open crates use {bs58_encode, bs58_decode, sha256}

  abbrev pub sha256_bytes : Bytes → Bytes
  sha256_bytes bytes = sha256 bytes

  -- `&sha256_bytes(&sha256_bytes(payload))[..4]`.
  abbrev pub checksum : Bytes → Bytes
  checksum payload = take 4 (sha256_bytes (sha256_bytes payload))

  unfoldable pub base58check_encode : Bytes → Text
  base58check_encode payload = bs58_encode (payload ++ checksum payload)

  -- The checks on the decoded bytes.
  unfoldable pub check_payload : Bytes → CryptoResult Bytes
  unfolding list_eq
  check_payload bytes = do
    guard (not (ltb (length bytes) 4)) invalid_address
    let payload = take (length bytes - 4) bytes
    guard (list_eq (drop (length bytes - 4) bytes) (checksum payload)) invalid_address
    ok payload

  unfoldable pub base58check_decode : Text → CryptoResult Bytes
  unfolding check_payload
  base58check_decode value = do
    bytes ← map_err (λ _. invalid_address) (bs58_decode value)
    check_payload bytes
