-- ===== src/Crypto/Address.antt =====
-- crates/aelf-crypto/src/lib.rs: `parse_aelf_address`, `decode_address`, `address_from_public_key` and the
-- conversions to and from the protobuf messages.
pub mod Formatted
pub mod Conversions
use aelf_web3_rust.Base.{List, [], ◌∷◌, Option, none, some, ok, ◌>>=◌, if◌then◌else◌}
use aelf_web3_rust.Base.Text.{Text, Bytes, is_empty, unwrap_or}
use aelf_web3_rust.Base.Text.Split.{split}
use aelf_web3_rust.Crypto.Error.{CryptoResult}
use aelf_web3_rust.Crypto.Crates.{Crates}
use aelf_web3_rust.Crypto.Proto.{Address, Hash}
use aelf_web3_rust.Crypto.Base58.{sha256_bytes, base58check_encode, base58check_decode}

-- The match on the first four parts, with its guard.
unfoldable pub middle_part : List Text → Option Text
middle_part (prefix ∷ address ∷ chain_id ∷ []) = if is_empty address then none else some address
middle_part _ = none

unfoldable pub parse_aelf_address : Text → Text
unfolding middle_part split
parse_aelf_address value = unwrap_or (middle_part (split value b'_')) value

unfoldable pub hash_to_pb : Bytes → Hash
hash_to_pb bytes = record { value = bytes }

module _ (crates : Crates) where
  unfoldable pub address_from_public_key : Bytes → Text
  address_from_public_key public_key =
      let first = sha256_bytes crates public_key in
      let second = sha256_bytes crates first in base58check_encode crates second

  unfoldable pub decode_address : Text → CryptoResult Bytes
  decode_address address = base58check_decode crates (parse_aelf_address address)

  unfoldable pub address_to_pb : Text → CryptoResult Address
  unfolding decode_address
  address_to_pb address = do value ← decode_address address; ok (record { value = value })

  unfoldable pub pb_to_address : Address → Text
  pb_to_address address = base58check_encode crates address.value
