-- ===== src/Crypto/Address/Conversions.antt =====
-- Addresses as bytes, as base58check texts and as protobuf messages.
use aelf_web3_rust.Base.{◌≡◌, [], ◌∷◌, ◌++◌, arith, All, ok, length}
use aelf_web3_rust.Base.Text.{Text, Bytes, IsBytes}
use aelf_web3_rust.Base.Text.Ascii.{IsAlphanumeric}
use aelf_web3_rust.Base.Text.Split.{Lacks}
use aelf_web3_rust.Crypto.Crates.{Crates, Bs58Laws, Sha256Laws}
use aelf_web3_rust.Crypto.Proto.{Address}
use aelf_web3_rust.Crypto.Base58.{checksum, base58check_encode}
use aelf_web3_rust.Crypto.Base58.RoundTrip.{base58check_decode-base58check_encode}
use aelf_web3_rust.Crypto.Address.{
  decode_address, address_to_pb, pb_to_address, address_from_public_key,
}
use aelf_web3_rust.Crypto.Address.Formatted.{
  Formatted, parse_aelf_address-Formatted, parse_aelf_address-Lacks,
}

alphanumeric-Lacks : (t : Text) → All IsAlphanumeric t → Lacks b'_' t
alphanumeric-Lacks [] h = tt
alphanumeric-Lacks (c ∷ t) h = ((λ e. ground arith), alphanumeric-Lacks t h.1)

module _ (crates : Crates) (bs58 : Bs58Laws crates) (sha : Sha256Laws crates) where
  -- With the documented behaviour of bs58 and SHA-256, the base58check text of some bytes is decoded to
  -- those bytes.
  pub decode_address-base58check_encode :
      (p : Bytes) → IsBytes p → decode_address crates (base58check_encode crates p) ≡ ok p
  unfolding decode_address base58check_encode
  decode_address-base58check_encode p h =
      rw
        (parse_aelf_address-Lacks _
          (alphanumeric-Lacks _ (bs58.encode_alphabet (p ++ checksum crates p))))
        (base58check_decode-base58check_encode crates sha bs58 p h)

  -- With the documented behaviour of bs58 and SHA-256, a formatted address around the base58check text
  -- of a byte string is decoded to that byte string.
  pub decode_address-Formatted :
      (p : Bytes) (value : Text)
      → IsBytes p
      → Formatted value (base58check_encode crates p)
      → decode_address crates value ≡ ok p
  unfolding decode_address
  decode_address-Formatted p value h f =
      rw (parse_aelf_address-Formatted value _ f)
        (base58check_decode-base58check_encode crates sha bs58 p h)

  -- With the documented behaviour of bs58 and SHA-256, an address message whose value is a byte string
  -- survives the way to its text and back.
  pub address_to_pb-pb_to_address :
      (a : Address) → IsBytes a.value → address_to_pb crates (pb_to_address crates a) ≡ ok a
  unfolding address_to_pb pb_to_address
  address_to_pb-pb_to_address a h = rw (decode_address-base58check_encode a.value h)

  -- With the documented behaviour of bs58 and SHA-256, the address of a public key decodes to the
  -- double SHA-256 of the key, 32 bytes.
  pub decode_address-address_from_public_key :
      (k : Bytes)
      → (decode_address crates (address_from_public_key crates k)
          ≡ ok (crates.sha256 (crates.sha256 k)))
        × (length (crates.sha256 (crates.sha256 k)) ≡ 32)
  unfolding address_from_public_key
  decode_address-address_from_public_key k = (
    decode_address-base58check_encode _ (sha.digest_bytes (crates.sha256 k)),
    sha.digest_length (crates.sha256 k),
  )
