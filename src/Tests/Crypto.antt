-- ===== src/Tests/Crypto.antt =====
-- aelf-crypto at concrete inputs.
use aelf_web3_rust.Base.{
  ◌<◌, ◌≡◌, ◌⊎◌, ◌↔◌, refl, inl, inr, [], ◌∷◌, ◌++◌, true, ok, err, length, replicate, list_eq,
  arith, false, Bool, ◌==◌, if◌then◌else◌,
}
use aelf_web3_rust.Base.Text.{Text, Bytes, codes, len}
use aelf_web3_rust.Base.Word.{pos, negsuc, i32_from_le_bytes}
use aelf_web3_rust.Base.Text.Split.{Lacks}
use aelf_web3_rust.Crypto.Error.{invalid_signature}
use aelf_web3_rust.Crypto.Proto.{Address}
use aelf_web3_rust.Crypto.Base58.{base58check_encode, base58check_decode}
use aelf_web3_rust.Crypto.Base58.RoundTrip.{
  base58check_decode-base58check_encode, base58check_encode-base58check_decode,
}
use aelf_web3_rust.Crypto.Address.{parse_aelf_address}
use aelf_web3_rust.Crypto.Address.Formatted.{Formatted, parse_aelf_address_cases}
use aelf_web3_rust.Crypto.ChainId.{
  chain_id_to_base58, base58_to_chain_id, base58_to_chain_id-chain_id_to_base58,
  chain_id_to_base58-base58_to_chain_id,
}
use aelf_web3_rust.Crypto.PrivateKey.{
  normalize_private_key_hex, normalize_private_key_hex-zeros, zeros, strip_0x, pad_64,
}
use aelf_web3_rust.Crypto.Signature.{sign_payload, verify_signature}
use aelf_web3_rust.Crypto.Signature.Verify.{verify_signature_iff, IsRecovered}
use aelf_web3_rust.Crypto.Wallet.{
  Wallet, default_bip44_path, from_private_key, from_mnemonic_with_path, create_with_path,
  from_signing_key, sign, signing_key,
}
use aelf_web3_rust.Crypto.Wallet.Restore.{
  IsWallet, create_with_path-from_mnemonic_with_path, from_private_key-private_key,
}
use aelf_web3_rust.Crypto.Wallet.Signing.{verify_signature-sign}
use aelf_web3_rust.Stubs.Crypto.{
  toy, toy-HexLaws, toy-Bip39Laws, toy-Bs58Laws, toy-Sha256Laws, toy-EcdsaLaws,
}

abbrev payload : Bytes
payload = 1 ∷ 2 ∷ 255 ∷ []

base58check_decode-base58check_encode_example :
    base58check_decode toy (base58check_encode toy payload) ≡ ok payload
base58check_decode-base58check_encode_example =
    base58check_decode-base58check_encode toy toy-Sha256Laws toy-Bs58Laws payload
      (omega arith, (omega arith, (omega arith, tt)))

-- The stand-in's checksum of the payload is its own first four bytes.
decoded : base58check_decode toy (codes "0102ff0102ff00") ≡ ok payload
unfolding base58check_decode
decoded = refl

base58check_encode-base58check_decode_example :
    base58check_encode toy payload ≡ codes "0102ff0102ff00"
base58check_encode-base58check_decode_example =
    (base58check_encode-base58check_decode toy toy-Bs58Laws (codes "0102ff0102ff00") payload
      decoded).0

base58_to_chain_id-chain_id_to_base58_example :
    base58_to_chain_id toy (chain_id_to_base58 toy (negsuc 4)) ≡ ok (negsuc 4)
base58_to_chain_id-chain_id_to_base58_example =
    base58_to_chain_id-chain_id_to_base58 toy toy-Bs58Laws (negsuc 4) (omega arith)

chain_read : base58_to_chain_id toy (codes "1b7a9800") ≡ ok (pos 9992731)
unfolding base58_to_chain_id i32_from_le_bytes
chain_read = refl

chain_id_to_base58-base58_to_chain_id_example :
    chain_id_to_base58 toy (pos 9992731) ≡ codes "1b7a9800"
chain_id_to_base58-base58_to_chain_id_example =
    (chain_id_to_base58-base58_to_chain_id toy toy-Bs58Laws (codes "1b7a9800") (pos 9992731)
      chain_read).0

abbrev sample : Wallet
sample = from_signing_key toy true (codes "word") default_bip44_path

abbrev sample-IsWallet : IsWallet toy sample
unfolding from_signing_key
sample-IsWallet = record {
  key = true;
  private_key_of = refl;
  public_key_of = refl;
  address_of = refl;
}

parse_aelf_address_cases_example :
    ((address : Text) × Formatted (codes "ELF_abc_AELF") address
      × (parse_aelf_address (codes "ELF_abc_AELF") ≡ address))
    ⊎ (((address : Text) → ¬ Formatted (codes "ELF_abc_AELF") address)
        × (parse_aelf_address (codes "ELF_abc_AELF") ≡ codes "ELF_abc_AELF"))
parse_aelf_address_cases_example = parse_aelf_address_cases (codes "ELF_abc_AELF")

parsed : parse_aelf_address (codes "ELF_abc_AELF") ≡ codes "abc"
unfolding parse_aelf_address
parsed = refl

abbrev address : Address
address = record { value = payload }

normalize_private_key_hex-zeros_example :
    (normalize_private_key_hex toy (zeros 3 ++ codes "1f")
      ≡ normalize_private_key_hex toy (codes "1f"))
    × (normalize_private_key_hex toy (codes "0x" ++ (zeros 3 ++ codes "1f"))
        ≡ normalize_private_key_hex toy (codes "1f"))
normalize_private_key_hex-zeros_example =
    normalize_private_key_hex-zeros toy 3 (codes "1f")
      (inl (omega arith, omega arith), (inr (inl (omega arith, omega arith)), tt)) (omega arith)

long : 64 < len (strip_0x (zeros 65))
unfolding len strip_0x
long = omega arith

abbrev sample_signature : Bytes
sample_signature = replicate 64 1 ++ 0 ∷ []

signed : sign toy sample payload ≡ ok sample_signature
unfolding sign from_signing_key signing_key normalize_private_key_hex pad_64 len strip_0x list_eq
    sign_payload
signed = refl

decoded_key : toy.hex_decode sample.public_key ≡ ok (4 ∷ 1 ∷ [])
unfolding from_signing_key
decoded_key = refl

verify_signature-sign_example :
    (length sample_signature ≡ 65)
    × (verify_signature toy (4 ∷ 1 ∷ []) payload sample_signature ≡ ok true)
verify_signature-sign_example =
    verify_signature-sign toy toy-HexLaws toy-EcdsaLaws sample payload sample_signature (4 ∷ 1 ∷ [])
      sample-IsWallet signed decoded_key

verify_signature_iff_example :
    (verify_signature toy (4 ∷ 1 ∷ []) payload sample_signature ≡ ok true)
    ↔ IsRecovered toy (4 ∷ 1 ∷ []) payload sample_signature
verify_signature_iff_example =
    verify_signature_iff toy toy-EcdsaLaws (4 ∷ 1 ∷ []) payload sample_signature

-- A signature with another recovery id is refused.
refused :
    verify_signature toy (4 ∷ 1 ∷ []) payload (replicate 64 1 ++ 5 ∷ []) ≡ err invalid_signature
unfolding verify_signature list_eq
refused = refl

from_private_key-private_key_example :
    (from_private_key toy sample.private_key
      ≡ ok (record sample { mnemonic = []; bip44_path = default_bip44_path }))
    × (from_private_key toy (codes "0x" ++ sample.private_key)
        ≡ ok (record sample { mnemonic = []; bip44_path = default_bip44_path }))
from_private_key-private_key_example =
    from_private_key-private_key toy toy-HexLaws toy-EcdsaLaws sample sample-IsWallet

abbrev created : Wallet
created = from_signing_key toy true (replicate 12 b'b') (codes "m/1")

creates : create_with_path toy 1 (codes "m/1") ≡ ok created
unfolding create_with_path
creates = refl

create_with_path-from_mnemonic_with_path_example :
    (m : Text) × (p : Text) × (toy.mnemonic_from_rng_with_count 1 12 ≡ ok m)
    × (toy.path_from_str (codes "m/1") ≡ ok p)
    × (created.mnemonic ≡ toy.to_phrase m)
    × (created.bip44_path ≡ toy.derivation_string p)
    × (from_mnemonic_with_path toy created.mnemonic created.bip44_path ≡ ok created)
    × IsWallet toy created
create_with_path-from_mnemonic_with_path_example =
    create_with_path-from_mnemonic_with_path toy toy-Bip39Laws 1 (codes "m/1") created creates

abbrev lacks : Text → Bool
lacks [] = true
lacks (c ∷ s) = if c == b'_' then false else lacks s

plain : (s : Text) → lacks s ≡ true → Lacks b'_' s
plain [] h = tt
plain (c ∷ s) h = ((λ e. ground arith), plain s (ground arith))

spelled : Formatted (codes "ELF_0102ff0102ff00_AELF") (base58check_encode toy payload)
unfolding base58check_encode
spelled = record {
  prefix = codes "ELF";
  chain_id = codes "AELF";
  spelled = refl;
  prefix_plain = plain (codes "ELF") refl;
  address_plain = plain (codes "0102ff0102ff00") refl;
  chain_id_plain = plain (codes "AELF") refl;
  not_empty = λ e. cc;
}
