-- ===== src/Tests/Client.antt =====
-- aelf-client and aelf-sdk at concrete inputs.
use aelf_web3_rust.Base.{
  ℕ, ◌≡◌, ◌↔◌, refl, inl, inr, [], ◌∷◌, ◌++◌, none, some, true, Bool, ok, length, replicate,
  All-replicate, arith,
}
use aelf_web3_rust.Base.Text.{Text, codes, len}
use aelf_web3_rust.Base.Text.Trim.{trim_end_matches, trim_start_matches}
use aelf_web3_rust.Base.Text.Ascii.{IsHexDigit}
use aelf_web3_rust.Base.Word.{pos}
use aelf_web3_rust.Base.Json.{text_object}
use aelf_web3_rust.Crypto.Proto.{Transaction}
use aelf_web3_rust.Crypto.Signature.{verify_signature, sign_payload}
use aelf_web3_rust.Crypto.Base58.{base58check_encode, base58check_decode}
use aelf_web3_rust.Crypto.Address.{parse_aelf_address, address_from_public_key}
use aelf_web3_rust.Crypto.PrivateKey.{normalize_private_key_hex, pad_64, strip_0x}
use aelf_web3_rust.Crypto.Wallet.{Wallet, default_bip44_path, from_signing_key, signing_key}
use aelf_web3_rust.Crypto.Wallet.Restore.{IsWallet}
use aelf_web3_rust.Client.Config.{ClientConfig}
use aelf_web3_rust.Client.Provider.{
  get, post, make_url, build_request, conclude, request_text, sent, slept,
}
use aelf_web3_rust.Client.Provider.Retries.{request_text_lem, StopsAfter, schedule}
use aelf_web3_rust.Client.TransactionId.{strip_transaction_id_quotes, validate_transaction_id}
use aelf_web3_rust.Client.TransactionId.Accepted.{IsTransactionId, validate_transaction_id_iff}
use aelf_web3_rust.Client.TransactionId.Quotes.{quoted}
use aelf_web3_rust.Client.Service.{api_base, get_chain_status}
use aelf_web3_rust.Client.Service.Tx.{send_transaction}
use aelf_web3_rust.Client.Service.Tx.Sent.{send_transaction-IsTransactionId}
use aelf_web3_rust.Client.Utils.{generate_transaction}
use aelf_web3_rust.Client.Utils.Generated.{IsGenerated, generate_transaction-IsGenerated}
use aelf_web3_rust.Client.Builder.{TransactionBuilder, build_unsigned, build_signed}
use aelf_web3_rust.Client.Builder.Signed.{without_signature, build_signed-verify_signature}
use aelf_web3_rust.Client.Dto.{ChainStatusDto}
use aelf_web3_rust.Stubs.Crypto.{toy, toy-HexLaws, toy-EcdsaLaws}
use aelf_web3_rust.Stubs.Client.{toy_http, toy_network, toy_codec, toy_provider, toy_address}

abbrev config : ClientConfig toy_http
config = record {
  endpoint = codes "http://node/";
  api_version = none;
  basic_auth = none;
  timeout = 15;
  retry_policy = record { max_retries = 2; initial_backoff = 200 };
  headers = [];
}

request_text_lem_example :
    let url = make_url toy_http (codes "http://node/") (codes "api/x") in
    let request = build_request toy_http config get url [] none in
    (n : ℕ) × StopsAfter toy_http (λ _. none) toy_network request 2 0 n
    × (request_text toy_http (λ _. none) toy_network config get (codes "api/x") [] none ≡ (
      conclude toy_http (λ _. none) toy_network url (toy_network n request),
      schedule toy_http request 200 0 n,
    ))
request_text_lem_example =
    request_text_lem toy_http (λ _. none) toy_network config get (codes "api/x") [] none
      (omega arith)

-- Two retries, after waits of 200 and 400, end in success.
retried :
    let request =
      build_request toy_http config get
        (make_url toy_http (codes "http://node/") (codes "api/x"))
        []
        none in
    request_text toy_http (λ _. none) toy_network config get (codes "api/x") [] none
    ≡ (ok (codes "fine"), sent request ∷ slept 200 ∷ sent request ∷ slept 400 ∷ sent request ∷ [])
unfolding request_text
retried = refl

joined : make_url toy_http (codes "http://node") (codes "api") ≡ codes "http://node/api"
unfolding make_url trim_end_matches trim_start_matches
joined = refl

abbrev id_64 : Text
id_64 = replicate 64 b'a'

id_64-IsTransactionId : IsTransactionId id_64
id_64-IsTransactionId =
    (id_64, inl refl, All-replicate IsHexDigit 64 b'a' (inr (inl (omega arith, omega arith))), refl)

validate_transaction_id_iff_example :
    (validate_transaction_id {H = Bool} (codes "done") (codes "done") ≡ ok (codes "done")) ↔ (
      (codes "done" ≡ strip_transaction_id_quotes (codes "done"))
      × IsTransactionId (strip_transaction_id_quotes (codes "done")))
validate_transaction_id_iff_example =
    validate_transaction_id_iff {H = Bool} (codes "done") (codes "done") (codes "done")

-- Quotes inside quotes stay in the id that is accepted.
doubly_quoted : validate_transaction_id {H = Bool} (quoted (quoted id_64)) [] ≡ ok (quoted id_64)
unfolding validate_transaction_id
doubly_quoted = refl

sends :
    send_transaction toy_provider toy_codec (codes "raw") 0
    ≡ (ok (record { transaction_id = id_64 }), 1)
unfolding send_transaction
sends = refl

send_transaction-IsTransactionId_example :
    (text : Text) × (toy_provider.request_text post
        (api_base ++ codes "/sendTransaction")
        []
        (some (text_object (codes "RawTransaction") (codes "raw")))
        0
      ≡ (ok text, 1))
    × IsTransactionId (strip_transaction_id_quotes id_64)
send_transaction-IsTransactionId_example =
    send_transaction-IsTransactionId toy_provider toy_codec (codes "raw") 0 1
      (record { transaction_id = id_64 }) sends

abbrev generated : Transaction
generated = record {
  from = some (record { value = 1 ∷ 2 ∷ [] });
  to = some (record { value = 1 ∷ 2 ∷ [] });
  ref_block_number = pos 42;
  ref_block_prefix = 10 ∷ 11 ∷ 12 ∷ 13 ∷ [];
  method_name = codes "M";
  params = 9 ∷ [];
  signature = [];
}

generates :
    generate_transaction toy_provider toy_codec toy toy_address toy_address (codes "M") (9 ∷ []) 0
    ≡ (ok generated, 1)
unfolding generate_transaction base58check_decode parse_aelf_address
generates = refl

generate_transaction-IsGenerated_example :
    (status : ChainStatusDto) × (get_chain_status toy_provider toy_codec 0 ≡ (ok status, 1))
    × IsGenerated toy status toy_address toy_address (codes "M") (9 ∷ []) generated
generate_transaction-IsGenerated_example =
    generate_transaction-IsGenerated toy_provider toy_codec toy toy_address toy_address (codes "M")
      (9 ∷ []) 0 1 generated generates

abbrev wallet : Wallet
wallet = from_signing_key toy true (codes "word") default_bip44_path

abbrev wallet-IsWallet : IsWallet toy wallet
unfolding from_signing_key
wallet-IsWallet = record {
  key = true;
  private_key_of = refl;
  public_key_of = refl;
  address_of = refl;
}

abbrev builder : TransactionBuilder
builder = record {
  wallet = some wallet;
  contract_address = some toy_address;
  system_contract_name = none;
  method_name = some (codes "M");
  params = none;
}

abbrev built : Transaction
built = record {
  from = some (record { value = 4 ∷ 1 ∷ replicate 30 0 });
  to = some (record { value = 1 ∷ 2 ∷ [] });
  ref_block_number = pos 42;
  ref_block_prefix = 10 ∷ 11 ∷ 12 ∷ 13 ∷ [];
  method_name = codes "M";
  params = [];
  signature = replicate 64 1 ++ 0 ∷ [];
}

builds : build_signed toy_provider toy_codec toy builder 0 ≡ (ok built, 1)
unfolding build_signed from_signing_key base58check_decode parse_aelf_address
    address_from_public_key base58check_encode signing_key normalize_private_key_hex pad_64 len
    strip_0x sign_payload
builds = refl

public_key_read : toy.hex_decode wallet.public_key ≡ ok (4 ∷ 1 ∷ [])
unfolding from_signing_key
public_key_read = refl

build_signed-verify_signature_example :
    (build_unsigned toy_provider toy_codec toy builder 0 ≡ (ok (without_signature built), 1))
    × (length built.signature ≡ 65)
    × (verify_signature toy
          (4 ∷ 1 ∷ [])
          (toy.encode_transaction (without_signature built))
          built.signature
        ≡ ok true)
build_signed-verify_signature_example =
    build_signed-verify_signature toy toy-HexLaws toy-EcdsaLaws toy_provider toy_codec builder
      wallet (4 ∷ 1 ∷ []) 0 1 built refl wallet-IsWallet public_key_read builds
