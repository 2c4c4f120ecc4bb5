-- ===== src/Tests/Examples.antt =====
-- The examples of aelf-sdk at a concrete environment.
use aelf_web3_rust.Base.{
  ℕ, ◌≡◌, refl, [], ◌∷◌, none, Bool, true, false, ok, err, Result, list_eq, if◌then◌else◌,
}
use aelf_web3_rust.Base.Text.{Text, codes, len}
use aelf_web3_rust.Base.Json.{null}
use aelf_web3_rust.Crypto.PrivateKey.{normalize_private_key_hex, pad_64, strip_0x}
use aelf_web3_rust.Crypto.Base58.{base58check_decode, base58check_encode}
use aelf_web3_rust.Crypto.Address.{address_from_public_key}
use aelf_web3_rust.Crypto.Wallet.{signing_key}
use aelf_web3_rust.Crypto.Signature.{sign_payload}
use aelf_web3_rust.Client.Action.{Provider}
use aelf_web3_rust.Client.Codec.{Codec}
use aelf_web3_rust.Client.Counting.{Counts, IsQuiet, Priced, by_call}
use aelf_web3_rust.Sdk.Examples.{ExampleError, Environment, Effects, should_send}
use aelf_web3_rust.Sdk.Examples.TokenTransfer.{transfer_main}
use aelf_web3_rust.Sdk.Examples.Parts.{is_sending}
use aelf_web3_rust.Client.Http.{Wire}
use aelf_web3_rust.Sdk.Examples.Sent.{
  example_provider, Bounded, priced_transfer, priced_raw_flow, counted_transfer, counted_raw_flow,
  dry_run-IsQuiet, examples_requests,
}
use aelf_web3_rust.Base.Word.{pos}
use aelf_web3_rust.Client.Utils.{get_contract_address_by_name}
use aelf_web3_rust.Crypto.Address.{decode_address, parse_aelf_address}
use aelf_web3_rust.Crypto.Wallet.{from_private_key}
use aelf_web3_rust.Contract.Reflect.{Reflect}
use aelf_web3_rust.Contract.Counting.{is_descriptor_path}
use aelf_web3_rust.Sdk.Examples.ReadOnly.{TokenMessages, public_balance_main}
use aelf_web3_rust.Sdk.Examples.Reading.{
  counted_basic, counted_balance, counted_dynamic, readonly_requests,
}
use aelf_web3_rust.Stubs.Contract.{toy_reflect, toy_messages}
use aelf_web3_rust.Stubs.Crypto.{toy}
use aelf_web3_rust.Stubs.Client.{toy_codec, toy_provider, toy_address, toy_http, toy_network}

-- AELF_SEND is not set.
abbrev environment : Environment Bool ℕ
environment = record {
  var = λ name.
      if list_eq name (codes "AELF_PRIVATE_KEY")
      then ok (codes "01")
      else if list_eq name (codes "AELF_TO_ADDRESS")
      then ok toy_address
      else err (codes "environment variable not found");
  connect = λ endpoint. ok tt;
  display_error = λ e. codes "error";
  debug_fees = λ fees. codes "fees";
  debug_charges = λ fees. codes "fees";
  display_f64 = λ f. codes "0";
  parse_f64 = λ t. ok 0;
  f64_gt = λ a b. false;
  f64_zero = 0;
  f64_cent = 1;
  decode_fee = λ b. err (codes "refused");
  decode_resource = λ b. err (codes "refused");
  encode_transfer = λ t. [];
  transfer_json = λ t. ok (codes "json");
}

-- The node estimates a fee.
abbrev fee_codec : Codec
fee_codec = record toy_codec {
  transaction_fee = λ v. ok (record { success = true; transaction_fee = [] });
  calculate_fee_value = λ input. ok null;
}

abbrev effects : Effects ℕ
effects = record { println = λ line n. n; sleep_second = λ n. n }

abbrev nodes : Text → Provider Bool ℕ
nodes endpoint = toy_provider

is_dry : should_send environment ≡ false
unfolding should_send list_eq
is_dry = refl

dry_run-IsQuiet_example :
    IsQuiet (counted_transfer fee_codec toy environment effects nodes is_sending)
    × IsQuiet (counted_raw_flow fee_codec toy environment effects nodes is_sending)
dry_run-IsQuiet_example = dry_run-IsQuiet fee_codec toy environment effects nodes is_dry

abbrev wire_effects : Effects (Wire toy_http)
wire_effects = record { println = λ line w. w; sleep_second = λ w. w }

abbrev example_nodes : Text → Priced Bool (Wire toy_http)
example_nodes = example_provider toy_http (λ _. none) toy_network

examples_requests_example :
    let calls = λ (endpoint : Text). by_call (example_nodes endpoint).base in
    Bounded 1 (priced_transfer fee_codec toy environment wire_effects calls)
    × Bounded 1 (priced_raw_flow fee_codec toy environment wire_effects calls)
    × Bounded 3 (priced_transfer fee_codec toy environment wire_effects example_nodes)
    × Bounded 3 (priced_raw_flow fee_codec toy environment wire_effects example_nodes)
examples_requests_example =
    examples_requests toy_http (λ _. none) toy_network fee_codec toy environment wire_effects

-- The dry run ends, after its requests, with none that sends.
ends_dry : (counted_transfer fee_codec toy environment effects nodes is_sending (0, 0)).0 ≡ ok tt
unfolding transfer_main normalize_private_key_hex pad_64 strip_0x base58check_decode
    address_from_public_key base58check_encode signing_key sign_payload
ends_dry = refl

abbrev token_messages : TokenMessages toy_messages
token_messages = record {
  balance_input = λ symbol owner. symbol;
  balance = λ b. pos 5;
  symbol = λ b. b;
  decimals = λ b. pos 8;
  display_json = λ v. codes "json";
}

abbrev token_reflect : Reflect
token_reflect = record toy_reflect {
  services = λ _. (codes "GetNativeTokenInfo" ∷ codes "GetBalance" ∷ []) ∷ [];
}

-- The owner is set and AELF_TOKEN_CONTRACT is.
abbrev reader_environment : Environment Bool ℕ
reader_environment = record environment { var = λ name. ok toy_address }

readonly_requests_example :
    (IsQuiet (
        counted_basic toy_codec toy token_reflect toy_messages token_messages reader_environment
          effects nodes is_sending)
      × IsQuiet (
          counted_balance toy_codec toy token_reflect toy_messages token_messages reader_environment
            effects nodes is_sending)
      × IsQuiet (
          counted_dynamic toy_codec toy token_reflect toy_messages token_messages reader_environment
            effects nodes is_sending))
    × IsQuiet (
        counted_basic toy_codec toy token_reflect toy_messages token_messages reader_environment
          effects nodes is_descriptor_path)
    × Counts 0 1 (
        counted_balance toy_codec toy token_reflect toy_messages token_messages reader_environment
          effects nodes is_descriptor_path)
    × Counts 0 1 (
        counted_dynamic toy_codec toy token_reflect toy_messages token_messages reader_environment
          effects nodes is_descriptor_path)
readonly_requests_example =
    readonly_requests toy_codec toy token_reflect toy_messages token_messages reader_environment
      effects nodes

-- The two calls of the token contract succeed, and the descriptors are asked for once.
abbrev balance_run : Result (ExampleError Bool) (Unit {0}) × (ℕ × ℕ)
balance_run =
    counted_balance toy_codec toy token_reflect toy_messages token_messages reader_environment
      effects nodes is_descriptor_path (0, 0)

reads_balance : (balance_run.0 ≡ ok tt) × (balance_run.1.0 ≡ 1)
unfolding public_balance_main get_contract_address_by_name decode_address from_private_key
    normalize_private_key_hex pad_64 strip_0x list_eq base58check_decode len parse_aelf_address
    address_from_public_key base58check_encode signing_key sign_payload
reads_balance = (refl, refl)
