-- ===== src/Tests/Calls.antt =====
-- Calls of contracts at concrete inputs.
use aelf_web3_rust.Base.{
  ℕ, ◌≡◌, refl, Bool, true, [], ◌∷◌, none, ok, err, list_eq, flatten, All, arith,
}
use aelf_web3_rust.Base.Text.{codes, len}
use aelf_web3_rust.Base.Json.{Value, Entries, string, object, entry, object_end, text_object}
use aelf_web3_rust.Crypto.Address.{address_to_pb, parse_aelf_address}
use aelf_web3_rust.Crypto.Base58.{base58check_decode}
use aelf_web3_rust.Crypto.Wallet.{Wallet, default_bip44_path, from_signing_key, from_private_key}
use aelf_web3_rust.Contract.Reflect.{ContractError, method_not_found}
use aelf_web3_rust.Contract.Dynamic.{DynamicContract, LazyDynamicContract, call_typed, send_typed}
use aelf_web3_rust.Contract.Dynamic.Lookup.{Other}
use aelf_web3_rust.Contract.Dynamic.Missing.{method_not_found_lem}
use aelf_web3_rust.Contract.Dynamic.Json.{normalize_json_input, call_json, send_json}
use aelf_web3_rust.Contract.Counting.{descriptors_counted}
use aelf_web3_rust.Contract.Typed.Session.{
  native_info, primary_symbol, sent, AsksFirst, make_all, token_session,
}
use aelf_web3_rust.Contract.Typed.Token.{get_native_token_info, get_primary_token_symbol}
use aelf_web3_rust.Crypto.PrivateKey.{normalize_private_key_hex, strip_0x, pad_64}
use aelf_web3_rust.Client.Utils.{
  readonly_private_key, get_genesis_contract_address, get_contract_address_by_name,
}
use aelf_web3_rust.Contract.Dynamic.{zero_contract_address_by_name}
use aelf_web3_rust.Contract.Dynamic.Zero.{Agree, zero_contract_address_by_name-Agree}
use aelf_web3_rust.Stubs.Crypto.{toy}
use aelf_web3_rust.Stubs.Client.{toy_codec, toy_provider, toy_address}
use aelf_web3_rust.Stubs.Contract.{toy_reflect, toy_messages}

abbrev wallet : Wallet
wallet = from_signing_key toy true (codes "word") default_bip44_path

abbrev contract : DynamicContract toy_reflect
contract = record { address = toy_address; wallet = wallet; pool = tt }

abbrev fields : Entries → Value
fields rest = object (entry (codes "symbol") (string (codes "ELF")) rest)

abbrev request : Value
request = fields (entry (codes "owner") (string toy_address) object_end)

abbrev normalized : Value
normalized = fields (entry (codes "owner") (text_object (codes "value") (1 ∷ 2 ∷ [])) object_end)

normalizes :
    normalize_json_input {H = Bool} toy_provider toy_codec toy toy_reflect
      (codes "token.GetBalanceInput")
      request
    ≡ ok normalized
unfolding normalize_json_input list_eq address_to_pb base58check_decode parse_aelf_address
normalizes = refl

has_no_z : All (Other toy_reflect (codes "Z")) (flatten (toy_reflect.services tt))
unfolding flatten
has_no_z =
    ((λ h. ground arith), ((λ h. ground arith), ((λ h. ground arith), ((λ h. ground arith), tt))))

method_not_found_lem_example :
    let error : ContractError Bool = method_not_found (codes "Z") in
    (call_typed toy_provider toy_codec toy toy_reflect toy_codec.decode_string_value contract
        (codes "Z")
        []
        0
      ≡ (err error, 0))
    × (send_typed toy_provider toy_codec toy toy_reflect contract (codes "Z") [] 0 ≡ (err error, 0))
    × (call_json toy_provider toy_codec toy toy_reflect contract (codes "Z") request 0
        ≡ (err error, 0))
    × (send_json toy_provider toy_codec toy toy_reflect contract (codes "Z") request 0
        ≡ (err error, 0))
method_not_found_lem_example =
    method_not_found_lem toy_provider toy_codec toy toy_reflect toy_codec.decode_string_value
      contract (codes "Z") [] request 0 has_no_z

abbrev empty_handle :
    LazyDynamicContract
      (descriptors_counted toy_provider toy_codec toy toy_reflect)
      toy_codec
      toy
      toy_reflect
empty_handle = record { wallet = wallet; address = toy_address; dynamic = none }

token_session_example :
    (k : ℕ) × AsksFirst toy_provider toy_codec toy toy_reflect toy_messages
      (native_info ∷ primary_symbol ∷ sent [] ∷ [])
      empty_handle
      0
      7
      k
token_session_example =
    token_session toy_provider toy_codec toy toy_reflect toy_messages
      (native_info ∷ primary_symbol ∷ sent [] ∷ []) empty_handle 0 7 refl

-- The first call loads the descriptors, and the second does not.
loads_once :
    (make_all toy_provider toy_codec toy toy_reflect toy_messages
      (native_info ∷ primary_symbol ∷ [])
      empty_handle
      (0, 7)).1.0
    ≡ 1
unfolding get_native_token_info get_primary_token_symbol
loads_once = refl

abbrev reader : Wallet
reader = from_signing_key toy true [] default_bip44_path

reads : from_private_key toy readonly_private_key ≡ ok reader
unfolding from_private_key normalize_private_key_hex strip_0x pad_64 list_eq from_signing_key len
reads = refl

genesis : get_genesis_contract_address toy_provider toy_codec toy 0 ≡ (ok toy_address, 1)
unfolding get_genesis_contract_address
genesis = refl

zero_contract_address_by_name-Agree_example :
    Agree
      (zero_contract_address_by_name toy_provider toy_codec toy toy_reflect
        (record { wallet = reader; address = toy_address })
        (codes "Token")
        1)
      (get_contract_address_by_name toy_provider toy_codec toy (codes "Token") 0)
zero_contract_address_by_name-Agree_example =
    zero_contract_address_by_name-Agree toy_provider toy_codec toy toy_reflect reader toy_address
      (codes "Token") 0 1 reads genesis
