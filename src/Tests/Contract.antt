-- ===== src/Tests/Contract.antt =====
-- aelf-contract at concrete inputs.
use aelf_web3_rust.Base.{◌≡◌, refl, [], ◌∷◌, false, true, none, some, ok, list_eq, flatten, arith}
use aelf_web3_rust.Base.Text.{Text, codes}
use aelf_web3_rust.Base.Json.{Value, Entries, string, object, entry, object_end, text_object}
use aelf_web3_rust.Crypto.Proto.{Address, Hash}
use aelf_web3_rust.Crypto.Address.{pb_to_address, address_to_pb, parse_aelf_address}
use aelf_web3_rust.Crypto.Base58.{base58check_decode}
use aelf_web3_rust.Crypto.Wallet.{Wallet, default_bip44_path, from_signing_key}
use aelf_web3_rust.Contract.Normalize.{input, output, is_address, is_hash, normalize_json_message}
use aelf_web3_rust.Contract.Normalize.Fields.{keys, normalize_json_message-keys}
use aelf_web3_rust.Contract.Normalize.Addresses.{
  normalize_json_message-address, normalize_json_message-hash,
}
use aelf_web3_rust.Contract.Dynamic.{
  DynamicContract, LazyDynamicContract, get_dynamic, find_in_services,
}
use aelf_web3_rust.Contract.Dynamic.Lookup.{Found, find_in_services-Found}
use aelf_web3_rust.Stubs.Crypto.{toy, toy-HexLaws, toy-Bs58Laws, toy-Sha256Laws}
use aelf_web3_rust.Stubs.Client.{toy_codec, toy_provider, toy_address}
use aelf_web3_rust.Stubs.Contract.{toy_reflect, toy-JsonLaws}

abbrev owner : Address
owner = record { value = 1 ∷ 2 ∷ [] }

abbrev owner_value : Value
owner_value = text_object (codes "value") (1 ∷ 2 ∷ [])

normalize_json_message-address_example :
    (normalize_json_message toy toy_reflect {H = Text}
        (codes "aelf.Address")
        input
        (string (pb_to_address toy owner))
      ≡ ok owner_value)
    × (normalize_json_message toy toy_reflect {H = Text} (codes "aelf.Address") output owner_value
        ≡ ok (string (pb_to_address toy owner)))
normalize_json_message-address_example =
    normalize_json_message-address toy toy_reflect toy-JsonLaws {H = Text} toy-Bs58Laws
      toy-Sha256Laws (codes "aelf.Address") owner owner_value refl (omega arith, (omega arith, tt))
      refl

abbrev hash : Hash
hash = record { value = 1 ∷ 2 ∷ [] }

normalize_json_message-hash_example :
    (normalize_json_message toy toy_reflect {H = Text}
        (codes "aelf.Hash")
        input
        (string (toy.hex_encode hash.value))
      ≡ ok owner_value)
    × (normalize_json_message toy toy_reflect {H = Text} (codes "aelf.Hash") output owner_value
        ≡ ok (string (toy.hex_encode hash.value)))
normalize_json_message-hash_example =
    normalize_json_message-hash toy toy_reflect toy-JsonLaws {H = Text} toy-HexLaws
      (codes "aelf.Hash") hash owner_value refl (omega arith, (omega arith, tt)) refl

abbrev request : Entries
request =
    entry (codes "symbol") (string (codes "ELF"))
      (entry (codes "owner") (string toy_address) object_end)

abbrev normalized : Value
normalized =
    object
      (entry (codes "symbol") (string (codes "ELF")) (entry (codes "owner") owner_value object_end))

normalizes :
    normalize_json_message toy toy_reflect {H = Text}
      (codes "token.GetBalanceInput")
      input
      (object request)
    ≡ ok normalized
unfolding normalize_json_message list_eq address_to_pb base58check_decode parse_aelf_address
normalizes = refl

plain :
    (is_address toy_reflect (codes "token.GetBalanceInput") ≡ false)
    × (is_hash toy_reflect (codes "token.GetBalanceInput") ≡ false)
unfolding list_eq
plain = (refl, refl)

normalize_json_message-keys_example :
    (fields : Entries) × (normalized ≡ object fields)
    × (keys fields ≡ codes "symbol" ∷ codes "owner" ∷ [])
normalize_json_message-keys_example =
    normalize_json_message-keys toy toy_reflect {H = Text} (codes "token.GetBalanceInput") input
      request normalized plain.0 plain.1 normalizes

abbrev wallet : Wallet
wallet = from_signing_key toy true (codes "word") default_bip44_path

abbrev contract : DynamicContract toy_reflect
contract = record { address = toy_address; wallet = wallet; pool = tt }

abbrev fresh : LazyDynamicContract toy_provider toy_codec toy toy_reflect
fresh = record { wallet = wallet; address = toy_address; dynamic = none }

abbrev loaded : LazyDynamicContract toy_provider toy_codec toy toy_reflect
loaded = record { wallet = wallet; address = toy_address; dynamic = some contract }

loads : get_dynamic toy_provider toy_codec toy toy_reflect fresh 0 ≡ (ok contract, loaded, 1)
unfolding get_dynamic
loads = refl

find_in_services-Found_example :
    Found toy_reflect
      (codes "B")
      (flatten (toy_reflect.services tt))
      (find_in_services toy_reflect (codes "B") (toy_reflect.services tt))
find_in_services-Found_example =
    find_in_services-Found toy_reflect (codes "B") (toy_reflect.services tt)
