-- ===== src/Contract/Normalize/Addresses.antt =====
-- crates/aelf-contract/src/lib.rs: addresses and hashes in the JSON of a contract.
use aelf_web3_rust.Base.{◌≡◌, refl, sym, true, false, ok, list_eq, list_eq_refl}
use aelf_web3_rust.Base.Text.{IsBytes, codes}
use aelf_web3_rust.Base.Json.{Value, Entries, string, object}
use aelf_web3_rust.Crypto.Crates.{Crates, HexLaws, Bs58Laws, Sha256Laws}
use aelf_web3_rust.Crypto.Proto.{Address, Hash}
use aelf_web3_rust.Crypto.Address.{pb_to_address, hash_to_pb}
use aelf_web3_rust.Crypto.Address.Conversions.{address_to_pb-pb_to_address}
use aelf_web3_rust.Contract.Reflect.{Reflect}
use aelf_web3_rust.Contract.Normalize.{
  input, output, is_address, is_hash, normalize_json_message, normalize_string, normalize_object,
}

-- The JSON of the two messages is an object that reads back.
pub record JsonLaws (reflect : Reflect) : Type 0 where
  pub address_object :
      (a : Address) (v : Value)
      → reflect.address_value a ≡ ok v
      → (entries : Entries) × (v ≡ object entries) × (reflect.value_address v ≡ ok a)
  pub hash_object :
      (h : Hash) (v : Value)
      → reflect.hash_value h ≡ ok v
      → (entries : Entries) × (v ≡ object entries) × (reflect.value_hash v ≡ ok h)

module _ (crates : Crates) (reflect : Reflect) (laws : JsonLaws reflect) {H : Type 0} where
  open reflect use {MessageDescriptor, full_name, address_value, hash_value}

  -- With the documented behaviour of bs58 and SHA-256, and JSON of an address message that is an object
  -- and reads back: for the descriptor of aelf.Address and an address whose value is a byte string,
  -- normalizing the text of the address as input gives the message's JSON, and normalizing that JSON as
  -- output gives the text.
  pub normalize_json_message-address :
      Bs58Laws crates
      → Sha256Laws crates
      → (desc : MessageDescriptor) (a : Address) (v : Value) → full_name desc ≡ codes "aelf.Address"
      → IsBytes a.value
      → address_value a ≡ ok v
      → (normalize_json_message crates reflect {H = H} desc input (string (pb_to_address crates a))
          ≡ ok v)
        × (normalize_json_message crates reflect {H = H} desc output v
            ≡ ok (string (pb_to_address crates a)))
  unfolding normalize_json_message
  normalize_json_message-address bs58 sha desc a v named bytes written =
      let is : is_address reflect desc ≡ true = rw named (list_eq_refl (codes "aelf.Address")) in
      let (entries, form, back) = laws.address_object a v written in
      (
        rw (normalize_string, is, address_to_pb-pb_to_address crates bs58 sha a bytes, written),
        rw form (rw (normalize_object, is, sym form, back)),
      )

  -- With the documented behaviour of hex, and JSON of a hash message that is an object and reads back:
  -- for the descriptor of aelf.Hash and a hash whose value is a byte string, normalizing the
  -- hexadecimal text of the hash as input gives the message's JSON, and normalizing that JSON as output
  -- gives the text.
  pub normalize_json_message-hash :
      HexLaws crates
      → (desc : MessageDescriptor) (h : Hash) (v : Value) → full_name desc ≡ codes "aelf.Hash"
      → IsBytes h.value
      → hash_value h ≡ ok v
      → (normalize_json_message crates reflect {H = H} desc input
            (string (crates.hex_encode h.value))
          ≡ ok v)
        × (normalize_json_message crates reflect {H = H} desc output v
            ≡ ok (string (crates.hex_encode h.value)))
  unfolding normalize_json_message hash_to_pb
  normalize_json_message-hash laws_of_hex desc h v named bytes written =
      let not_address : is_address reflect desc ≡ false = rw named (unfold list_eq in refl) in
      let is : is_hash reflect desc ≡ true = rw named (list_eq_refl (codes "aelf.Hash")) in
      let (entries, form, back) = laws.hash_object h v written in
      (
        rw (normalize_string, not_address, is, laws_of_hex.decode_encode h.value bytes, written),
        rw form (rw (normalize_object, not_address, is, sym form, back)),
      )
