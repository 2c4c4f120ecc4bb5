-- ===== src/Contract/Normalize.antt =====
-- crates/aelf-contract/src/lib.rs: `normalize_json_message` and `normalize_json_field`. The object that they
-- build has the keys of the object that they read, in its order.
pub mod Fields
pub mod Addresses
use aelf_web3_rust.Base.{
  Bool, true, false, Option, none, some, Result, ok, err, panic, ◌>>=◌, map_err, map_ok, list_eq,
  if◌then◌else◌,
}
use aelf_web3_rust.Base.Text.{Text, codes}
use aelf_web3_rust.Base.Json.{
  Value, Values, Entries, null, bool, number, string, array, object, array_end, one_more,
  object_end, entry,
}
use aelf_web3_rust.Crypto.Crates.{Crates}
use aelf_web3_rust.Crypto.Address.{address_to_pb, pb_to_address, hash_to_pb}
use aelf_web3_rust.Contract.Reflect.{ContractResult, crypto, hex, json, Reflect}

pub data JsonDirection : Type 0 where
  input output : JsonDirection

module _ (reflect : Reflect) where
  open reflect use {
    MessageDescriptor, FieldDescriptor, full_name, get_field_by_json_name, get_field_by_name,
  }

  abbrev pub is_address : MessageDescriptor → Bool
  is_address desc = list_eq (full_name desc) (codes "aelf.Address")

  abbrev pub is_hash : MessageDescriptor → Bool
  is_hash desc = list_eq (full_name desc) (codes "aelf.Hash")

  -- `get_field_by_json_name(..).or_else(get_field_by_name(..))`.
  abbrev pub field_of : MessageDescriptor → Text → Option FieldDescriptor
  field_of desc key = elim (get_field_by_json_name desc key) [
    | some field ↦ some field
    | none ↦ get_field_by_name desc key
  ]

module _ (crates : Crates) (reflect : Reflect) {H : Type 0} where
  open crates use {hex_encode, hex_decode}
  open reflect use {
    MessageDescriptor, FieldDescriptor, is_list, is_map, message_kind, map_entry_value_field,
    address_value, value_address, hash_value, value_hash,
  }

  -- The arms for the two messages and a text.
  abbrev pub normalize_string : MessageDescriptor → JsonDirection → Text → ContractResult H Value
  normalize_string desc output text = ok (string text)
  normalize_string desc input text =
      if is_address reflect desc
      then (map_err crypto (address_to_pb crates text) >>= (λ a. map_err json (address_value a)))
      else if is_hash reflect desc
      then (map_err hex (hex_decode text) >>= (λ b. map_err json (hash_value (hash_to_pb b))))
      else ok (string text)

  -- The arms for an object, given the normalized entries of a message that is neither of the two.
  abbrev pub normalize_object :
      MessageDescriptor
      → JsonDirection
      → Entries
      → ContractResult H Entries
      → ContractResult H Value
  normalize_object desc input entries normalized =
      if is_address reflect desc
      then ok (object entries)
      else if is_hash reflect desc
      then ok (object entries)
      else map_ok object normalized
  normalize_object desc output entries normalized =
      if is_address reflect desc
      then map_ok (λ a. string (pb_to_address crates a))
          (map_err json (value_address (object entries)))
      else if is_hash reflect desc
      then map_ok (λ h. string (hex_encode h.value)) (map_err json (value_hash (object entries)))
      else map_ok object normalized

  unfoldable mutual
    pub normalize_json_message : MessageDescriptor → JsonDirection → Value → ContractResult H Value
    normalize_json_message desc direction (string text) = normalize_string desc direction text
    normalize_json_message desc direction (object entries) =
        normalize_object desc direction entries (normalize_entries desc direction entries)
    normalize_json_message desc direction null = ok null
    normalize_json_message desc direction (bool b) = ok (bool b)
    normalize_json_message desc direction (number n) = ok (number n)
    normalize_json_message desc direction (array values) = ok (array values)

    -- The loop over the entries of a message.
    pub normalize_entries : MessageDescriptor → JsonDirection → Entries → ContractResult H Entries
    normalize_entries desc direction object_end = ok object_end
    normalize_entries desc direction (entry key value rest) = do
      normalized ← elim (field_of reflect desc key) [
        | some field ↦ normalize_json_field field direction value
        | none ↦ ok value
      ]
      others ← normalize_entries desc direction rest
      ok (entry key normalized others)

    pub normalize_json_field : FieldDescriptor → JsonDirection → Value → ContractResult H Value
    normalize_json_field field direction (array items) =
        if is_list field
        then elim (message_kind field) [
          | some desc ↦ map_ok array (normalize_items desc direction items)
          | none ↦ ok (array items)
        ]
        else ok (array items)
    normalize_json_field field direction (object entries) =
        if is_list field
        then ok (object entries)
        else if is_map field
        then elim (message_kind field) [
          | some map_entry ↦ elim (message_kind (map_entry_value_field map_entry)) [
            | some desc ↦ map_ok object (normalize_map desc direction entries)
            | none ↦ ok (object entries)
          ]
          | none ↦ ok (object entries)
        ]
        else elim (message_kind field) [
          | some desc ↦
              normalize_object desc direction entries (normalize_entries desc direction entries)
          | none ↦ ok (object entries)
        ]
    normalize_json_field field direction (string text) =
        if is_list field
        then ok (string text)
        else if is_map field
        then ok (string text)
        else elim (message_kind field) [
          | some desc ↦ normalize_string desc direction text
          | none ↦ ok (string text)
        ]
    normalize_json_field field direction null = ok null
    normalize_json_field field direction (bool b) = ok (bool b)
    normalize_json_field field direction (number n) = ok (number n)

    -- The items of a list field, and the values of a map field.
    pub normalize_items : MessageDescriptor → JsonDirection → Values → ContractResult H Values
    normalize_items desc direction array_end = ok array_end
    normalize_items desc direction (one_more item items) = do
      normalized ← normalize_json_message desc direction item
      others ← normalize_items desc direction items
      ok (one_more normalized others)

    pub normalize_map : MessageDescriptor → JsonDirection → Entries → ContractResult H Entries
    normalize_map desc direction object_end = ok object_end
    normalize_map desc direction (entry key value rest) = do
      normalized ← normalize_json_message desc direction value
      others ← normalize_map desc direction rest
      ok (entry key normalized others)
