-- ===== src/Contract/Reflect.antt =====
-- What aelf-contract takes from prost-reflect and serde_json, and its error type.
use aelf_web3_rust.Base.{List, Bool, Option, Result}
use aelf_web3_rust.Base.Text.{Text, Bytes}
use aelf_web3_rust.Base.Json.{Value}
use aelf_web3_rust.Crypto.Error.{CryptoError}
use aelf_web3_rust.Crypto.Proto.{Address, Hash}
use aelf_web3_rust.Client.Error.{AElfError}

-- `H` is `reqwest::Error`. An error of another crate is kept as its message.
pub data ContractError (H : Type 0) : Type 0 where
  client : AElfError H → ContractError H
  method_not_found descriptor json : Text → ContractError H
  crypto : CryptoError → ContractError H
  hex protobuf_decode : Text → ContractError H

abbrev pub ContractResult : Type 0 → Type 0 → Type 0
ContractResult H A = Result (ContractError H) A

pub record Reflect : Type 1 where
  pub DescriptorPool : Type 0
  pub MessageDescriptor : Type 0
  pub FieldDescriptor : Type 0
  pub MethodDescriptor : Type 0
  -- DescriptorPool::decode, services with their methods in order, and a method's name
  pub decode_pool : Bytes → Result Text DescriptorPool
  pub services : DescriptorPool → List (List MethodDescriptor)
  pub method_name : MethodDescriptor → Text
  pub full_name : MessageDescriptor → Text
  pub get_field_by_json_name : MessageDescriptor → Text → Option FieldDescriptor
  pub get_field_by_name : MessageDescriptor → Text → Option FieldDescriptor
  pub is_list : FieldDescriptor → Bool
  pub is_map : FieldDescriptor → Bool
  -- `Kind::Message`, or another kind
  pub message_kind : FieldDescriptor → Option MessageDescriptor
  pub map_entry_value_field : MessageDescriptor → FieldDescriptor
  -- MethodDescriptor::input and output
  pub input_of : MethodDescriptor → MessageDescriptor
  pub output_of : MethodDescriptor → MessageDescriptor
  -- DynamicMessage: deserialize, encode_to_vec, decode and serde_json::to_value
  pub DynamicMessage : Type 0
  pub deserialize : MessageDescriptor → Value → Result Text DynamicMessage
  pub encode_message : DynamicMessage → Bytes
  pub decode_message : MessageDescriptor → Bytes → Result Text DynamicMessage
  pub message_value : DynamicMessage → Result Text Value
  -- serde_json::to_value and from_value for the two messages
  pub address_value : Address → Result Text Value
  pub value_address : Value → Result Text Address
  pub hash_value : Hash → Result Text Value
  pub value_hash : Value → Result Text Hash
