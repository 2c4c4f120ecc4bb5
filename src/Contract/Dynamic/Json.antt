-- ===== src/Contract/Dynamic/Json.antt =====
-- crates/aelf-contract/src/lib.rs: calls with protobuf JSON, `call_json` and `send_json`.
use aelf_web3_rust.Base.{map_err}
use aelf_web3_rust.Base.Text.{Text}
use aelf_web3_rust.Base.Json.{Value}
use aelf_web3_rust.Crypto.Crates.{Crates}
use aelf_web3_rust.Client.Action.{Provider}
use aelf_web3_rust.Client.Codec.{Codec}
use aelf_web3_rust.Client.Dto.{SendTransactionOutput}
use aelf_web3_rust.Contract.Reflect.{ContractResult, json, protobuf_decode, Reflect}
use aelf_web3_rust.Contract.Normalize.{input, output, normalize_json_message}
use aelf_web3_rust.Contract.Dynamic.{
  ContractAction, ◌>>=◌, lift, DynamicContract, DynamicContractMethod, method_of, call_bytes,
  send_bytes,
}

module _ {H W : Type 0} (provider : Provider H W) (codec : Codec) (crates : Crates)
    (reflect : Reflect) where
  open reflect use {
    MessageDescriptor, input_of, output_of, deserialize, encode_message, decode_message,
    message_value,
  }

  unfoldable pub normalize_json_input : MessageDescriptor → Value → ContractResult H Value
  unfolding normalize_json_message
  normalize_json_input desc value = normalize_json_message crates reflect desc input value

  unfoldable pub normalize_json_output : MessageDescriptor → Value → ContractResult H Value
  unfolding normalize_json_message
  normalize_json_output desc value = normalize_json_message crates reflect desc output value

  -- `DynamicContractMethod::call_json` and `send_json`.
  unfoldable pub call_method_json : DynamicContractMethod reflect → Value → ContractAction H W Value
  unfolding call_bytes normalize_json_input normalize_json_output
  call_method_json self value = do
    normalized ← lift (normalize_json_input (input_of self.method) value)
    message ← lift (map_err json (deserialize (input_of self.method) normalized))
    bytes ← call_bytes provider codec crates reflect self (encode_message message)
    answer ← lift (map_err protobuf_decode (decode_message (output_of self.method) bytes))
    result ← lift (map_err json (message_value answer))
    lift (normalize_json_output (output_of self.method) result)

  unfoldable pub send_method_json :
      DynamicContractMethod reflect → Value → ContractAction H W SendTransactionOutput
  unfolding send_bytes normalize_json_input
  send_method_json self value = do
    normalized ← lift (normalize_json_input (input_of self.method) value)
    message ← lift (map_err json (deserialize (input_of self.method) normalized))
    send_bytes provider codec crates reflect self (encode_message message)

  unfoldable pub call_json : DynamicContract reflect → Text → Value → ContractAction H W Value
  unfolding method_of call_method_json
  call_json self name value = do
    method ← lift (method_of reflect self name)
    call_method_json method value

  unfoldable pub send_json :
      DynamicContract reflect → Text → Value → ContractAction H W SendTransactionOutput
  unfolding method_of send_method_json
  send_json self name value = do
    method ← lift (method_of reflect self name)
    send_method_json method value
