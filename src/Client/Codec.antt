-- ===== src/Client/Codec.antt =====
-- What aelf-client takes from serde_json and prost for its payloads: the derived readers and writers of the
-- payloads, base64, and the messages that the client encodes or decodes.
use aelf_web3_rust.Base.{List, Bool, Result}
use aelf_web3_rust.Base.Text.{Text, Bytes}
use aelf_web3_rust.Base.Json.{Value}
use aelf_web3_rust.Crypto.Proto.{Address, Hash}
use aelf_web3_rust.Client.Dto.{
  ChainStatusDto, BlockDto, TransactionPoolStatusOutput, CreateRawTransactionInput,
  CreateRawTransactionOutput, SendRawTransactionInput, SendRawTransactionOutput,
  SendTransactionOutput, TransactionResultDto, MerklePathDto, PeerDto, NetworkInfoOutput,
  TaskQueueInfoDto, CalculateTransactionFeeInput, CalculateTransactionFeeOutput,
}

pub record Codec : Type 1 where
  -- f64
  pub Float : Type 0
  -- serde_json::from_value
  pub chain_status : Value → Result Text ChainStatusDto
  pub block : Value → Result Text BlockDto
  pub pool_status : Value → Result Text TransactionPoolStatusOutput
  pub raw_transaction : Value → Result Text CreateRawTransactionOutput
  pub raw_transaction_sent : Value → Result Text SendRawTransactionOutput
  pub texts : Value → Result Text (List Text)
  pub boolean : Value → Result Text Bool
  pub transaction_result : Value → Result Text TransactionResultDto
  pub transaction_results : Value → Result Text (List TransactionResultDto)
  pub merkle_path : Value → Result Text MerklePathDto
  pub peers : Value → Result Text (List PeerDto)
  pub network_info : Value → Result Text NetworkInfoOutput
  pub task_queues : Value → Result Text (List TaskQueueInfoDto)
  pub transaction_fee : Value → Result Text (CalculateTransactionFeeOutput Float)
  -- serde_json::to_value
  pub create_raw_transaction_value : CreateRawTransactionInput → Result Text Value
  pub send_raw_transaction_value : SendRawTransactionInput → Result Text Value
  pub calculate_fee_value : CalculateTransactionFeeInput → Result Text Value
  -- serde_json::from_str
  pub sent_from_str : Text → Result Text SendTransactionOutput
  pub text_from_str : Text → Result Text Text
  pub boolean_from_str : Text → Result Text Bool
  -- base64 and prost
  pub base64_decode : Text → Result Text Bytes
  pub encode_hash : Hash → Bytes
  pub decode_address_message : Bytes → Result Text Address
  pub decode_string_value : Bytes → Result Text Text
