-- ===== src/Client/Service/Tx.antt =====
-- crates/aelf-client/src/lib.rs: `TransactionService`.
pub mod Sent
use aelf_web3_rust.Base.{
  ℕ, ◌++◌, List, [], ◌∷◌, Bool, true, false, Option, none, some, Result, ok, err, panic, map_err,
  map_ok,
}
use aelf_web3_rust.Base.Text.{Text, codes}
use aelf_web3_rust.Base.Word.{ℤ}
use aelf_web3_rust.Base.Decimal.{int_to_string}
use aelf_web3_rust.Base.Json.{Value, object, string, entry, object_end, text_object}
use aelf_web3_rust.Client.Error.{AElfResult, json}
use aelf_web3_rust.Client.Action.{Action, ◌>>=◌, lift, Provider}
use aelf_web3_rust.Client.Codec.{Codec}
use aelf_web3_rust.Client.TransactionId.{validate_transaction_id}
use aelf_web3_rust.Client.Dto.{
  TransactionPoolStatusOutput, ExecuteRawTransactionDto, CreateRawTransactionInput,
  CreateRawTransactionOutput, SendRawTransactionInput, SendRawTransactionOutput,
  SendTransactionOutput, TransactionResultDto, MerklePathDto, CalculateTransactionFeeInput,
  CalculateTransactionFeeOutput,
}
use aelf_web3_rust.Client.Service.{api_base, get_json, post_json, post_text}

module _ {H W : Type 0} (provider : Provider H W) (codec : Codec) where
  unfoldable pub get_transaction_pool_status : Action H W TransactionPoolStatusOutput
  unfolding get_json
  get_transaction_pool_status =
      get_json provider codec.pool_status (api_base ++ codes "/transactionPoolStatus") []

  unfoldable pub execute_transaction : Text → Action H W Text
  unfolding post_text
  execute_transaction raw_transaction =
      post_text provider (api_base ++ codes "/executeTransaction")
        (text_object (codes "RawTransaction") raw_transaction)

  unfoldable pub execute_raw_transaction : ExecuteRawTransactionDto → Action H W Text
  unfolding post_text
  execute_raw_transaction input = post_text provider (api_base ++ codes "/executeRawTransaction") (
      object (
        entry (codes "RawTransaction") (string input.raw_transaction)
          (entry (codes "Signature") (string input.signature) object_end)))

  unfoldable pub create_raw_transaction :
      CreateRawTransactionInput → Action H W CreateRawTransactionOutput
  unfolding post_json
  create_raw_transaction input = do
    body ← lift (map_err json (codec.create_raw_transaction_value input))
    post_json provider codec.raw_transaction (api_base ++ codes "/rawTransaction") body

  unfoldable pub send_raw_transaction :
      SendRawTransactionInput → Action H W SendRawTransactionOutput
  unfolding post_json
  send_raw_transaction input = do
    body ← lift (map_err json (codec.send_raw_transaction_value input))
    post_json provider codec.raw_transaction_sent (api_base ++ codes "/sendRawTransaction") body

  abbrev pub validated : Text → Text → AElfResult H SendTransactionOutput
  validated text transaction_id =
      map_ok (λ id. record { transaction_id = id }) (validate_transaction_id transaction_id text)

  -- `text` as an object, as a JSON text, or taken as it is.
  abbrev pub first_reading :
      Result Text SendTransactionOutput
      → Result Text Text
      → Text
      → AElfResult H SendTransactionOutput
  first_reading (ok output) as_text text = validated text output.transaction_id
  first_reading panic as_text text = panic
  first_reading (err _) (ok transaction_id) text = validated text transaction_id
  first_reading (err _) panic text = panic
  first_reading (err _) (err _) text = validated text text

  unfoldable pub read_sent : Text → AElfResult H SendTransactionOutput
  unfolding validate_transaction_id
  read_sent text = first_reading (codec.sent_from_str text) (codec.text_from_str text) text

  unfoldable pub send_transaction : Text → Action H W SendTransactionOutput
  unfolding post_text read_sent
  send_transaction raw_transaction = do
    text ←
        post_text provider (api_base ++ codes "/sendTransaction")
          (text_object (codes "RawTransaction") raw_transaction)
    lift (read_sent text)

  unfoldable pub send_transactions : Text → Action H W (List Text)
  unfolding post_json
  send_transactions raw_transactions =
      post_json provider codec.texts (api_base ++ codes "/sendTransactions")
        (text_object (codes "RawTransactions") raw_transactions)

  unfoldable pub get_transaction_result : Text → Action H W TransactionResultDto
  unfolding get_json
  get_transaction_result transaction_id =
      get_json provider codec.transaction_result (api_base ++ codes "/transactionResult")
        ((codes "transactionId", transaction_id) ∷ [])

  unfoldable pub get_transaction_results : Text → ℤ → ℤ → Action H W (List TransactionResultDto)
  unfolding get_json int_to_string
  get_transaction_results block_hash offset limit =
      get_json provider codec.transaction_results (api_base ++ codes "/transactionResults") (
        (codes "blockHash", block_hash)
        ∷ (codes "offset", int_to_string offset)
        ∷ (codes "limit", int_to_string limit)
        ∷ [])

  unfoldable pub get_merkle_path_by_transaction_id : Text → Action H W MerklePathDto
  unfolding get_json
  get_merkle_path_by_transaction_id transaction_id =
      get_json provider codec.merkle_path (api_base ++ codes "/merklePathByTransactionId")
        ((codes "transactionId", transaction_id) ∷ [])

  unfoldable pub calculate_transaction_fee :
      CalculateTransactionFeeInput → Action H W (CalculateTransactionFeeOutput codec.Float)
  unfolding post_json
  calculate_transaction_fee input = do
    body ← lift (map_err json (codec.calculate_fee_value input))
    post_json provider codec.transaction_fee (api_base ++ codes "/calculateTransactionFee") body
