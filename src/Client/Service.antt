-- ===== src/Client/Service.antt =====
-- crates/aelf-client/src/lib.rs: the services for blocks, the chain and the network. Those for
-- transactions stand in the module below.
pub mod Tx
use aelf_web3_rust.Base.{
  ℕ, ◌++◌, List, [], ◌∷◌, Bool, true, false, Option, none, some, Result, ok, err, panic, map_err,
}
use aelf_web3_rust.Base.Text.{Text, Bytes, codes}
use aelf_web3_rust.Base.Text.Ascii.{eq_ignore_ascii_case}
use aelf_web3_rust.Base.Text.Trim.{trim, trim_matches}
use aelf_web3_rust.Base.Word.{ℤ}
use aelf_web3_rust.Base.Decimal.{int_to_string, parse_i64, parse_int_error_text}
use aelf_web3_rust.Base.Json.{Value, text_object}
use aelf_web3_rust.Crypto.ChainId.{base58_to_chain_id}
use aelf_web3_rust.Crypto.Crates.{Crates}
use aelf_web3_rust.Client.Error.{AElfResult, json, base64, crypto, invalid_config}
use aelf_web3_rust.Client.Provider.{Query, get, post, delete}
use aelf_web3_rust.Client.Action.{Action, ◌>>=◌, lift, Provider}
use aelf_web3_rust.Client.Codec.{Codec}
use aelf_web3_rust.Client.Dto.{
  ChainStatusDto, BlockDto, PeerDto, NetworkInfoOutput, TaskQueueInfoDto,
}

abbrev pub api_base : Text
api_base = codes "api/blockChain"

abbrev pub net_api_base : Text
net_api_base = codes "api/net"

-- `bool::to_string`.
abbrev pub bool_to_string : Bool → Text
bool_to_string true = codes "true"
bool_to_string false = codes "false"

module _ {H W : Type 0} (provider : Provider H W) where
  open provider use {request_json, request_text}

  unfoldable pub get_json : {A : Type 0} → (Value → Result Text A) → Text → Query → Action H W A
  get_json from_value path query = do
    value ← request_json get path query none
    lift (map_err json (from_value value))

  unfoldable pub post_json : {A : Type 0} → (Value → Result Text A) → Text → Value → Action H W A
  post_json from_value path body = do
    value ← request_json post path [] (some body)
    lift (map_err json (from_value value))

  unfoldable pub get_text : Text → Query → Action H W Text
  get_text path query = request_text get path query none

  unfoldable pub post_text : Text → Value → Action H W Text
  post_text path body = request_text post path [] (some body)

  -- BlockService.
  unfoldable pub get_block_height : Action H W ℤ
  unfolding get_text trim_matches parse_i64 parse_int_error_text
  get_block_height = do
    text ← get_text (api_base ++ codes "/blockHeight") []
    lift (
        map_err (λ e. invalid_config (codes "invalid block height: " ++ parse_int_error_text e))
          (parse_i64 (trim_matches text b'"')))

  module _ (codec : Codec) where
    unfoldable pub get_block_by_hash : Text → Bool → Action H W BlockDto
    unfolding get_json
    get_block_by_hash block_hash include_transactions =
        get_json codec.block (api_base ++ codes "/block") (
          (codes "blockHash", block_hash)
          ∷ (codes "includeTransactions", bool_to_string include_transactions)
          ∷ [])

    unfoldable pub get_block_by_height : ℤ → Bool → Action H W BlockDto
    unfolding get_json int_to_string
    get_block_by_height block_height include_transactions =
        get_json codec.block (api_base ++ codes "/blockByHeight") (
          (codes "blockHeight", int_to_string block_height)
          ∷ (codes "includeTransactions", bool_to_string include_transactions)
          ∷ [])

    -- ChainService.
    unfoldable pub get_chain_status : Action H W ChainStatusDto
    unfolding get_json
    get_chain_status = get_json codec.chain_status (api_base ++ codes "/chainStatus") []

    unfoldable pub get_contract_file_descriptor_set : Text → Action H W Bytes
    unfolding get_text trim_matches
    get_contract_file_descriptor_set address = do
      text ←
          get_text (api_base ++ codes "/contractFileDescriptorSet")
            ((codes "address", address) ∷ [])
      lift (map_err base64 (codec.base64_decode (trim_matches text b'"')))

    unfoldable pub get_task_queue_status : Action H W (List TaskQueueInfoDto)
    unfolding get_json
    get_task_queue_status = get_json codec.task_queues (api_base ++ codes "/taskQueueStatus") []

    unfoldable pub get_chain_id : Crates → Action H W ℤ
    unfolding get_chain_status base58_to_chain_id
    get_chain_id crates = do
      status ← get_chain_status
      lift (map_err crypto (base58_to_chain_id crates status.chain_id))

    -- NetService.
    unfoldable pub add_peer : Text → Action H W Bool
    unfolding post_json
    add_peer address =
        post_json codec.boolean (net_api_base ++ codes "/peer")
          (text_object (codes "Address") address)

    unfoldable pub remove_peer : Text → Action H W Bool
    unfolding trim eq_ignore_ascii_case
    remove_peer address = do
      text ←
          request_text delete (net_api_base ++ codes "/peer") ((codes "address", address) ∷ []) none
      lift (elim (codec.boolean_from_str text) [
        | ok removed ↦ ok removed
        | err _ ↦ ok (eq_ignore_ascii_case (trim text) (codes "true"))
        | panic ↦ panic
      ])

    unfoldable pub get_peers : Bool → Action H W (List PeerDto)
    unfolding get_json
    get_peers with_metrics =
        get_json codec.peers (net_api_base ++ codes "/peers")
          ((codes "withMetrics", bool_to_string with_metrics) ∷ [])

    unfoldable pub get_network_info : Action H W NetworkInfoOutput
    unfolding get_json
    get_network_info = get_json codec.network_info (net_api_base ++ codes "/networkInfo") []
