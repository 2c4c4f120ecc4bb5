-- ===== src/Sdk/Examples/RawTransactionFlow.antt =====
-- crates/aelf-sdk/examples/raw_transaction_flow.rs.
use aelf_web3_rust.Base.{
  [], ◌++◌, Bool, true, false, some, Result, ok, err, panic, map_err, if◌then◌else◌,
}
use aelf_web3_rust.Base.Async.{◌>>=◌, ◌>>◌, lift}
use aelf_web3_rust.Base.Text.{Text, codes}
use aelf_web3_rust.Base.Text.Ascii.{eq_ignore_ascii_case}
use aelf_web3_rust.Base.Word.{ℤ}
use aelf_web3_rust.Base.Decimal.{int_to_string}
use aelf_web3_rust.Crypto.Crates.{Crates}
use aelf_web3_rust.Crypto.Address.{parse_aelf_address, decode_address}
use aelf_web3_rust.Crypto.Wallet.{Wallet, from_private_key, sign}
use aelf_web3_rust.Client.Error.{AElfError, AElfResult}
use aelf_web3_rust.Client.Action.{Action, Provider}
use aelf_web3_rust.Client.Codec.{Codec}
use aelf_web3_rust.Client.Dto.{CreateRawTransactionOutput}
use aelf_web3_rust.Client.Service.{get_chain_status, bool_to_string}
use aelf_web3_rust.Client.Service.Tx.{
  create_raw_transaction, execute_raw_transaction, calculate_transaction_fee, send_raw_transaction,
}
use aelf_web3_rust.Client.Utils.{
  get_contract_address_by_name, get_formatted_address, generate_transaction, sign_transaction,
}
use aelf_web3_rust.Sdk.Examples.{
  Environment, TransferInput, Effects, Run, ExampleError, client, crypto, variable, json, hex,
  from_client, effect, should_send, endpoint, amount,
}
use aelf_web3_rust.Sdk.Examples.Polling.{poll}

-- An action whose error is a value that the program goes on with.
abbrev pub caught :
    {H A : Type 0} → AElfResult H A → Result (ExampleError H) (Result (AElfError H) A)
caught (ok a) = ok (ok a)
caught (err e) = ok (err e)
caught panic = panic

abbrev pub catch : {H W A : Type 0} → Action H W A → Run H W (Result (AElfError H) A)
catch m w = let (r, w') = m w in (caught r, w')

module _ {H W : Type 0} (codec : Codec) (crates : Crates) (environment : Environment H codec.Float)
    (effects : Effects W) (provider : Text → Provider H W) where
  open crates use {hex_encode, hex_decode, encode_transaction}
  open environment use {var, connect, display_error, debug_fees, encode_transfer, transfer_json}
  open effects use {println}

  -- The node's transaction, or the one built here where the node makes none, and whether it is the node's.
  unfoldable pub chosen_transaction :
      Text → Result (AElfError H) CreateRawTransactionOutput → Run H W (Text × Bool)
  chosen_transaction unsigned_raw (ok created) = lift (ok (created.raw_transaction, true))
  chosen_transaction unsigned_raw (err error) = do
    effect (println (codes "create_raw_transaction_error=" ++ display_error error))
    lift (ok (unsigned_raw, false))
  chosen_transaction unsigned_raw panic = lift panic

  -- After the dry run: the transaction is sent with its signature, and its result is waited for.
  unfoldable pub submit_raw : Provider H W → Text → Text → Run H W (Unit {0})
  unfolding send_raw_transaction poll
  submit_raw p raw_transaction signature = do
    sent ← from_client (
        send_raw_transaction p codec (record {
          transaction = raw_transaction;
          signature = signature;
          return_transaction = true;
        }))
    effect (println (codes "transaction_id=" ++ sent.transaction_id))
    poll environment effects p codec true sent.transaction_id 15

  -- The lines about the transaction, with the node's execution of it and its fee.
  unfoldable pub try_raw :
      Provider H W → Wallet → Text → Text → ℤ → Text × Bool → Text → Text → Run H W (Unit {0})
  unfolding get_formatted_address execute_raw_transaction calculate_transaction_fee int_to_string
      eq_ignore_ascii_case
  try_raw p wallet to token_address amount_raw chosen unsigned_raw signature = do
    effect (println (codes "from=" ++ wallet.address))
    effect (println (codes "to=" ++ to))
    formatted ← from_client (get_formatted_address p codec crates to)
    effect (println (codes "formatted_to=" ++ formatted))
    effect (println (codes "token_contract=" ++ token_address))
    effect (println (codes "amount_raw=" ++ int_to_string amount_raw))
    effect (println (codes "created_by_node=" ++ bool_to_string chosen.1))
    effect (
        println (
          codes "raw_transaction_matches_sdk="
          ++ bool_to_string (eq_ignore_ascii_case chosen.0 unsigned_raw)))
    execute_raw ← from_client (
        execute_raw_transaction p codec
          (record { raw_transaction = chosen.0; signature = signature }))
    effect (println (codes "execute_raw_result=" ++ execute_raw))
    fee ← from_client (calculate_transaction_fee p codec (record { raw_transaction = chosen.0 }))
    effect (println (codes "estimated_fee=" ++ debug_fees fee.transaction_fee))

  unfoldable pub raw_flow_main : Run H W (Unit {0})
  unfolding amount should_send from_private_key parse_aelf_address get_contract_address_by_name
      decode_address get_chain_status generate_transaction sign_transaction create_raw_transaction
      chosen_transaction sign try_raw submit_raw
  raw_flow_main = do
    private_key ← lift (map_err variable (var (codes "AELF_PRIVATE_KEY")))
    to_env ← lift (map_err variable (var (codes "AELF_TO_ADDRESS")))
    let to = parse_aelf_address to_env
    amount_raw ← lift (amount environment)
    lift (map_err client (connect (endpoint environment)))
    let p = provider (endpoint environment)
    wallet ← lift (map_err crypto (from_private_key crates private_key))
    token_address ←
        from_client (get_contract_address_by_name p codec crates (codes "AElf.ContractNames.Token"))
    chain_status ← from_client (get_chain_status p codec)
    to_value ← lift (map_err crypto (decode_address crates to))
    let transfer : TransferInput = record {
      to = some (record { value = to_value });
      symbol = codes "ELF";
      amount = amount_raw;
      memo = codes "raw transaction flow validation";
    }
    params_json ← lift (map_err json (transfer_json transfer))
    unsigned ← from_client (
        generate_transaction p codec crates wallet.address token_address (codes "Transfer")
          (encode_transfer transfer))
    signed ← lift (map_err client (sign_transaction p codec crates wallet unsigned))
    let unsigned_raw = hex_encode (encode_transaction (record signed { signature = [] }))
    created ← catch (
        create_raw_transaction p codec (record {
          from = wallet.address;
          to = token_address;
          ref_block_number = chain_status.best_chain_height;
          ref_block_hash = chain_status.best_chain_hash;
          method_name = codes "Transfer";
          params = params_json;
        }))
    chosen ← chosen_transaction unsigned_raw created
    let raw_transaction = chosen.0
    raw_bytes ← lift (map_err hex (hex_decode raw_transaction))
    signature_bytes ← lift (map_err crypto (sign crates wallet raw_bytes))
    let signature = hex_encode signature_bytes
    try_raw p wallet to token_address amount_raw chosen unsigned_raw signature
    if should_send environment
        then submit_raw p raw_transaction signature
        else effect (println (codes "dry_run=true"))
