-- ===== src/Sdk/Examples/TokenTransfer.antt =====
-- crates/aelf-sdk/examples/token_transfer.rs.
use aelf_web3_rust.Base.{
  [], ◌++◌, false, not, none, some, ok, map_err, guard, list_eq, if◌then◌else◌,
}
use aelf_web3_rust.Base.Async.{◌>>=◌, ◌>>◌, lift}
use aelf_web3_rust.Base.Text.{Text, codes}
use aelf_web3_rust.Base.Decimal.{int_to_string}
use aelf_web3_rust.Crypto.Crates.{Crates}
use aelf_web3_rust.Crypto.Address.{parse_aelf_address, decode_address}
use aelf_web3_rust.Crypto.Wallet.{from_private_key}
use aelf_web3_rust.Client.Action.{Provider}
use aelf_web3_rust.Client.Codec.{Codec}
use aelf_web3_rust.Client.Dto.{HashMap, lookup}
use aelf_web3_rust.Client.Service.Tx.{calculate_transaction_fee, send_transaction}
use aelf_web3_rust.Client.Utils.{get_contract_address_by_name, get_formatted_address}
use aelf_web3_rust.Client.Builder.{
  new_builder, with_wallet, with_contract, with_method, with_message, build_signed,
}
use aelf_web3_rust.Sdk.Examples.{
  Environment, TransferInput, Effects, Run, client, crypto, variable, message, from_client, effect,
  or_else, parsed_or, should_send, endpoint, amount,
}
use aelf_web3_rust.Sdk.Examples.Polling.{poll}

module _ {H W : Type 0} (codec : Codec) (crates : Crates) (environment : Environment H codec.Float)
    (effects : Effects W) (provider : Text → Provider H W) where
  open crates use {hex_encode, encode_transaction}
  open environment use {
    var, connect, debug_fees, display_f64, parse_f64, f64_gt, f64_zero, f64_cent, encode_transfer,
  }
  open effects use {println}

  -- `fee.get("ELF").copied().unwrap_or_default()`.
  abbrev pub elf_fee_of : HashMap codec.Float → codec.Float
  elf_fee_of fees = elim (lookup (codes "ELF") fees) [ none ↦ f64_zero | some fee ↦ fee ]

  -- After the dry run: the fee is checked, the transaction is sent, and its result is waited for.
  unfoldable pub submit_transfer :
      Provider H W → Text → codec.Float → codec.Float → Run H W (Unit {0})
  unfolding send_transaction poll
  submit_transfer p raw_transaction elf_fee max_fee = do
    lift (
        guard (not (f64_gt elf_fee max_fee)) (
          message (
            codes "estimated ELF fee "
            ++ (display_f64 elf_fee ++ (codes " exceeds max fee " ++ display_f64 max_fee)))))
    output ← from_client (send_transaction p codec raw_transaction)
    effect (println (codes "transaction_id=" ++ output.transaction_id))
    poll environment effects p codec false output.transaction_id 15

  unfoldable pub transfer_main : Run H W (Unit {0})
  unfolding amount should_send from_private_key parse_aelf_address get_contract_address_by_name
      get_formatted_address decode_address new_builder with_wallet with_contract with_method
      with_message build_signed calculate_transaction_fee submit_transfer int_to_string lookup
  transfer_main = do
    private_key ← lift (map_err variable (var (codes "AELF_PRIVATE_KEY")))
    to_var ← lift (map_err variable (var (codes "AELF_TO_ADDRESS")))
    amount_raw ← lift (amount environment)
    let token_var = or_else (var (codes "AELF_TOKEN_CONTRACT")) []
    max_fee ← lift (parsed_or (var (codes "AELF_MAX_FEE")) parse_f64 f64_cent)
    lift (map_err client (connect (endpoint environment)))
    let p = provider (endpoint environment)
    wallet ← lift (map_err crypto (from_private_key crates private_key))
    let to = parse_aelf_address to_var
    token_address ←
        (if list_eq token_var []
          then from_client
              (get_contract_address_by_name p codec crates (codes "AElf.ContractNames.Token"))
          else lift (ok token_var))
    formatted ← from_client (get_formatted_address p codec crates to)
    to_value ← lift (map_err crypto (decode_address crates to))
    let input : TransferInput = record {
      to = some (record { value = to_value });
      symbol = codes "ELF";
      amount = amount_raw;
      memo = codes "transfer from rust sdk example";
    }
    transaction ← from_client (
        build_signed p codec crates (
          with_message
            (with_method (with_contract (with_wallet new_builder wallet) token_address)
              (codes "Transfer"))
            (encode_transfer input)))
    let raw_transaction = hex_encode (encode_transaction transaction)
    fee ←
        from_client
          (calculate_transaction_fee p codec (record { raw_transaction = raw_transaction }))
    effect (println (codes "from=" ++ wallet.address))
    effect (println (codes "to=" ++ to))
    effect (println (codes "formatted_to=" ++ formatted))
    effect (println (codes "amount_raw=" ++ int_to_string amount_raw))
    effect (println (codes "estimated_fee=" ++ debug_fees fee.transaction_fee))
    if should_send environment
        then submit_transfer p raw_transaction (elf_fee_of fee.transaction_fee) max_fee
        else effect (println (codes "dry_run=true"))
