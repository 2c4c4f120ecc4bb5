-- ===== src/Sdk/Examples/Polling.antt =====
-- crates/aelf-sdk/examples: the loop that waits for the result of a transaction.
use aelf_web3_rust.Base.{ℕ, zero, suc, [], ◌++◌, Bool, ok, list_eq, if◌then◌else◌}
use aelf_web3_rust.Base.Async.{◌>>=◌, ◌>>◌, lift}
use aelf_web3_rust.Base.Text.{Text, codes}
use aelf_web3_rust.Base.Decimal.{int_to_string}
use aelf_web3_rust.Client.Action.{Provider}
use aelf_web3_rust.Client.Codec.{Codec}
use aelf_web3_rust.Client.Dto.{TransactionResultDto, get_transaction_fees}
use aelf_web3_rust.Client.Service.Tx.{get_transaction_result}
use aelf_web3_rust.Sdk.Examples.{Environment, Effects, Run, from_client, effect}

module _ {H F W : Type 0} (environment : Environment H F) (effects : Effects W)
    (provider : Provider H W) (codec : Codec) where
  open environment use {debug_charges, decode_fee, decode_resource}
  open effects use {println, sleep_second}

  -- The lines for a result that is not pending. `with_block` is whether its block is printed too.
  unfoldable pub report : Bool → TransactionResultDto → Run H W (Unit {0})
  unfolding get_transaction_fees int_to_string
  report with_block result = do
    effect (
        println (
          codes "tx_fee="
          ++ debug_charges
              (get_transaction_fees codec.base64_decode decode_fee decode_resource result)))
    (if with_block
        then effect (println (codes "block_number=" ++ int_to_string result.block_number))
        else lift (ok tt))
    if list_eq result.error []
        then lift (ok tt)
        else effect (println (codes "error=" ++ result.error))

  -- `for _ in 0..n`, left by `break`.
  unfoldable pub poll : Bool → Text → ℕ → Run H W (Unit {0})
  unfolding report get_transaction_result
  poll with_block transaction_id zero = lift (ok tt)
  poll with_block transaction_id (suc n) =
      let rest = (effect sleep_second >> poll with_block transaction_id n) in
      do
        result ← from_client (get_transaction_result provider codec transaction_id)
        effect (println (codes "status=" ++ result.status))
        if list_eq result.status (codes "PENDING") then rest else report with_block result
