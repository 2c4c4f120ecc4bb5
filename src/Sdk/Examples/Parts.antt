-- ===== src/Sdk/Examples/Parts.antt =====
-- crates/aelf-sdk/examples: the part of a run that sends a transaction and waits for its result.
use aelf_web3_rust.Base.{
  ◌≡◌, refl, ℕ, zero, suc, ◌+◌, ◌*◌, ◌++◌, Bool, true, false, ◌||◌, ok, list_eq, arith,
}
use aelf_web3_rust.Base.Text.{Text, codes}
use aelf_web3_rust.Crypto.Crates.{Crates}
use aelf_web3_rust.Client.Action.{Provider}
use aelf_web3_rust.Client.Codec.{Codec}
use aelf_web3_rust.Client.Dto.{TransactionResultDto, SendRawTransactionInput}
use aelf_web3_rust.Client.Service.{api_base, post_json, post_text, get_json}
use aelf_web3_rust.Client.Service.Tx.{
  get_transaction_result, send_transaction, send_raw_transaction,
}
use aelf_web3_rust.Client.Counting.{
  Counts, IsQuiet, Priced, Costs, counting, lift-IsQuiet, bind-IsQuiet, bind-Counts, Counts-weaken,
  quiet_then, if-Counts, request_json-IsQuiet, request_text-IsQuiet, request_json-Counts,
  request_text-Counts,
}
use aelf_web3_rust.Sdk.Examples.{Environment, Effects}
use aelf_web3_rust.Sdk.Examples.Polling.{report, poll}
use aelf_web3_rust.Sdk.Examples.TokenTransfer.{submit_transfer}
use aelf_web3_rust.Sdk.Examples.RawTransactionFlow.{submit_raw}
use aelf_web3_rust.Sdk.Examples.Sending.{
  IgnoresDryRun, counted_effects, from_client-Counts, println-IsQuiet, sleep-IsQuiet, run_rules,
}

-- A request that sends a transaction, and one for the result of a transaction.
abbrev pub is_sending : Text → Bool
is_sending path =
    list_eq path (api_base ++ codes "/sendTransaction")
    || list_eq path (api_base ++ codes "/sendTransactions")
    || list_eq path (api_base ++ codes "/sendRawTransaction")

abbrev pub is_polling : Text → Bool
is_polling path = list_eq path (api_base ++ codes "/transactionResult")

pub sending-Ignores : IgnoresDryRun is_sending
unfolding list_eq
sending-Ignores = record {
  builds = record { chain_status = refl; execution = refl };
  creation = refl;
  execution = refl;
  fee = refl;
}

pub polling-Ignores : IgnoresDryRun is_polling
unfolding list_eq
polling-Ignores = record {
  builds = record { chain_status = refl; execution = refl };
  creation = refl;
  execution = refl;
  fee = refl;
}

paths :
    (is_sending (api_base ++ codes "/sendTransaction") ≡ true)
    × (is_sending (api_base ++ codes "/sendRawTransaction") ≡ true)
    × (is_sending (api_base ++ codes "/transactionResult") ≡ false)
    × (is_polling (api_base ++ codes "/sendTransaction") ≡ false)
    × (is_polling (api_base ++ codes "/sendRawTransaction") ≡ false)
    × (is_polling (api_base ++ codes "/transactionResult") ≡ true)
unfolding list_eq
paths = (refl, refl, refl, refl, refl, refl)

module _ {H W : Type 0} (codec : Codec) (crates : Crates) (environment : Environment H codec.Float)
    (effects : Effects W) (provider : Provider H (ℕ × W)) where
  abbrev e : Effects (ℕ × W)
  e = counted_effects effects

  report-IsQuiet :
      (with_block : Bool) (result : TransactionResultDto)
      → IsQuiet (report environment e provider codec with_block result)
  unfolding report
  report-IsQuiet with_block result = search run_rules depth 20

  -- Each round of the loop asks once.
  poll-Counts :
      (with_block : Bool) (id : Text) (most n : ℕ)
      → Counts 0 most (get_transaction_result provider codec id)
      → Counts 0 (n * most) (poll environment e provider codec with_block id n)
  unfolding poll
  poll-Counts with_block id most zero asks =
      Counts-weaken 0 0 0 (0 * most) _ (omega arith) (omega arith) (lift-IsQuiet (ok tt))
  poll-Counts with_block id most (suc n) asks =
      let rest = poll-Counts with_block id most n asks in
      let last : (result : TransactionResultDto)
          → Counts 0 (n * most) (report environment e provider codec with_block result) =
        λ result.
          Counts-weaken 0 0 0 (n * most) _ (omega arith) (omega arith)
            (report-IsQuiet with_block result) in
      Counts-weaken 0 0 (most + n * most) (suc n * most) _ (omega arith) (grind arith) (
        bind-Counts 0 most (n * most) _ _ (from_client-Counts 0 most _ asks)
          (λ result. search (quiet_then, if-Counts, println-IsQuiet, sleep-IsQuiet, rest, last)))

  pub submit_transfer-Counts :
      (p : Text → Provider H (ℕ × W)) (raw : Text) (fee max_fee : codec.Float) (sends polls : ℕ)
      → Counts 0 sends (send_transaction provider codec raw)
      → ((id : Text) → Counts 0 polls (get_transaction_result provider codec id))
      → Counts 0
          (sends + 15 * polls)
          (submit_transfer codec crates environment e p provider raw fee max_fee)
  unfolding submit_transfer
  submit_transfer-Counts p raw fee max_fee sends polls sent polled =
      quiet_then (sends + 15 * polls) _ _ (lift-IsQuiet _) λ u.
        bind-Counts 0 sends (15 * polls) _ _ (from_client-Counts 0 sends _ sent) λ output.
          quiet_then (15 * polls) _ _ (println-IsQuiet effects _)
            (λ u'. poll-Counts false output.transaction_id polls 15 (polled output.transaction_id))

  pub submit_raw-Counts :
      (p : Text → Provider H (ℕ × W)) (raw signature : Text) (sends polls : ℕ)
      → ((input : SendRawTransactionInput)
          → Counts 0 sends (send_raw_transaction provider codec input))
      → ((id : Text) → Counts 0 polls (get_transaction_result provider codec id))
      → Counts 0
          (sends + 15 * polls)
          (submit_raw codec crates environment e p provider raw signature)
  unfolding submit_raw
  submit_raw-Counts p raw signature sends polls sent polled =
      bind-Counts 0 sends (15 * polls) _ _ (from_client-Counts 0 sends _ (sent _)) λ output.
        quiet_then (15 * polls) _ _ (println-IsQuiet effects _)
          (λ u. poll-Counts true output.transaction_id polls 15 (polled output.transaction_id))

-- The requests of the last part, for each of the two kinds.
module _ {H W : Type 0} (codec : Codec) (provider : Priced H W) (most : ℕ)
    (costs : Costs 0 most provider) where
  pub sending_part :
      ((raw : Text) → Counts 0 most (send_transaction (counting is_sending provider) codec raw))
      × ((input : SendRawTransactionInput)
          → Counts 0 most (send_raw_transaction (counting is_sending provider) codec input))
      × ((id : Text) → IsQuiet (get_transaction_result (counting is_sending provider) codec id))
  unfolding send_transaction post_text send_raw_transaction post_json get_transaction_result
      get_json
  sending_part = (
    λ raw. Counts-weaken 0 0 (most + 0) most _ (omega arith) (omega arith) (
        bind-Counts 0 most 0 _ _
          (request_text-Counts is_sending provider 0 most costs _ _ _ _ paths.0)
          (λ text. lift-IsQuiet _)),
    λ input. quiet_then most _ _ (lift-IsQuiet _) λ body.
        Counts-weaken 0 0 (most + 0) most _ (omega arith) (omega arith) (
          bind-Counts 0 most 0 _ _
            (request_json-Counts is_sending provider 0 most costs _ _ _ _ paths.1)
            (λ value. lift-IsQuiet _)),
    λ id.
        bind-IsQuiet _ _ (request_json-IsQuiet is_sending provider _ _ _ _ paths.2)
          (λ value. lift-IsQuiet _),
  )

  pub polling_part :
      ((raw : Text) → IsQuiet (send_transaction (counting is_polling provider) codec raw))
      × ((input : SendRawTransactionInput)
          → IsQuiet (send_raw_transaction (counting is_polling provider) codec input))
      × ((id : Text)
          → Counts 0 most (get_transaction_result (counting is_polling provider) codec id))
  unfolding send_transaction post_text send_raw_transaction post_json get_transaction_result
      get_json
  polling_part = (
    λ raw.
        bind-IsQuiet _ _ (request_text-IsQuiet is_polling provider _ _ _ _ paths.3)
          (λ text. lift-IsQuiet _),
    λ input. bind-IsQuiet _ _ (lift-IsQuiet _) λ body.
        bind-IsQuiet _ _ (request_json-IsQuiet is_polling provider _ _ _ _ paths.4)
          (λ value. lift-IsQuiet _),
    λ id. Counts-weaken 0 0 (most + 0) most _ (omega arith) (omega arith) (
        bind-Counts 0 most 0 _ _
          (request_json-Counts is_polling provider 0 most costs _ _ _ _ paths.5)
          (λ value. lift-IsQuiet _)),
  )
