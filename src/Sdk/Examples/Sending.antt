-- ===== src/Sdk/Examples/Sending.antt =====
-- crates/aelf-sdk/examples: rules for the requests that a run makes.
use aelf_web3_rust.Base.{◌≡◌, ℕ, ◌++◌, Bool, true, false, Result, ok, err, panic, arith}
use aelf_web3_rust.Base.Text.{Text, codes}
use aelf_web3_rust.Base.Word.{ℤ}
use aelf_web3_rust.Crypto.Crates.{Crates}
use aelf_web3_rust.Crypto.Wallet.{Wallet}
use aelf_web3_rust.Client.Error.{AElfError}
use aelf_web3_rust.Client.Action.{Action, Provider}
use aelf_web3_rust.Client.Codec.{Codec}
use aelf_web3_rust.Client.Dto.{
  CreateRawTransactionInput, CreateRawTransactionOutput, ExecuteRawTransactionDto,
  CalculateTransactionFeeInput,
}
use aelf_web3_rust.Client.Service.{api_base, post_json, post_text}
use aelf_web3_rust.Client.Service.Tx.{
  create_raw_transaction, execute_raw_transaction, calculate_transaction_fee,
}
use aelf_web3_rust.Client.Counting.{
  Counts, IsQuiet, Priced, counting, lift-IsQuiet, bind-IsQuiet, bind-Counts, Counts-weaken,
  quiet_then, if-Counts, request_json-IsQuiet, request_text-IsQuiet, request_json-Counts,
  request_text-Counts,
}
use aelf_web3_rust.Client.Counting.Services.{
  Ignores, get_chain_status-IsQuiet, generate_transaction-IsQuiet,
  get_contract_address_by_name-IsQuiet, get_formatted_address-IsQuiet, build_signed-IsQuiet,
}
use aelf_web3_rust.Sdk.Examples.{
  ExampleError, Environment, Effects, from_client, effect, should_send,
}
use aelf_web3_rust.Sdk.Examples.TokenTransfer.{submit_transfer, transfer_main}
use aelf_web3_rust.Sdk.Examples.RawTransactionFlow.{
  catch, chosen_transaction, try_raw, submit_raw, raw_flow_main,
}

-- The effects beside a count.
abbrev pub counted_effects : {W : Type 0} → Effects W → Effects (ℕ × W)
counted_effects effects = record {
  println = λ t (n, w). (n, effects.println t w);
  sleep_second = λ (n, w). (n, effects.sleep_second w);
}

-- The requests of an example before it sends are not among those that are counted.
pub record IgnoresDryRun (counts : Text → Bool) : Type 0 where
  pub builds : Ignores counts
  pub creation : counts (api_base ++ codes "/rawTransaction") ≡ false
  pub execution : counts (api_base ++ codes "/executeRawTransaction") ≡ false
  pub fee : counts (api_base ++ codes "/calculateTransactionFee") ≡ false

module _ {H W : Type 0} where
  pub from_client-Counts :
      {A : Type 0} (least most : ℕ) (m : Action H (ℕ × W) A)
      → Counts least most m
      → Counts least most (from_client m)
  from_client-Counts least most m h = record { at = λ n w. h.at n w }

  pub from_client-IsQuiet :
      {A : Type 0} (m : Action H (ℕ × W) A) → IsQuiet m → IsQuiet (from_client m)
  from_client-IsQuiet m h = from_client-Counts 0 0 m h

  pub catch-IsQuiet : {A : Type 0} (m : Action H (ℕ × W) A) → IsQuiet m → IsQuiet (catch m)
  catch-IsQuiet m h = record { at = λ n w. h.at n w }

  pub println-IsQuiet :
      (effects : Effects W) (t : Text)
      → IsQuiet {E = ExampleError H} (effect ((counted_effects effects).println t))
  println-IsQuiet effects t = record { at = λ n w. omega arith }

  pub sleep-IsQuiet :
      (effects : Effects W)
      → IsQuiet {E = ExampleError H} (effect (counted_effects effects).sleep_second)
  sleep-IsQuiet effects = record { at = λ n w. omega arith }

pub ruleset run_rules = (
  lift-IsQuiet, from_client-IsQuiet, catch-IsQuiet, println-IsQuiet, sleep-IsQuiet, quiet_then,
  if-Counts,
)

module _ {H W : Type 0} (codec : Codec) (crates : Crates) (environment : Environment H codec.Float)
    (effects : Effects W) (provider : Text → Priced H W) (counts : Text → Bool)
    (ignores : IgnoresDryRun counts) where
  abbrev pub counted_provider : Text → Provider H (ℕ × W)
  counted_provider endpoint = counting counts (provider endpoint)

  abbrev p : Text → Provider H (ℕ × W)
  p = counted_provider

  abbrev e : Effects (ℕ × W)
  e = counted_effects effects

  builds : Ignores counts
  builds = ignores.builds

  calculate_transaction_fee-IsQuiet :
      (endpoint : Text) (input : CalculateTransactionFeeInput)
      → IsQuiet (calculate_transaction_fee (p endpoint) codec input)
  unfolding calculate_transaction_fee post_json
  calculate_transaction_fee-IsQuiet endpoint input = bind-IsQuiet _ _ (lift-IsQuiet _) λ body.
      bind-IsQuiet _ _ (request_json-IsQuiet counts (provider endpoint) _ _ _ _ ignores.fee)
        (λ v. lift-IsQuiet _)

  create_raw_transaction-IsQuiet :
      (endpoint : Text) (input : CreateRawTransactionInput)
      → IsQuiet (create_raw_transaction (p endpoint) codec input)
  unfolding create_raw_transaction post_json
  create_raw_transaction-IsQuiet endpoint input = bind-IsQuiet _ _ (lift-IsQuiet _) λ body.
      bind-IsQuiet _ _ (request_json-IsQuiet counts (provider endpoint) _ _ _ _ ignores.creation)
        (λ v. lift-IsQuiet _)

  execute_raw_transaction-IsQuiet :
      (endpoint : Text) (input : ExecuteRawTransactionDto)
      → IsQuiet (execute_raw_transaction (p endpoint) codec input)
  unfolding execute_raw_transaction post_text
  execute_raw_transaction-IsQuiet endpoint input =
      request_text-IsQuiet counts (provider endpoint) _ _ _ _ ignores.execution

  chosen_transaction-IsQuiet :
      (raw : Text) (created : Result (AElfError H) CreateRawTransactionOutput)
      → IsQuiet (chosen_transaction codec crates environment e p raw created)
  unfolding chosen_transaction
  chosen_transaction-IsQuiet raw (ok created) = lift-IsQuiet _
  chosen_transaction-IsQuiet raw (err error) =
      bind-IsQuiet _ _ (println-IsQuiet effects _) (λ u. lift-IsQuiet (ok (raw, false)))
  chosen_transaction-IsQuiet raw panic = lift-IsQuiet _

  try_raw-IsQuiet :
      (endpoint : Text) (wallet : Wallet) (to token_address : Text) (amount_raw : ℤ)
      (chosen : Text × Bool) (unsigned_raw signature : Text)
      → IsQuiet (
          try_raw codec crates environment e p
            (p endpoint)
            wallet
            to
            token_address
            amount_raw
            chosen
            unsigned_raw
            signature)
  unfolding try_raw
  try_raw-IsQuiet endpoint wallet to token_address amount_raw chosen unsigned_raw signature =
      search
        (
          run_rules, get_formatted_address-IsQuiet, execute_raw_transaction-IsQuiet,
          calculate_transaction_fee-IsQuiet, builds,
        )
        depth 80

  -- What comes before the choice between sending and not sending makes no request that is counted.
  pub transfer_main-Counts :
      (most : ℕ)
      → ((endpoint raw : Text) (fee max_fee : codec.Float)
          → should_send environment ≡ true
          → Counts 0 most
              (submit_transfer codec crates environment e p (p endpoint) raw fee max_fee))
      → Counts 0 most (effect {H = H} (e.println (codes "dry_run=true")))
      → Counts 0 most (transfer_main codec crates environment e p)
  unfolding transfer_main
  transfer_main-Counts most sends dry =
      search
        (
          run_rules, get_contract_address_by_name-IsQuiet, get_formatted_address-IsQuiet,
          build_signed-IsQuiet, calculate_transaction_fee-IsQuiet, builds, sends, dry,
        )
        depth 80

  pub raw_flow_main-Counts :
      (most : ℕ)
      → ((endpoint raw signature : Text)
          → should_send environment ≡ true
          → Counts 0 most (submit_raw codec crates environment e p (p endpoint) raw signature))
      → Counts 0 most (effect {H = H} (e.println (codes "dry_run=true")))
      → Counts 0 most (raw_flow_main codec crates environment e p)
  unfolding raw_flow_main
  raw_flow_main-Counts most sends dry =
      search
        (
          run_rules, get_contract_address_by_name-IsQuiet, get_chain_status-IsQuiet,
          generate_transaction-IsQuiet, create_raw_transaction-IsQuiet, chosen_transaction-IsQuiet,
          try_raw-IsQuiet, builds, sends, dry,
        )
        depth 80
