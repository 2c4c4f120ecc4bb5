-- ===== src/Sdk/Examples/Sent.antt =====
-- crates/aelf-sdk/examples: when the examples send a transaction, and how many requests they
-- make for it.
use aelf_web3_rust.Base.{◌≡◌, ℕ, ◌+◌, ◌*◌, Option, Result, Bool, true, false, arith}
use aelf_web3_rust.Base.Async.{Async}
use aelf_web3_rust.Base.Text.{Text, codes}
use aelf_web3_rust.Crypto.Crates.{Crates}
use aelf_web3_rust.Client.Action.{Provider}
use aelf_web3_rust.Client.Codec.{Codec}
use aelf_web3_rust.Client.Crates.{HttpCrate}
use aelf_web3_rust.Client.Config.{new_config, default_retry_policy}
use aelf_web3_rust.Client.Error.{WebAppErrorResponse}
use aelf_web3_rust.Client.Provider.{RequestBuilder, Response}
use aelf_web3_rust.Client.Http.{Wire}
use aelf_web3_rust.Client.Http.Price.{on_wire, on_wire-Costs}
use aelf_web3_rust.Client.Counting.{
  Counts, IsQuiet, Priced, Costs, by_call, by_call-Costs, Costs-weaken, counting, Counts-weaken,
}
use aelf_web3_rust.Sdk.Examples.{ExampleError, Environment, Effects, effect, should_send}
use aelf_web3_rust.Sdk.Examples.TokenTransfer.{transfer_main}
use aelf_web3_rust.Sdk.Examples.RawTransactionFlow.{raw_flow_main}
use aelf_web3_rust.Sdk.Examples.Sending.{
  counted_effects, println-IsQuiet, transfer_main-Counts, raw_flow_main-Counts,
}
use aelf_web3_rust.Sdk.Examples.Parts.{
  is_sending, is_polling, sending-Ignores, polling-Ignores, submit_transfer-Counts,
  submit_raw-Counts, sending_part, polling_part,
}

clash : {b : Bool} → b ≡ true → ¬ (b ≡ false)
clash wet dry = cc

module _ {H W : Type 0} (codec : Codec) (crates : Crates) (environment : Environment H codec.Float)
    (effects : Effects W) where
  abbrev quiet_effects : Effects (ℕ × W)
  quiet_effects = counted_effects effects

  -- The two programs over a provider whose requests of a kind are counted at their price.
  abbrev pub priced_transfer :
      (Text → Priced H W) → (Text → Bool) → Async (ExampleError H) (ℕ × W) (Unit {0})
  priced_transfer provider counts =
      transfer_main codec crates environment quiet_effects
        (λ endpoint. counting counts (provider endpoint))

  abbrev pub priced_raw_flow :
      (Text → Priced H W) → (Text → Bool) → Async (ExampleError H) (ℕ × W) (Unit {0})
  priced_raw_flow provider counts =
      raw_flow_main codec crates environment quiet_effects
        (λ endpoint. counting counts (provider endpoint))

  module _ (provider : Text → Provider H W) where
    -- Every request counts as one.
    abbrev pub counted_transfer : (Text → Bool) → Async (ExampleError H) (ℕ × W) (Unit {0})
    counted_transfer = priced_transfer (λ endpoint. by_call (provider endpoint))

    abbrev pub counted_raw_flow : (Text → Bool) → Async (ExampleError H) (ℕ × W) (Unit {0})
    counted_raw_flow = priced_raw_flow (λ endpoint. by_call (provider endpoint))

    -- Where AELF_SEND does not confirm, neither of the two examples makes a request that sends a
    -- transaction, whatever the environment, the node's answers and the state are, and whether the run
    -- ends well or not.
    pub dry_run-IsQuiet :
        should_send environment ≡ false
        → IsQuiet (counted_transfer is_sending) × IsQuiet (counted_raw_flow is_sending)
    dry_run-IsQuiet dry =
        let priced = λ (endpoint : Text). by_call (provider endpoint) in
        (
          transfer_main-Counts codec crates environment effects priced is_sending sending-Ignores 0
              (λ endpoint raw fee max_fee wet. absurd (clash wet dry)) (println-IsQuiet effects _),
          raw_flow_main-Counts codec crates environment effects priced is_sending sending-Ignores 0
              (λ endpoint raw signature wet. absurd (clash wet dry)) (println-IsQuiet effects _),
        )

  -- One part sends, and the loop asks 15 times, each at the highest price of a request.
  pub requests-Counts :
      (provider : Text → Priced H W) (most : ℕ)
      → ((endpoint : Text) → Costs 0 most (provider endpoint))
      → Counts 0 most (priced_transfer provider is_sending)
        × Counts 0 most (priced_raw_flow provider is_sending)
        × Counts 0 (15 * most) (priced_transfer provider is_polling)
        × Counts 0 (15 * most) (priced_raw_flow provider is_polling)
  requests-Counts provider most costs =
      let p = λ (endpoint : Text). counting is_sending (provider endpoint) in
      let q = λ (endpoint : Text). counting is_polling (provider endpoint) in
      let quiet : (n : ℕ)
          → Counts 0 n (effect {H = H} (quiet_effects.println (codes "dry_run=true"))) =
        λ n. Counts-weaken 0 0 0 n _ (omega arith) (omega arith) (println-IsQuiet effects _) in
      (
        transfer_main-Counts codec crates environment effects provider is_sending sending-Ignores
            most
            (λ endpoint raw fee max_fee wet.
              let part = sending_part codec (provider endpoint) most (costs endpoint) in
              let same : most + 15 * 0 ≡ most = omega arith in
              rw same at (
                submit_transfer-Counts codec crates environment effects (p endpoint) p raw fee
                  max_fee most 0 (part.0 raw) part.2))
            (quiet most),
        raw_flow_main-Counts codec crates environment effects provider is_sending sending-Ignores
            most
            (λ endpoint raw signature wet.
              let part = sending_part codec (provider endpoint) most (costs endpoint) in
              let same : most + 15 * 0 ≡ most = omega arith in
              rw same at (
                submit_raw-Counts codec crates environment effects (p endpoint) p raw signature most
                  0 part.1 part.2))
            (quiet most),
        transfer_main-Counts codec crates environment effects provider is_polling polling-Ignores
            (15 * most)
            (λ endpoint raw fee max_fee wet.
              let part = polling_part codec (provider endpoint) most (costs endpoint) in
              let same : 0 + 15 * most ≡ 15 * most = omega arith in
              rw same at (
                submit_transfer-Counts codec crates environment effects (q endpoint) q raw fee
                  max_fee 0 most (part.0 raw) part.2))
            (quiet (15 * most)),
        raw_flow_main-Counts codec crates environment effects provider is_polling polling-Ignores
            (15 * most)
            (λ endpoint raw signature wet.
              let part = polling_part codec (provider endpoint) most (costs endpoint) in
              let same : 0 + 15 * most ≡ 15 * most = omega arith in
              rw same at (
                submit_raw-Counts codec crates environment effects (q endpoint) q raw signature 0
                  most part.1 part.2))
            (quiet (15 * most)),
      )

-- The examples' own provider: `HttpProvider` with the configuration of `ClientConfig::new`.
abbrev pub example_provider :
    (http_crate : HttpCrate)
    → (Text → Option WebAppErrorResponse)
    → (ℕ → RequestBuilder http_crate → Result http_crate.HttpError (Response http_crate))
    → Text
    → Priced http_crate.HttpError (Wire http_crate)
example_provider http_crate parse network endpoint =
    on_wire http_crate parse network (new_config http_crate endpoint)

-- At most `most` requests that send, and 15 times as many for a result.
abbrev pub Bounded :
    {H W : Type 0} → ℕ → ((Text → Bool) → Async (ExampleError H) (ℕ × W) (Unit {0})) → Type 0
Bounded most run = Counts 0 most (run is_sending) × Counts 0 (15 * most) (run is_polling)

module _ (http_crate : HttpCrate) (parse : Text → Option WebAppErrorResponse)
    (network : ℕ → RequestBuilder http_crate → Result http_crate.HttpError (Response http_crate))
    (codec : Codec) (crates : Crates) (environment : Environment http_crate.HttpError codec.Float)
    (effects : Effects (Wire http_crate)) where
  abbrev nodes : Text → Priced http_crate.HttpError (Wire http_crate)
  nodes = example_provider http_crate parse network

  -- Whatever the environment, the network and the effects on the wire are, over `HttpProvider` with the
  -- configuration of `ClientConfig::new`, each of the two examples makes at most one call of the
  -- provider that sends a transaction and at most 15 calls that ask for the result of one; with the
  -- retries of the default policy these are at most 3 HTTP requests that send it and 45 that ask.
  pub examples_requests :
      let calls = λ (endpoint : Text). by_call (nodes endpoint).base in
      Bounded 1 (priced_transfer codec crates environment effects calls)
      × Bounded 1 (priced_raw_flow codec crates environment effects calls)
      × Bounded 3 (priced_transfer codec crates environment effects nodes)
      × Bounded 3 (priced_raw_flow codec crates environment effects nodes)
  unfolding new_config default_retry_policy
  examples_requests =
      let calls = λ (endpoint : Text). by_call (nodes endpoint).base in
      let one =
        requests-Counts codec crates environment effects calls 1
          λ endpoint. Costs-weaken (calls endpoint) (by_call-Costs (nodes endpoint).base) in
      let three = requests-Counts codec crates environment effects nodes 3 (λ endpoint.
        on_wire-Costs http_crate parse network (new_config http_crate endpoint) (omega arith)) in
      ((one.0, one.2), (one.1, one.3), (three.0, three.2), (three.1, three.3))
