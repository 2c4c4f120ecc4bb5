-- ===== src/Sdk/Facade/Height.antt =====
-- crates/aelf-sdk/src/lib.rs: the height of the chain by a client that is made from a configuration.
use aelf_web3_rust.Base.{◌≡◌, refl, ℕ, ◌+◌, ◌≤◌, ◌<◌, ◌++◌, Option, true, Result, ok, replicate}
use aelf_web3_rust.Base.Text.{Text}
use aelf_web3_rust.Base.Word.{ℤ, IsI64}
use aelf_web3_rust.Base.Decimal.{int_to_string}
use aelf_web3_rust.Client.Crates.{HttpCrate}
use aelf_web3_rust.Client.Config.{Duration, duration_max, ClientConfig}
use aelf_web3_rust.Client.Error.{WebAppErrorResponse}
use aelf_web3_rust.Client.Provider.{RequestBuilder, Response, retries}
use aelf_web3_rust.Client.Service.{get_block_height}
use aelf_web3_rust.Client.Http.{Wire}
use aelf_web3_rust.Client.Http.Height.{height_request, get_block_height-succeeds}
use aelf_web3_rust.Client.Handles
use aelf_web3_rust.Client.Handles.{new_client, new_http_provider}
use aelf_web3_rust.Sdk.Facade.{AElfClient, new_facade, block}

module _ (http_crate : HttpCrate) (parse : Text → Option WebAppErrorResponse)
    (network : ℕ → RequestBuilder http_crate → Result http_crate.HttpError (Response http_crate))
    (build : Duration → Result http_crate.HttpError (Unit {0})) (config : ClientConfig http_crate)
    (wire : Wire http_crate) where
  open http_crate use {HttpError, is_success}

  -- Where the builder of reqwest accepts the timeout and the first wait of the policy is a duration: if
  -- the outcomes of the next `n` attempts are to be retried, `n` is not more than the retries of the
  -- policy, and the attempt after them is a success whose text is an `i64` in decimal with any number
  -- of quotes around it, then the facade makes a client from the configuration, and `get_block_height`
  -- of its block service returns that height.
  pub new_facade-get_block_height :
      build config.timeout ≡ ok tt
      → config.retry_policy.initial_backoff ≤ duration_max
      → (n : ℕ) (response : Response http_crate) (height : ℤ) (before after : ℕ)
      → n ≤ config.retry_policy.max_retries
      → ((k : ℕ)
          → k < n
          → retries http_crate
              (network (wire.attempts + k) (height_request http_crate parse network config wire))
            ≡ true)
      → network (wire.attempts + n) (height_request http_crate parse network config wire)
        ≡ ok response
      → is_success response.status ≡ true
      → response.text ≡ ok (replicate before b'"' ++ (int_to_string height ++ replicate after b'"'))
      → IsI64 height
      → (client : AElfClient HttpError (Wire http_crate)) × (new_facade http_crate parse network
            build config
          ≡ ok client)
        × ((get_block_height (block client).client.provider wire).0 ≡ ok height)
  unfolding new_facade new_client new_http_provider Handles.with_provider block Handles.block
  new_facade-get_block_height built fits n response height before after allowed failing answered
        good read fits_i64 =
      (
        _,
        rw built refl,
        get_block_height-succeeds http_crate parse network config wire fits n response height before
            after allowed failing answered good read fits_i64,
      )
