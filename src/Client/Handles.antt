-- ===== src/Client/Handles.antt =====
-- crates/aelf-client/src/lib.rs: `AElfClient`, which holds the provider, and the services that hold a client.
use aelf_web3_rust.Base.{ℕ, Option, Result, ok, ◌>>=◌, map_err}
use aelf_web3_rust.Base.Text.{Text}
use aelf_web3_rust.Client.Crates.{HttpCrate}
use aelf_web3_rust.Client.Config.{Duration, ClientConfig}
use aelf_web3_rust.Client.Error.{AElfResult, WebAppErrorResponse, http}
use aelf_web3_rust.Client.Provider.{RequestBuilder, Response}
use aelf_web3_rust.Client.Action.{Provider}
use aelf_web3_rust.Client.Builder.{TransactionBuilder, new_builder}
use aelf_web3_rust.Client.Http.{Wire, http_provider}

module _ (H W : Type 0) where
  pub record AElfClient : Type 0 where
    pub provider : Provider H W

  pub record BlockService : Type 0 where
    pub client : AElfClient

  pub record ChainService : Type 0 where
    pub client : AElfClient

  pub record NetService : Type 0 where
    pub client : AElfClient

  pub record TransactionService : Type 0 where
    pub client : AElfClient

  pub record ClientUtilsService : Type 0 where
    pub client : AElfClient

module _ {H W : Type 0} where
  unfoldable pub with_provider : Provider H W → AElfResult H (AElfClient H W)
  with_provider provider = ok (record { provider = provider })

  unfoldable pub block : AElfClient H W → BlockService H W
  block self = record { client = self }

  unfoldable pub chain : AElfClient H W → ChainService H W
  chain self = record { client = self }

  unfoldable pub net : AElfClient H W → NetService H W
  net self = record { client = self }

  unfoldable pub tx : AElfClient H W → TransactionService H W
  tx self = record { client = self }

  unfoldable pub utils : AElfClient H W → ClientUtilsService H W
  utils self = record { client = self }

  -- The builder, and the client that it holds.
  unfoldable pub transaction_builder : AElfClient H W → AElfClient H W × TransactionBuilder
  unfolding new_builder
  transaction_builder self = (self, new_builder)

module _ (http_crate : HttpCrate) (parse : Text → Option WebAppErrorResponse)
    (network : ℕ → RequestBuilder http_crate → Result http_crate.HttpError (Response http_crate))
    (build : Duration → Result http_crate.HttpError (Unit {0})) where
  open http_crate use {HttpError}

  -- `HttpProvider::new`: `build` is reqwest's builder with this timeout.
  unfoldable pub new_http_provider :
      ClientConfig http_crate → AElfResult HttpError (Provider HttpError (Wire http_crate))
  new_http_provider config = do
    client ← map_err http (build config.timeout)
    ok (http_provider http_crate parse network config)

  unfoldable pub new_client :
      ClientConfig http_crate → AElfResult HttpError (AElfClient HttpError (Wire http_crate))
  unfolding new_http_provider with_provider
  new_client config = do provider ← new_http_provider config; with_provider provider
