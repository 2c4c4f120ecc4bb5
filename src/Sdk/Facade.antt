-- ===== src/Sdk/Facade.antt =====
-- crates/aelf-sdk/src/lib.rs: `AElfClient`, the facade over the clients of crates/aelf-client and
-- crates/aelf-contract.
pub mod Height
use aelf_web3_rust.Base.{ℕ, Option, Result, ok, ◌>>=◌}
use aelf_web3_rust.Base.Text.{Text}
use aelf_web3_rust.Crypto.Crates.{Crates}
use aelf_web3_rust.Crypto.Wallet.{Wallet}
use aelf_web3_rust.Client.Crates.{HttpCrate}
use aelf_web3_rust.Client.Config.{Duration, ClientConfig}
use aelf_web3_rust.Client.Error.{AElfResult, WebAppErrorResponse}
use aelf_web3_rust.Client.Provider.{RequestBuilder, Response}
use aelf_web3_rust.Client.Action.{Provider}
use aelf_web3_rust.Client.Codec.{Codec}
use aelf_web3_rust.Client.Builder.{TransactionBuilder}
use aelf_web3_rust.Client.Http.{Wire}
use aelf_web3_rust.Client.Handles
use aelf_web3_rust.Client.Handles.{
  BlockService, ChainService, NetService, TransactionService, ClientUtilsService, new_client,
}
use aelf_web3_rust.Contract.Reflect.{Reflect}
use aelf_web3_rust.Contract.Dynamic.{
  ContractAction, DynamicContract, ZeroContract, new_zero_contract, at_address,
}
use aelf_web3_rust.Contract.Typed.{Messages, Lazy}
use aelf_web3_rust.Contract.Typed.Token.{new_token_contract}
use aelf_web3_rust.Contract.Typed.Election.{new_election_contract}
use aelf_web3_rust.Contract.Typed.Vote.{new_vote_contract}
use aelf_web3_rust.Contract.Typed.CrossChain.{new_cross_chain_contract}
use aelf_web3_rust.Contract.Typed.Aedpos.{new_aedpos_contract}

module _ (H W : Type 0) where
  pub record AElfClient : Type 0 where
    pub inner : Handles.AElfClient H W

module _ {H W : Type 0} where
  unfoldable pub with_provider : Provider H W → AElfResult H (AElfClient H W)
  unfolding Handles.with_provider
  with_provider provider = do inner ← Handles.with_provider provider; ok (record { inner = inner })

  unfoldable pub block : AElfClient H W → BlockService H W
  unfolding Handles.block
  block self = Handles.block self.inner

  unfoldable pub chain : AElfClient H W → ChainService H W
  unfolding Handles.chain
  chain self = Handles.chain self.inner

  unfoldable pub net : AElfClient H W → NetService H W
  unfolding Handles.net
  net self = Handles.net self.inner

  unfoldable pub tx : AElfClient H W → TransactionService H W
  unfolding Handles.tx
  tx self = Handles.tx self.inner

  unfoldable pub utils : AElfClient H W → ClientUtilsService H W
  unfolding Handles.utils
  utils self = Handles.utils self.inner

  unfoldable pub transaction_builder : AElfClient H W → Handles.AElfClient H W × TransactionBuilder
  unfolding Handles.transaction_builder
  transaction_builder self = Handles.transaction_builder self.inner

  -- The contracts take the provider of the client as an argument.
  module _ (codec : Codec) (crates : Crates) (reflect : Reflect) where
    unfoldable pub contract_at :
        AElfClient H W → Text → Wallet → ContractAction H W (DynamicContract reflect)
    unfolding at_address
    contract_at self address wallet =
        at_address self.inner.provider codec crates reflect address wallet

    module _ (messages : Messages) (self : AElfClient H W) where
      abbrev pub Wrapper : Type 0
      Wrapper = Lazy self.inner.provider codec crates reflect

      unfoldable pub zero_contract :
          Text → Wallet → ZeroContract self.inner.provider codec crates reflect
      unfolding new_zero_contract
      zero_contract address wallet =
          new_zero_contract self.inner.provider codec crates reflect wallet address

      unfoldable pub token_contract : Text → Wallet → Wrapper
      unfolding new_token_contract
      token_contract address wallet =
          new_token_contract self.inner.provider codec crates reflect messages wallet address

      unfoldable pub election_contract : Text → Wallet → Wrapper
      unfolding new_election_contract
      election_contract address wallet =
          new_election_contract self.inner.provider codec crates reflect messages wallet address

      unfoldable pub vote_contract : Text → Wallet → Wrapper
      unfolding new_vote_contract
      vote_contract address wallet =
          new_vote_contract self.inner.provider codec crates reflect messages wallet address

      unfoldable pub cross_chain_contract : Text → Wallet → Wrapper
      unfolding new_cross_chain_contract
      cross_chain_contract address wallet =
          new_cross_chain_contract self.inner.provider codec crates reflect messages wallet address

      unfoldable pub aedpos_contract : Text → Wallet → Wrapper
      unfolding new_aedpos_contract
      aedpos_contract address wallet =
          new_aedpos_contract self.inner.provider codec crates reflect messages wallet address

module _ (http_crate : HttpCrate) (parse : Text → Option WebAppErrorResponse)
    (network : ℕ → RequestBuilder http_crate → Result http_crate.HttpError (Response http_crate))
    (build : Duration → Result http_crate.HttpError (Unit {0})) where
  unfoldable pub new_facade :
      ClientConfig http_crate
      → AElfResult http_crate.HttpError (AElfClient http_crate.HttpError (Wire http_crate))
  unfolding new_client
  new_facade config = do
    inner ← new_client http_crate parse network build config
    ok (record { inner = inner })
