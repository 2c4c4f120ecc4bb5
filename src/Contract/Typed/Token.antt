-- ===== src/Contract/Typed/Token.antt =====
-- crates/aelf-contract/src/lib.rs: `TokenContract`.
use aelf_web3_rust.Base.Text.{Text, codes}
use aelf_web3_rust.Crypto.Crates.{Crates}
use aelf_web3_rust.Crypto.Wallet.{Wallet}
use aelf_web3_rust.Client.Action.{Provider}
use aelf_web3_rust.Client.Codec.{Codec}
use aelf_web3_rust.Client.Dto.{SendTransactionOutput}
use aelf_web3_rust.Contract.Reflect.{Reflect}
use aelf_web3_rust.Contract.Typed.{Messages, Lazy, LazyAction, call, send, empty}
use aelf_web3_rust.Contract.Dynamic.{new_lazy}

module _ {H W : Type 0} (provider : Provider H W) (codec : Codec) (crates : Crates)
    (reflect : Reflect) (messages : Messages) where
  unfoldable pub new_token_contract : Wallet → Text → Lazy provider codec crates reflect
  unfolding new_lazy
  new_token_contract wallet address = new_lazy provider codec crates reflect wallet address

  unfoldable pub get_balance :
      messages.get_balance_input.Content
      → LazyAction provider codec crates reflect messages.get_balance_output.Content
  unfolding call
  get_balance input =
      call provider codec crates reflect messages.get_balance_output.decode (codes "GetBalance")
        (messages.get_balance_input.encode input)

  unfoldable pub get_token_info :
      messages.get_token_info_input.Content
      → LazyAction provider codec crates reflect messages.token_info.Content
  unfolding call
  get_token_info input =
      call provider codec crates reflect messages.token_info.decode (codes "GetTokenInfo")
        (messages.get_token_info_input.encode input)

  unfoldable pub get_native_token_info :
      LazyAction provider codec crates reflect messages.token_info.Content
  unfolding call
  get_native_token_info =
      call provider codec crates reflect messages.token_info.decode (codes "GetNativeTokenInfo")
        empty

  unfoldable pub get_primary_token_symbol : LazyAction provider codec crates reflect Text
  unfolding call
  get_primary_token_symbol =
      call provider codec crates reflect codec.decode_string_value (codes "GetPrimaryTokenSymbol")
        empty

  unfoldable pub transfer :
      messages.transfer_input.Content
      → LazyAction provider codec crates reflect SendTransactionOutput
  unfolding send
  transfer input =
      send provider codec crates reflect (codes "Transfer") (messages.transfer_input.encode input)

  unfoldable pub cross_chain_transfer :
      messages.cross_chain_transfer_input.Content
      → LazyAction provider codec crates reflect SendTransactionOutput
  unfolding send
  cross_chain_transfer input =
      send provider codec crates reflect (codes "CrossChainTransfer")
        (messages.cross_chain_transfer_input.encode input)
