-- ===== src/Contract/Typed/CrossChain.antt =====
-- crates/aelf-contract/src/lib.rs: `CrossChainContract`.
use aelf_web3_rust.Base.Text.{Text, codes}
use aelf_web3_rust.Base.Word.{ℤ}
use aelf_web3_rust.Crypto.Crates.{Crates}
use aelf_web3_rust.Crypto.Wallet.{Wallet}
use aelf_web3_rust.Client.Action.{Provider}
use aelf_web3_rust.Client.Codec.{Codec}
use aelf_web3_rust.Contract.Reflect.{Reflect}
use aelf_web3_rust.Contract.Typed.{Messages, Lazy, LazyAction, call, empty}
use aelf_web3_rust.Contract.Dynamic.{new_lazy}

module _ {H W : Type 0} (provider : Provider H W) (codec : Codec) (crates : Crates)
    (reflect : Reflect) (messages : Messages) where
  unfoldable pub new_cross_chain_contract : Wallet → Text → Lazy provider codec crates reflect
  unfolding new_lazy
  new_cross_chain_contract wallet address = new_lazy provider codec crates reflect wallet address

  unfoldable pub get_parent_chain_id : LazyAction provider codec crates reflect ℤ
  unfolding call
  get_parent_chain_id =
      call provider codec crates reflect messages.decode_int32_value (codes "GetParentChainId")
        empty

  unfoldable pub get_parent_chain_height : LazyAction provider codec crates reflect ℤ
  unfolding call
  get_parent_chain_height =
      call provider codec crates reflect messages.decode_int64_value (codes "GetParentChainHeight")
        empty

  unfoldable pub get_side_chain_height : ℤ → LazyAction provider codec crates reflect ℤ
  unfolding call
  get_side_chain_height chain_id =
      call provider codec crates reflect messages.decode_int64_value (codes "GetSideChainHeight")
        (messages.encode_int32_value chain_id)

  unfoldable pub get_chain_status :
      ℤ → LazyAction provider codec crates reflect messages.chain_status.Content
  unfolding call
  get_chain_status chain_id =
      call provider codec crates reflect messages.chain_status.decode (codes "GetChainStatus")
        (messages.encode_int32_value chain_id)
