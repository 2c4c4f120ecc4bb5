-- ===== src/Contract/Typed/Aedpos.antt =====
-- crates/aelf-contract/src/lib.rs: `AedposContract`.
use aelf_web3_rust.Base.{List, map}
use aelf_web3_rust.Base.Text.{Text, codes}
use aelf_web3_rust.Crypto.Crates.{Crates}
use aelf_web3_rust.Crypto.Wallet.{Wallet}
use aelf_web3_rust.Client.Action.{Provider}
use aelf_web3_rust.Client.Codec.{Codec}
use aelf_web3_rust.Contract.Reflect.{Reflect}
use aelf_web3_rust.Contract.Typed.{Messages, Lazy, LazyAction, call, returning, empty}
use aelf_web3_rust.Contract.Dynamic.{new_lazy}

module _ {H W : Type 0} (provider : Provider H W) (codec : Codec) (crates : Crates)
    (reflect : Reflect) (messages : Messages) where
  unfoldable pub new_aedpos_contract : Wallet → Text → Lazy provider codec crates reflect
  unfolding new_lazy
  new_aedpos_contract wallet address = new_lazy provider codec crates reflect wallet address

  unfoldable pub get_current_miner_list : LazyAction provider codec crates reflect (List Text)
  unfolding call
  get_current_miner_list = returning provider codec crates reflect (map crates.hex_encode) (
      call provider codec crates reflect messages.decode_miner_list (codes "GetCurrentMinerList")
        empty)

  unfoldable pub get_current_round_information :
      LazyAction provider codec crates reflect messages.round.Content
  unfolding call
  get_current_round_information =
      call provider codec crates reflect messages.round.decode (codes "GetCurrentRoundInformation")
        empty
