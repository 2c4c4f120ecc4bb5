-- ===== src/Contract/Typed/Vote.antt =====
-- crates/aelf-contract/src/lib.rs: `VoteContract`.
use aelf_web3_rust.Base.Text.{Text, codes}
use aelf_web3_rust.Crypto.Crates.{Crates}
use aelf_web3_rust.Crypto.Proto.{Hash}
use aelf_web3_rust.Crypto.Wallet.{Wallet}
use aelf_web3_rust.Client.Action.{Provider}
use aelf_web3_rust.Client.Codec.{Codec}
use aelf_web3_rust.Contract.Reflect.{Reflect}
use aelf_web3_rust.Contract.Typed.{Messages, Lazy, LazyAction, call}
use aelf_web3_rust.Contract.Dynamic.{new_lazy}

module _ {H W : Type 0} (provider : Provider H W) (codec : Codec) (crates : Crates)
    (reflect : Reflect) (messages : Messages) where
  unfoldable pub new_vote_contract : Wallet → Text → Lazy provider codec crates reflect
  unfolding new_lazy
  new_vote_contract wallet address = new_lazy provider codec crates reflect wallet address

  unfoldable pub get_voting_item :
      messages.get_voting_item_input.Content
      → LazyAction provider codec crates reflect messages.voting_item.Content
  unfolding call
  get_voting_item input =
      call provider codec crates reflect messages.voting_item.decode (codes "GetVotingItem")
        (messages.get_voting_item_input.encode input)

  unfoldable pub get_voting_record :
      Hash → LazyAction provider codec crates reflect messages.voting_record.Content
  unfolding call
  get_voting_record vote_id =
      call provider codec crates reflect messages.voting_record.decode (codes "GetVotingRecord")
        (codec.encode_hash vote_id)

  unfoldable pub get_latest_voting_result :
      Hash → LazyAction provider codec crates reflect messages.voting_result.Content
  unfolding call
  get_latest_voting_result voting_item_id =
      call provider codec crates reflect messages.voting_result.decode
        (codes "GetLatestVotingResult") (codec.encode_hash voting_item_id)
