-- ===== src/Contract/Typed/Election.antt =====
-- crates/aelf-contract/src/lib.rs: `ElectionContract`.
use aelf_web3_rust.Base.{List, map}
use aelf_web3_rust.Base.Text.{Text, codes}
use aelf_web3_rust.Crypto.Crates.{Crates}
use aelf_web3_rust.Crypto.Wallet.{Wallet}
use aelf_web3_rust.Client.Action.{Provider}
use aelf_web3_rust.Client.Codec.{Codec}
use aelf_web3_rust.Contract.Reflect.{Reflect}
use aelf_web3_rust.Contract.Typed.{Messages, Lazy, LazyAction, call, returning, empty}
use aelf_web3_rust.Contract.Dynamic.{new_lazy}

module _ {H W : Type 0} (provider : Provider H W) (codec : Codec) (crates : Crates)
    (reflect : Reflect) (messages : Messages) where
  unfoldable pub new_election_contract : Wallet → Text → Lazy provider codec crates reflect
  unfolding new_lazy
  new_election_contract wallet address = new_lazy provider codec crates reflect wallet address

  unfoldable pub get_candidates : LazyAction provider codec crates reflect (List Text)
  unfolding call
  get_candidates =
      returning provider codec crates reflect (map crates.hex_encode) (
        call provider codec crates reflect messages.decode_pubkey_list (codes "GetCandidates")
          empty)

  unfoldable pub get_candidate_vote :
      Text → LazyAction provider codec crates reflect messages.candidate_vote.Content
  unfolding call
  get_candidate_vote pubkey =
      call provider codec crates reflect messages.candidate_vote.decode (codes "GetCandidateVote")
        (messages.encode_string_value pubkey)

  unfoldable pub get_elector_vote :
      Text → LazyAction provider codec crates reflect messages.elector_vote.Content
  unfolding call
  get_elector_vote pubkey =
      call provider codec crates reflect messages.elector_vote.decode (codes "GetElectorVote")
        (messages.encode_string_value pubkey)
