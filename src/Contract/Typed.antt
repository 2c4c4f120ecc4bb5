-- ===== src/Contract/Typed.antt =====
-- crates/aelf-contract/src/lib.rs: what the typed wrappers share. A wrapper is a struct with one field, its
-- lazily initialized contract, and is that contract here. A method also returns the contract with its cell
-- as the call leaves it.
pub mod Token
pub mod Election
pub mod Vote
pub mod CrossChain
pub mod Aedpos
pub mod Loads
pub mod Kept
pub mod Session
use aelf_web3_rust.Base.{Result, ok, err, panic, map_ok, List, []}
use aelf_web3_rust.Base.Text.{Text, Bytes}
use aelf_web3_rust.Base.Word.{ℤ}
use aelf_web3_rust.Crypto.Crates.{Crates}
use aelf_web3_rust.Client.Action.{Provider}
use aelf_web3_rust.Client.Codec.{Codec}
use aelf_web3_rust.Client.Dto.{SendTransactionOutput}
use aelf_web3_rust.Contract.Reflect.{ContractResult, Reflect}
use aelf_web3_rust.Contract.Dynamic.{
  ContractAction, DynamicContract, LazyDynamicContract, get_dynamic, call_typed, send_typed,
}

-- A generated message with its `encode_to_vec` and `decode`.
pub record Message : Type 1 where
  pub Content : Type 0
  pub encode : Content → Bytes
  pub decode : Bytes → Result Text Content

-- The messages of crates/aelf-proto that the wrappers use, and those of pbjson-types with their one value.
pub record Messages : Type 1 where
  pub get_balance_input : Message
  pub get_balance_output : Message
  pub get_token_info_input : Message
  pub token_info : Message
  pub transfer_input : Message
  pub cross_chain_transfer_input : Message
  pub candidate_vote : Message
  pub elector_vote : Message
  pub get_voting_item_input : Message
  pub voting_item : Message
  pub voting_record : Message
  pub voting_result : Message
  pub chain_status : Message
  pub round : Message
  -- PubkeyList and MinerList, by the keys that they list
  pub decode_pubkey_list : Bytes → Result Text (List Bytes)
  pub decode_miner_list : Bytes → Result Text (List Bytes)
  pub encode_string_value : Text → Bytes
  pub encode_int32_value : ℤ → Bytes
  pub decode_int32_value : Bytes → Result Text ℤ
  pub decode_int64_value : Bytes → Result Text ℤ

-- `Empty` is encoded as no bytes.
abbrev pub empty : Bytes
empty = []

module _ {H W : Type 0} (provider : Provider H W) (codec : Codec) (crates : Crates)
    (reflect : Reflect) where
  abbrev pub Lazy : Type 0
  Lazy = LazyDynamicContract provider codec crates reflect

  -- An `async` method of a wrapper.
  abbrev pub LazyAction : Type 0 → Type 0
  LazyAction A = Lazy → W → ContractResult H A × Lazy × W

  abbrev pub continue_with :
      {A : Type 0}
      → ContractResult H (DynamicContract reflect) × Lazy × W
      → (DynamicContract reflect → ContractAction H W A)
      → ContractResult H A × Lazy × W
  continue_with (ok contract, self, w) f = let (r, w') = f contract w in (r, self, w')
  continue_with (err e, self, w) f = (err e, self, w)
  continue_with (panic, self, w) f = (panic, self, w)

  -- `self.dynamic().await?.call_typed(name, input).await`, and the same with `send_typed`.
  unfoldable pub call : {M : Type 0} → (Bytes → Result Text M) → Text → Bytes → LazyAction M
  unfolding get_dynamic call_typed
  call decode name input self w =
      continue_with (get_dynamic provider codec crates reflect self w)
        (λ contract. call_typed provider codec crates reflect decode contract name input)

  unfoldable pub send : Text → Bytes → LazyAction SendTransactionOutput
  unfolding get_dynamic send_typed
  send name input self w =
      continue_with (get_dynamic provider codec crates reflect self w)
        (λ contract. send_typed provider codec crates reflect contract name input)

  -- `Ok(f(output))` after a call.
  abbrev pub returning : {A B : Type 0} → (A → B) → LazyAction A → LazyAction B
  returning f m self w = let (r, self', w') = m self w in (map_ok f r, self', w')

  -- A method of a wrapper that is a variable of the caller: the contract after the call goes on with the result.
  abbrev pub kept : {A : Type 0} → LazyAction A → Lazy → ContractAction H W (A × Lazy)
  kept m self w = let (r, self', w') = m self w in (map_ok (λ a. (a, self')) r, w')
