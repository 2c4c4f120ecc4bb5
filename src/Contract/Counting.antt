-- ===== src/Contract/Counting.antt =====
-- crates/aelf-contract/src/lib.rs: which requests a call of a contract makes, by the counting provider of the
-- client.
use aelf_web3_rust.Base.{◌≡◌, refl, ℕ, ◌+◌, arith, Bool, false, Result, list_eq, list_eq_refl, ◌++◌}
use aelf_web3_rust.Base.Text.{Text, Bytes, codes}
use aelf_web3_rust.Base.Json.{Value}
use aelf_web3_rust.Crypto.Crates.{Crates}
use aelf_web3_rust.Crypto.Wallet.{Wallet}
use aelf_web3_rust.Client.Action.{Action, Provider}
use aelf_web3_rust.Client.Codec.{Codec}
use aelf_web3_rust.Client.Service.{api_base, post_text, get_text, get_contract_file_descriptor_set}
use aelf_web3_rust.Client.Counting.{
  Counts, Counts-weaken, IsQuiet, Priced, by_call, by_call-Costs, counting, lift-IsQuiet,
  bind-IsQuiet, bind-Counts, request_text-Counts, request_text-IsQuiet,
}
use aelf_web3_rust.Client.Counting.Services.{
  Ignores, build_signed-IsQuiet, execute_transaction-IsQuiet,
}
use aelf_web3_rust.Client.Service.Tx.{send_transaction}
use aelf_web3_rust.Contract.Reflect.{Reflect}
use aelf_web3_rust.Contract.Dynamic.{
  from_client, DynamicContract, DynamicContractMethod, at_address, build_signed_raw, call_bytes,
  send_bytes, call_typed, send_typed,
}
use aelf_web3_rust.Contract.Dynamic.Json.{call_method_json, call_json}

module _ {H W : Type 0} where
  pub from_client-Counts :
      {A : Type 0} (least most : ℕ) (m : Action H (ℕ × W) A)
      → Counts least most m
      → Counts least most (from_client m)
  from_client-Counts least most m h = record { at = λ n w. h.at n w }

  pub from_client-IsQuiet :
      {A : Type 0} (m : Action H (ℕ × W) A) → IsQuiet m → IsQuiet (from_client m)
  from_client-IsQuiet m h = from_client-Counts 0 0 m h

pub ruleset contract_quiet_rules = (bind-IsQuiet, lift-IsQuiet, from_client-IsQuiet)

-- Calls of contracts over a provider that counts requests other than those of a build and of a view call.
module _ {H W : Type 0} (counts : Text → Bool) (provider : Priced H W) (codec : Codec)
    (crates : Crates) (reflect : Reflect) (ignores : Ignores counts) where
  abbrev p : Provider H (ℕ × W)
  p = counting counts provider

  pub at_address-Counts :
      (least most : ℕ) (address : Text) (wallet : Wallet)
      → Counts least most (get_contract_file_descriptor_set p codec address)
      → Counts least most (at_address p codec crates reflect address wallet)
  unfolding at_address
  at_address-Counts least most address wallet asks =
      Counts-weaken least least (most + 0) most _ (omega arith) (omega arith) (
        bind-Counts least most 0 _ _ (from_client-Counts least most _ asks)
          (λ bytes. search contract_quiet_rules depth 20))

  build_signed_raw-IsQuiet :
      (wallet : Wallet) (address name : Text) (params : Bytes)
      → IsQuiet (build_signed_raw p codec crates reflect wallet address name params)
  unfolding build_signed_raw
  build_signed_raw-IsQuiet wallet address name params =
      search (contract_quiet_rules, build_signed-IsQuiet, ignores) depth 20

  pub call_bytes-IsQuiet :
      (self : DynamicContractMethod reflect) (input : Bytes)
      → IsQuiet (call_bytes p codec crates reflect self input)
  unfolding call_bytes
  call_bytes-IsQuiet self input =
      search (contract_quiet_rules, build_signed_raw-IsQuiet, execute_transaction-IsQuiet, ignores)
        depth 20

  pub call_typed-IsQuiet :
      {M : Type 0} (decode : Bytes → Result Text M) (self : DynamicContract reflect) (name : Text)
      (input : Bytes)
      → IsQuiet (call_typed p codec crates reflect decode self name input)
  unfolding call_typed
  call_typed-IsQuiet decode self name input =
      search (contract_quiet_rules, call_bytes-IsQuiet) depth 20

  pub call_json-IsQuiet :
      (self : DynamicContract reflect) (name : Text) (value : Value)
      → IsQuiet (call_json p codec crates reflect self name value)
  unfolding call_json call_method_json
  call_json-IsQuiet self name value = search (contract_quiet_rules, call_bytes-IsQuiet) depth 40

  module _ (sending : counts (api_base ++ codes "/sendTransaction") ≡ false) where
    send_transaction-IsQuiet : (raw : Text) → IsQuiet (send_transaction p codec raw)
    unfolding send_transaction post_text
    send_transaction-IsQuiet raw =
        bind-IsQuiet _ _ (request_text-IsQuiet counts provider _ _ _ _ sending)
          (λ text. lift-IsQuiet _)

    send_bytes-IsQuiet :
        (self : DynamicContractMethod reflect) (input : Bytes)
        → IsQuiet (send_bytes p codec crates reflect self input)
    unfolding send_bytes
    send_bytes-IsQuiet self input =
        search (contract_quiet_rules, build_signed_raw-IsQuiet, send_transaction-IsQuiet) depth 20

    pub send_typed-IsQuiet :
        (self : DynamicContract reflect) (name : Text) (input : Bytes)
        → IsQuiet (send_typed p codec crates reflect self name input)
    unfolding send_typed
    send_typed-IsQuiet self name input = search (contract_quiet_rules, send_bytes-IsQuiet) depth 20

-- The request for a contract's descriptors.
abbrev pub is_descriptor_path : Text → Bool
is_descriptor_path path = list_eq path (api_base ++ codes "/contractFileDescriptorSet")

pub descriptor-Ignores : Ignores is_descriptor_path
unfolding list_eq
descriptor-Ignores = record { chain_status = refl; execution = refl }

pub not_sending : is_descriptor_path (api_base ++ codes "/sendTransaction") ≡ false
unfolding list_eq
not_sending = refl

module _ {H W : Type 0} (provider : Provider H W) (codec : Codec) (crates : Crates)
    (reflect : Reflect) where
  abbrev pub descriptors_counted : Provider H (ℕ × W)
  descriptors_counted = counting is_descriptor_path (by_call provider)

  pub descriptors-Counts :
      (address : Text)
      → Counts 1 1 (get_contract_file_descriptor_set descriptors_counted codec address)
  unfolding get_contract_file_descriptor_set get_text
  descriptors-Counts address =
      bind-Counts 1 1 0 _ _
        (request_text-Counts is_descriptor_path (by_call provider) 1 1 (by_call-Costs provider) _ _
          _ _ (list_eq_refl (api_base ++ codes "/contractFileDescriptorSet")))
        (λ text. lift-IsQuiet _)

-- Over a provider that does not count the requests for descriptors, nothing is counted for them.
pub descriptors-IsQuiet :
    {H W : Type 0} (counts : Text → Bool) (provider : Priced H W) (codec : Codec) (address : Text)
    → counts (api_base ++ codes "/contractFileDescriptorSet") ≡ false
    → IsQuiet (get_contract_file_descriptor_set (counting counts provider) codec address)
unfolding get_contract_file_descriptor_set get_text
descriptors-IsQuiet counts provider codec address h =
    bind-IsQuiet _ _ (request_text-IsQuiet counts provider _ _ _ _ h) (λ text. lift-IsQuiet _)
