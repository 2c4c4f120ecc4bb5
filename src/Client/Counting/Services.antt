-- ===== src/Client/Counting/Services.antt =====
-- crates/aelf-client/src/lib.rs: actions that make none of the requests that are counted.
use aelf_web3_rust.Base.{ℕ, ◌≡◌, Bool, false, Option, none, some, ◌++◌}
use aelf_web3_rust.Base.Text.{Text, Bytes, codes}
use aelf_web3_rust.Crypto.Crates.{Crates}
use aelf_web3_rust.Crypto.Wallet.{Wallet}
use aelf_web3_rust.Client.Action.{Provider}
use aelf_web3_rust.Client.Codec.{Codec}
use aelf_web3_rust.Client.Service.{api_base, get_chain_status}
use aelf_web3_rust.Client.Service.Tx.{execute_transaction}
use aelf_web3_rust.Client.Utils.{
  generate_transaction, call_readonly, get_contract_address_by_name, get_genesis_contract_address,
  get_formatted_address,
}
use aelf_web3_rust.Client.Builder.{
  TransactionBuilder, resolve_contract, build_unsigned, build_signed,
}
use aelf_web3_rust.Client.Counting.{
  Priced, IsQuiet, counting, quiet_rules, lift-IsQuiet, request_json-IsQuiet, request_text-IsQuiet,
  bind-IsQuiet,
}

-- The requests of a build and of a call of a view method are not among those that are counted.
pub record Ignores (counts : Text → Bool) : Type 0 where
  pub chain_status : counts (api_base ++ codes "/chainStatus") ≡ false
  pub execution : counts (api_base ++ codes "/executeTransaction") ≡ false

module _ {H W : Type 0} (counts : Text → Bool) (provider : Priced H W) (codec : Codec)
    (crates : Crates) (ignores : Ignores counts) where
  abbrev p : Provider H (ℕ × W)
  p = counting counts provider

  pub get_chain_status-IsQuiet : IsQuiet (get_chain_status p codec)
  unfolding get_chain_status
  get_chain_status-IsQuiet =
      bind-IsQuiet _ _ (request_json-IsQuiet counts provider _ _ _ _ ignores.chain_status)
        (λ v. lift-IsQuiet _)

  pub execute_transaction-IsQuiet : (raw : Text) → IsQuiet (execute_transaction p codec raw)
  unfolding execute_transaction
  execute_transaction-IsQuiet raw = request_text-IsQuiet counts provider _ _ _ _ ignores.execution

  pub generate_transaction-IsQuiet :
      (sender receiver name : Text) (params : Bytes)
      → IsQuiet (generate_transaction p codec crates sender receiver name params)
  unfolding generate_transaction
  generate_transaction-IsQuiet sender receiver name params =
      search (quiet_rules, get_chain_status-IsQuiet) depth 20

  pub call_readonly-IsQuiet :
      (wallet : Wallet) (receiver name : Text) (params : Bytes)
      → IsQuiet (call_readonly p codec crates wallet receiver name params)
  unfolding call_readonly
  call_readonly-IsQuiet wallet receiver name params =
      search (quiet_rules, generate_transaction-IsQuiet, execute_transaction-IsQuiet) depth 20

  pub get_contract_address_by_name-IsQuiet :
      (name : Text) → IsQuiet (get_contract_address_by_name p codec crates name)
  unfolding get_contract_address_by_name get_genesis_contract_address
  get_contract_address_by_name-IsQuiet name =
      search (quiet_rules, get_chain_status-IsQuiet, call_readonly-IsQuiet) depth 20

  pub get_formatted_address-IsQuiet :
      (address : Text) → IsQuiet (get_formatted_address p codec crates address)
  unfolding get_formatted_address
  get_formatted_address-IsQuiet address =
      search
        (
          quiet_rules, get_chain_status-IsQuiet, call_readonly-IsQuiet,
          get_contract_address_by_name-IsQuiet,
        )
        depth 20

  resolve_contract-IsQuiet :
      (address name : Option Text) → IsQuiet (resolve_contract p codec crates address name)
  unfolding resolve_contract
  resolve_contract-IsQuiet (some address) name = lift-IsQuiet _
  resolve_contract-IsQuiet none (some name) = get_contract_address_by_name-IsQuiet name
  resolve_contract-IsQuiet none none = lift-IsQuiet _

  pub build_signed-IsQuiet :
      (builder : TransactionBuilder) → IsQuiet (build_signed p codec crates builder)
  unfolding build_signed build_unsigned
  build_signed-IsQuiet builder =
      search (quiet_rules, resolve_contract-IsQuiet, generate_transaction-IsQuiet) depth 20
