-- ===== src/Client/Builder.antt =====
-- crates/aelf-client/src/lib.rs: `TransactionBuilder`. The client that it holds is the provider argument.
pub mod Fields
pub mod Signed
use aelf_web3_rust.Base.{[], Option, none, some, Result, ok, err, panic, ok_or}
use aelf_web3_rust.Base.Text.{Text, Bytes, codes, unwrap_or}
use aelf_web3_rust.Crypto.Crates.{Crates}
use aelf_web3_rust.Crypto.Proto.{Transaction}
use aelf_web3_rust.Crypto.Wallet.{Wallet}
use aelf_web3_rust.Client.Error.{missing_field}
use aelf_web3_rust.Client.Action.{Action, ◌>>=◌, lift, Provider}
use aelf_web3_rust.Client.Codec.{Codec}
use aelf_web3_rust.Client.Utils.{
  generate_transaction, sign_transaction, get_contract_address_by_name,
}

pub record TransactionBuilder : Type 0 where
  pub wallet : Option Wallet
  pub contract_address : Option Text
  pub system_contract_name : Option Text
  pub method_name : Option Text
  pub params : Option Bytes

unfoldable pub new_builder : TransactionBuilder
new_builder = record {
  wallet = none;
  contract_address = none;
  system_contract_name = none;
  method_name = none;
  params = none;
}

unfoldable pub with_wallet : TransactionBuilder → Wallet → TransactionBuilder
with_wallet self wallet = record self { wallet = some wallet }

unfoldable pub with_contract : TransactionBuilder → Text → TransactionBuilder
with_contract self address = record self { contract_address = some address }

unfoldable pub with_system_contract : TransactionBuilder → Text → TransactionBuilder
with_system_contract self name = record self { system_contract_name = some name }

unfoldable pub with_method : TransactionBuilder → Text → TransactionBuilder
with_method self method_name = record self { method_name = some method_name }

-- `message` is its encoding.
unfoldable pub with_message : TransactionBuilder → Bytes → TransactionBuilder
with_message self message = record self { params = some message }

module _ {H W : Type 0} (provider : Provider H W) (codec : Codec) (crates : Crates) where
  unfoldable pub resolve_contract : Option Text → Option Text → Action H W Text
  unfolding get_contract_address_by_name
  resolve_contract (some address) _ = lift (ok address)
  resolve_contract none (some name) = get_contract_address_by_name provider codec crates name
  resolve_contract none none = lift (err (missing_field (codes "contract address")))

  unfoldable pub build_unsigned : TransactionBuilder → Action H W Transaction
  unfolding resolve_contract generate_transaction
  build_unsigned self = do
    wallet ← lift (ok_or self.wallet (missing_field (codes "wallet")))
    contract_address ← resolve_contract self.contract_address self.system_contract_name
    method_name ← lift (ok_or self.method_name (missing_field (codes "method name")))
    generate_transaction provider codec crates wallet.address contract_address method_name
        (unwrap_or self.params [])

  unfoldable pub build_signed : TransactionBuilder → Action H W Transaction
  unfolding build_unsigned sign_transaction
  build_signed self = do
    wallet ← lift (ok_or self.wallet (missing_field (codes "wallet")))
    unsigned ← build_unsigned self
    lift (sign_transaction provider codec crates wallet unsigned)
