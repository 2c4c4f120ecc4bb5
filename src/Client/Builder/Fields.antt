-- ===== src/Client/Builder/Fields.antt =====
-- crates/aelf-client/src/lib.rs: which fields a transaction builder wants, and in which order.
use aelf_web3_rust.Base.{◌≡◌, refl, [], Option, none, some, err}
use aelf_web3_rust.Base.Text.{Text, codes, unwrap_or}
use aelf_web3_rust.Crypto.Crates.{Crates}
use aelf_web3_rust.Crypto.Wallet.{Wallet}
use aelf_web3_rust.Client.Error.{missing_field}
use aelf_web3_rust.Client.Action.{Provider}
use aelf_web3_rust.Client.Codec.{Codec}
use aelf_web3_rust.Client.Utils.{generate_transaction}
use aelf_web3_rust.Client.Builder.{
  TransactionBuilder, resolve_contract, build_unsigned, build_signed,
}

module _ {H W : Type 0} (provider : Provider H W) (codec : Codec) (crates : Crates) where
  -- Without a wallet, neither build makes a request, and both fail for that. With a wallet but neither
  -- an address nor a name of the contract, the unsigned build fails for that, without a request. With a
  -- wallet and an address, a name makes no difference: the transaction is generated for the address
  -- where the method is set, and where it is not, the unsigned build fails for that, without a request.
  pub build_unsigned-fields :
      (b : TransactionBuilder) (wallet : Wallet) (address method_name : Text) (name : Option Text)
      (w : W)
      → (build_unsigned provider codec crates (record b { wallet = none }) w
          ≡ (err (missing_field (codes "wallet")), w))
        × (build_signed provider codec crates (record b { wallet = none }) w
            ≡ (err (missing_field (codes "wallet")), w))
        × (build_unsigned provider codec crates
              (record b {
                wallet = some wallet;
                contract_address = none;
                system_contract_name = none;
              })
              w
            ≡ (err (missing_field (codes "contract address")), w))
        × (build_unsigned provider codec crates
              (record b {
                wallet = some wallet;
                contract_address = some address;
                system_contract_name = name;
                method_name = some method_name;
              })
              w
            ≡ generate_transaction provider codec crates wallet.address address method_name
                (unwrap_or b.params [])
                w)
        × (build_unsigned provider codec crates
              (record b {
                wallet = some wallet;
                contract_address = some address;
                system_contract_name = name;
                method_name = none;
              })
              w
            ≡ (err (missing_field (codes "method name")), w))
  unfolding build_unsigned build_signed resolve_contract
  build_unsigned-fields b wallet address method_name name w = (refl, refl, refl, refl, refl)
