-- ===== src/Sdk/Examples/ReadOnly.antt =====
-- crates/aelf-sdk/examples: basic_client.rs, public_balance.rs and dynamic_contract_get_balance.rs.
use aelf_web3_rust.Base.{◌++◌, map_err}
use aelf_web3_rust.Base.Async.{◌>>=◌, ◌>>◌, lift}
use aelf_web3_rust.Base.Text.{Text, codes}
use aelf_web3_rust.Base.Word.{ℤ}
use aelf_web3_rust.Base.Decimal.{int_to_string}
use aelf_web3_rust.Base.Json.{Value, string, object, entry, object_end}
use aelf_web3_rust.Crypto.Crates.{Crates}
use aelf_web3_rust.Crypto.Proto.{Address}
use aelf_web3_rust.Crypto.Address.{decode_address}
use aelf_web3_rust.Crypto.Wallet.{from_private_key}
use aelf_web3_rust.Client.Action.{Provider}
use aelf_web3_rust.Client.Codec.{Codec}
use aelf_web3_rust.Client.Service.{get_chain_status}
use aelf_web3_rust.Client.Utils.{get_contract_address_by_name}
use aelf_web3_rust.Contract.Reflect.{Reflect}
use aelf_web3_rust.Contract.Dynamic.{at_address}
use aelf_web3_rust.Contract.Dynamic.Json.{call_json}
use aelf_web3_rust.Contract.Typed.{Messages, kept}
use aelf_web3_rust.Contract.Typed.Token.{new_token_contract, get_balance, get_native_token_info}
use aelf_web3_rust.Sdk.Amount.{format_token_amount}
use aelf_web3_rust.Sdk.Examples.{
  Environment, Effects, Run, client, crypto, variable, from_client, from_contract, effect, or_else,
  endpoint,
}

-- READONLY_PRIVATE_KEY of the examples.
abbrev pub readonly_private_key : Text
readonly_private_key = codes "0000000000000000000000000000000000000000000000000000000000000001"

-- What the examples read of the generated messages, and the text of a JSON value.
pub record TokenMessages (messages : Messages) : Type 0 where
  pub balance_input : Text → Address → messages.get_balance_input.Content
  pub balance : messages.get_balance_output.Content → ℤ
  pub symbol : messages.token_info.Content → Text
  pub decimals : messages.token_info.Content → ℤ
  pub display_json : Value → Text

module _ {H W : Type 0} (codec : Codec) (crates : Crates) (reflect : Reflect) (messages : Messages)
    (token_messages : TokenMessages messages) (environment : Environment H codec.Float)
    (effects : Effects W) (provider : Text → Provider H W) where
  open environment use {var, connect}
  open effects use {println}
  open token_messages use {balance_input, balance, symbol, decimals, display_json}

  unfoldable pub basic_client_main : Run H W (Unit {0})
  unfolding get_chain_status int_to_string
  basic_client_main = do
    lift (map_err client (connect (endpoint environment)))
    status ← from_client (get_chain_status (provider (endpoint environment)) codec)
    effect (
        println (
          codes "chain_id="
          ++ (status.chain_id
              ++ (codes " best_height="
                  ++ (int_to_string status.best_chain_height
                      ++ (codes " genesis=" ++ status.genesis_contract_address))))))

  unfoldable pub public_balance_main : Run H W (Unit {0})
  unfolding from_private_key get_contract_address_by_name new_token_contract get_native_token_info
      get_balance decode_address int_to_string format_token_amount
  public_balance_main = do
    owner ← lift (map_err variable (var (codes "AELF_OWNER_ADDRESS")))
    lift (map_err client (connect (endpoint environment)))
    let p = provider (endpoint environment)
    wallet ← lift (map_err crypto (from_private_key crates readonly_private_key))
    token_address ←
        from_client (get_contract_address_by_name p codec crates (codes "AElf.ContractNames.Token"))
    (token_info, token) ← from_contract (
        kept p codec crates reflect (get_native_token_info p codec crates reflect messages)
          (new_token_contract p codec crates reflect messages wallet token_address))
    owner_value ← lift (map_err crypto (decode_address crates owner))
    (output, token_after) ← from_contract (
        kept p codec crates reflect
          (get_balance p codec crates reflect messages
            (balance_input (symbol token_info) (record { value = owner_value })))
          token)
    effect (println (codes "token_contract=" ++ token_address))
    effect (println (codes "symbol=" ++ symbol token_info))
    effect (println (codes "decimals=" ++ int_to_string (decimals token_info)))
    effect (println (codes "raw_balance=" ++ int_to_string (balance output)))
    effect (
        println
          (codes "display_balance=" ++ format_token_amount (balance output) (decimals token_info)))

  -- The keys of an object of `serde_json` are in order.
  abbrev pub balance_request : Text → Value
  balance_request owner = object (
      entry (codes "owner") (string owner)
        (entry (codes "symbol") (string (codes "ELF")) object_end))

  unfoldable pub dynamic_get_balance_main : Run H W (Unit {0})
  unfolding from_private_key at_address call_json
  dynamic_get_balance_main = do
    token_address ← lift (map_err variable (var (codes "AELF_TOKEN_CONTRACT")))
    owner ← lift (map_err variable (var (codes "AELF_OWNER_ADDRESS")))
    let private_key = or_else (var (codes "AELF_PRIVATE_KEY")) readonly_private_key
    lift (map_err client (connect (endpoint environment)))
    let p = provider (endpoint environment)
    wallet ← lift (map_err crypto (from_private_key crates private_key))
    contract ← from_contract (at_address p codec crates reflect token_address wallet)
    output ←
        from_contract
          (call_json p codec crates reflect contract (codes "GetBalance") (balance_request owner))
    effect (println (display_json output))
