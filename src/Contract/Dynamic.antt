-- ===== src/Contract/Dynamic.antt =====
-- crates/aelf-contract/src/lib.rs: `DynamicContract`, `DynamicContractMethod`, `LazyDynamicContract` and
-- `ZeroContract`. The client that they hold is the provider argument.
pub mod Json
pub mod Lazy
pub mod Lookup
pub mod Missing
pub mod Zero
use aelf_web3_rust.Base.{
  ℕ, [], ◌∷◌, List, Bool, Option, none, some, Result, ok, err, panic, map_err, map_ok, list_eq,
  if◌then◌else◌,
}
pub use aelf_web3_rust.Base.Async.{Async, continue, ◌>>=◌, lift}
use aelf_web3_rust.Base.Text.{Text, Bytes, codes, as_bytes}
use aelf_web3_rust.Base.Text.Trim.{trim_matches}
use aelf_web3_rust.Crypto.Crates.{Crates}
use aelf_web3_rust.Crypto.Base58.{sha256_bytes}
use aelf_web3_rust.Crypto.Address.{pb_to_address, hash_to_pb}
use aelf_web3_rust.Crypto.Wallet.{Wallet}
use aelf_web3_rust.Client.Action.{Action, Provider}
use aelf_web3_rust.Client.Codec.{Codec}
use aelf_web3_rust.Client.Dto.{SendTransactionOutput}
use aelf_web3_rust.Client.Service.{get_contract_file_descriptor_set}
use aelf_web3_rust.Client.Service.Tx.{execute_transaction, send_transaction}
use aelf_web3_rust.Client.Builder.{
  new_builder, with_wallet, with_contract, with_method, with_message, build_signed,
}
use aelf_web3_rust.Contract.Reflect.{
  ContractError, ContractResult, client, method_not_found, descriptor, hex, protobuf_decode,
  Reflect,
}

-- An `async` function that returns `Result<A, ContractError>`.
abbrev pub ContractAction : Type 0 → Type 0 → Type 0 → Type 0
ContractAction H W A = Async (ContractError H) W A

-- `?` on a result of the client.
abbrev pub from_client : {H W A : Type 0} → Action H W A → ContractAction H W A
from_client m w = let (r, w') = m w in (map_err client r, w')

module _ (reflect : Reflect) where
  open reflect use {DescriptorPool, MethodDescriptor, services, method_name}

  pub record DynamicContract : Type 0 where
    pub address : Text
    pub wallet : Wallet
    pub pool : DescriptorPool

  pub record DynamicContractMethod : Type 0 where
    pub address : Text
    pub wallet : Wallet
    pub method : MethodDescriptor

  -- `service.methods().find(..)`, and the loop over the services.
  unfoldable pub find_method : Text → List MethodDescriptor → Option MethodDescriptor
  unfolding list_eq
  find_method name [] = none
  find_method name (m ∷ ms) = if list_eq (method_name m) name then some m else find_method name ms

  unfoldable pub find_in_services : Text → List (List MethodDescriptor) → Option MethodDescriptor
  unfolding find_method
  find_in_services name [] = none
  find_in_services name (service ∷ rest) = elim (find_method name service) [
    | some m ↦ some m
    | none ↦ find_in_services name rest
  ]

  unfoldable pub method_of :
      {H : Type 0} → DynamicContract → Text → ContractResult H DynamicContractMethod
  unfolding find_in_services
  method_of self name = elim (find_in_services name (services self.pool)) [
    | none ↦ err (method_not_found name)
    | some m ↦ ok (record { address = self.address; wallet = self.wallet; method = m })
  ]

module _ {H W : Type 0} (provider : Provider H W) (codec : Codec) (crates : Crates)
    (reflect : Reflect) where
  open crates use {hex_encode, hex_decode, encode_transaction}
  open reflect use {decode_pool, method_name}

  unfoldable pub at_address : Text → Wallet → ContractAction H W (DynamicContract reflect)
  unfolding get_contract_file_descriptor_set
  at_address address wallet = do
    bytes ← from_client (get_contract_file_descriptor_set provider codec address)
    pool ← lift (map_err descriptor (decode_pool bytes))
    lift (ok (record { address = address; wallet = wallet; pool = pool }))

  unfoldable pub build_signed_raw : Wallet → Text → Text → Bytes → ContractAction H W Text
  unfolding new_builder with_wallet with_contract with_method with_message build_signed
  build_signed_raw wallet address name params = do
    transaction ← from_client (
        build_signed provider codec crates (
          with_message (with_method (with_contract (with_wallet new_builder wallet) address) name)
            params))
    lift (ok (hex_encode (encode_transaction transaction)))

  unfoldable pub call_bytes : DynamicContractMethod reflect → Bytes → ContractAction H W Bytes
  unfolding build_signed_raw execute_transaction trim_matches
  call_bytes self input = do
    raw ← build_signed_raw self.wallet self.address (method_name self.method) input
    response ← from_client (execute_transaction provider codec raw)
    lift (map_err hex (hex_decode (trim_matches response b'"')))

  unfoldable pub send_bytes :
      DynamicContractMethod reflect → Bytes → ContractAction H W SendTransactionOutput
  unfolding build_signed_raw send_transaction
  send_bytes self input = do
    raw ← build_signed_raw self.wallet self.address (method_name self.method) input
    from_client (send_transaction provider codec raw)

  -- `decode` is `MOut::decode`, and `input` the encoding of the message.
  unfoldable pub call_typed :
      {M : Type 0}
      → (Bytes → Result Text M)
      → DynamicContract reflect
      → Text
      → Bytes
      → ContractAction H W M
  unfolding method_of call_bytes
  call_typed decode self name input = do
    method ← lift (method_of reflect self name)
    bytes ← call_bytes method input
    lift (map_err protobuf_decode (decode bytes))

  unfoldable pub send_typed :
      DynamicContract reflect → Text → Bytes → ContractAction H W SendTransactionOutput
  unfolding method_of send_bytes
  send_typed self name input = do
    method ← lift (method_of reflect self name)
    send_bytes method input

  -- `LazyDynamicContract`: the cell is what it holds, nothing or a contract.
  pub record LazyDynamicContract : Type 0 where
    pub wallet : Wallet
    pub address : Text
    pub dynamic : Option (DynamicContract reflect)

  unfoldable pub new_lazy : Wallet → Text → LazyDynamicContract
  new_lazy wallet address = record { wallet = wallet; address = address; dynamic = none }

  -- `get_or_try_init`: a full cell answers, an empty one is filled where the initialization succeeds.
  abbrev pub fill :
      LazyDynamicContract
      → ContractResult H (DynamicContract reflect) × W
      → ContractResult H (DynamicContract reflect) × LazyDynamicContract × W
  fill self (ok contract, w) = (ok contract, record self { dynamic = some contract }, w)
  fill self (err e, w) = (err e, self, w)
  fill self (panic, w) = (panic, self, w)

  unfoldable pub get_dynamic :
      LazyDynamicContract → W → ContractResult H (DynamicContract reflect) × LazyDynamicContract × W
  unfolding at_address
  get_dynamic self w = elim self.dynamic [
    | some contract ↦ (ok contract, self, w)
    | none ↦ fill self (at_address self.address self.wallet w)
  ]

  -- `ZeroContract`.
  pub record ZeroContract : Type 0 where
    pub wallet : Wallet
    pub address : Text

  unfoldable pub new_zero_contract : Wallet → Text → ZeroContract
  new_zero_contract wallet address = record { wallet = wallet; address = address }

  unfoldable pub zero_contract_address_by_name : ZeroContract → Text → ContractAction H W Text
  unfolding build_signed_raw execute_transaction trim_matches pb_to_address hash_to_pb
  zero_contract_address_by_name self contract_name = do
    let name_hash = hash_to_pb (sha256_bytes crates (as_bytes contract_name))
    raw ←
        build_signed_raw self.wallet self.address (codes "GetContractAddressByName")
          (codec.encode_hash name_hash)
    response ← from_client (execute_transaction provider codec raw)
    bytes ← lift (map_err hex (hex_decode (trim_matches response b'"')))
    message ← lift (map_err protobuf_decode (codec.decode_address_message bytes))
    lift (ok (pb_to_address crates message))
