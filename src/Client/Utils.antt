-- ===== src/Client/Utils.antt =====
-- crates/aelf-client/src/lib.rs: `ClientUtilsService` and `KeyPairInfo`. A protobuf message that is only
-- encoded is the bytes of its encoding; `RawBytesMessage` of protobuf.rs is such bytes already.
pub mod Generated
use aelf_web3_rust.Base.{
  ℕ, ◌++◌, List, [], ◌∷◌, Bool, true, false, Option, none, some, Result, ok, err, panic, map_err,
  map_ok, ok_or, is_ok, leb, length, take, if◌then◌else◌, ◌==◌, ◌&&◌,
}
use aelf_web3_rust.Base.Text.{Text, Bytes, codes, as_bytes}
use aelf_web3_rust.Base.Text.Trim.{trim_matches}
use aelf_web3_rust.Base.Word.{ℤ}
use aelf_web3_rust.Crypto.Crates.{Crates}
use aelf_web3_rust.Crypto.Proto.{Transaction}
use aelf_web3_rust.Crypto.Base58.{sha256_bytes}
use aelf_web3_rust.Crypto.Address.{
  address_from_public_key, address_to_pb, pb_to_address, decode_address, hash_to_pb,
}
use aelf_web3_rust.Crypto.Wallet.{
  Wallet, from_private_key, create, sign_transaction as wallet_sign_transaction,
}
use aelf_web3_rust.Client.Error.{AElfError, AElfResult, crypto, hex, protobuf_decode, request}
use aelf_web3_rust.Client.Action.{Action, ◌>>=◌, lift, Provider}
use aelf_web3_rust.Client.Codec.{Codec}
use aelf_web3_rust.Client.Service.{get_chain_status}
use aelf_web3_rust.Client.Service.Tx.{execute_transaction}

pub record KeyPairInfo : Type 0 where
  pub private_key : Text
  pub public_key : Text
  pub address : Text

unfoldable pub from_wallet : Wallet → KeyPairInfo
from_wallet wallet = record {
  private_key = wallet.private_key;
  public_key = wallet.public_key;
  address = wallet.address;
}

abbrev pub readonly_private_key : Text
readonly_private_key = codes "0000000000000000000000000000000000000000000000000000000000000001"

-- `trim_start_matches("0x")`.
unfoldable pub trim_start_0x : Text → Text
trim_start_0x [] = []
trim_start_0x (c ∷ []) = c ∷ []
trim_start_0x (c ∷ d ∷ s) = if c == b'0' && d == b'x' then trim_start_0x s else c ∷ d ∷ s

-- `bytes.get(..4)`.
unfoldable pub get_4 : Bytes → Option Bytes
get_4 bytes = if leb 4 (length bytes) then some (take 4 bytes) else none

module _ {H W : Type 0} (provider : Provider H W) (codec : Codec) (crates : Crates) where
  open crates use {hex_encode, hex_decode, encode_transaction, Rng}

  -- Whether the node answers; the state afterwards is the second part.
  unfoldable pub is_connected : W → Bool × W
  unfolding get_chain_status
  is_connected w = let (status, w') = get_chain_status provider codec w in (is_ok status, w')

  unfoldable pub get_address_from_pub_key : Text → AElfResult H Text
  unfolding address_from_public_key
  get_address_from_pub_key public_key_hex =
      map_ok (address_from_public_key crates) (map_err hex (hex_decode public_key_hex))

  unfoldable pub get_address_from_private_key : Text → AElfResult H Text
  unfolding from_private_key
  get_address_from_private_key private_key_hex =
      map_ok (λ (w : Wallet). w.address) (map_err crypto (from_private_key crates private_key_hex))

  unfoldable pub generate_key_pair_info : Rng → AElfResult H KeyPairInfo
  unfolding create from_wallet
  generate_key_pair_info rng = map_ok from_wallet (map_err crypto (create crates rng))

  unfoldable pub get_genesis_contract_address : Action H W Text
  unfolding get_chain_status
  get_genesis_contract_address = do
    status ← get_chain_status provider codec
    lift (ok status.genesis_contract_address)

  -- `params` is the input's encoding.
  unfoldable pub generate_transaction : Text → Text → Text → Bytes → Action H W Transaction
  unfolding get_chain_status trim_start_0x get_4 address_to_pb request
  generate_transaction sender receiver method_name params = do
    chain_status ← get_chain_status provider codec
    hash_bytes ← lift (map_err hex (hex_decode (trim_start_0x chain_status.best_chain_hash)))
    prefix ← lift (ok_or (get_4 hash_bytes) (request (codes "best chain hash is too short") none))
    sender_pb ← lift (map_err crypto (address_to_pb crates sender))
    receiver_pb ← lift (map_err crypto (address_to_pb crates receiver))
    lift (
        ok (record {
          from = some sender_pb;
          to = some receiver_pb;
          ref_block_number = chain_status.best_chain_height;
          ref_block_prefix = prefix;
          method_name = method_name;
          params = params;
          signature = [];
        }))

  unfoldable pub sign_transaction : Wallet → Transaction → AElfResult H Transaction
  unfolding wallet_sign_transaction
  sign_transaction wallet transaction =
      map_ok (λ s. record transaction { signature = s })
        (map_err crypto (wallet_sign_transaction crates wallet transaction))

  -- The call of a view method with the public key, up to the bytes of its answer.
  unfoldable pub call_readonly : Wallet → Text → Text → Bytes → Action H W Bytes
  unfolding generate_transaction sign_transaction execute_transaction trim_matches
  call_readonly wallet receiver method_name params = do
    transaction ← generate_transaction wallet.address receiver method_name params
    signed ← lift (sign_transaction wallet transaction)
    response ← execute_transaction provider codec (hex_encode (encode_transaction signed))
    lift (map_err hex (hex_decode (trim_matches response b'"')))

  unfoldable pub get_contract_address_by_name : Text → Action H W Text
  unfolding from_private_key get_genesis_contract_address call_readonly pb_to_address hash_to_pb
  get_contract_address_by_name contract_name = do
    readonly_wallet ← lift (map_err crypto (from_private_key crates readonly_private_key))
    genesis_address ← get_genesis_contract_address
    let name_hash = hash_to_pb (sha256_bytes crates (as_bytes contract_name))
    bytes ←
        call_readonly readonly_wallet genesis_address (codes "GetContractAddressByName")
          (codec.encode_hash name_hash)
    address ← lift (map_err protobuf_decode (codec.decode_address_message bytes))
    lift (ok (pb_to_address crates address))

  -- `Empty` is encoded as no bytes.
  unfoldable pub get_formatted_address : Text → Action H W Text
  unfolding from_private_key get_contract_address_by_name call_readonly get_chain_status
  get_formatted_address address = do
    readonly_wallet ← lift (map_err crypto (from_private_key crates readonly_private_key))
    token_address ← get_contract_address_by_name (codes "AElf.ContractNames.Token")
    bytes ← call_readonly readonly_wallet token_address (codes "GetPrimaryTokenSymbol") []
    symbol ← lift (map_err protobuf_decode (codec.decode_string_value bytes))
    status ← get_chain_status provider codec
    lift (ok (symbol ++ codes "_" ++ address ++ codes "_" ++ status.chain_id))

  -- `ClientUtilsService::decode_address`.
  unfoldable pub decode_utils_address : Text → AElfResult H Bytes
  unfolding decode_address
  decode_utils_address address = map_err crypto (decode_address crates address)
