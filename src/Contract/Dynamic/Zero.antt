-- ===== src/Contract/Dynamic/Zero.antt =====
-- crates/aelf-contract/src/lib.rs and crates/aelf-client/src/lib.rs: the two ways to the address of a system
-- contract, `ZeroContract::get_contract_address_by_name` and that of `ClientUtilsService`.
use aelf_web3_rust.Base.{◌≡◌, refl, Result, ok, err, panic, map_err}
use aelf_web3_rust.Base.Text.{Text, Bytes, codes, as_bytes}
use aelf_web3_rust.Base.Text.Trim.{trim_matches}
use aelf_web3_rust.Crypto.Crates.{Crates}
use aelf_web3_rust.Crypto.Proto.{Address, Transaction}
use aelf_web3_rust.Crypto.Base58.{sha256_bytes}
use aelf_web3_rust.Crypto.Address.{pb_to_address, hash_to_pb}
use aelf_web3_rust.Crypto.Wallet.{Wallet, from_private_key}
use aelf_web3_rust.Client.Error.{
  AElfError, AElfResult, hex as client_hex, protobuf_decode as client_protobuf_decode,
}
use aelf_web3_rust.Client.Action.{Action, Provider, continue, ◌>>=◌, lift}
use aelf_web3_rust.Client.Codec.{Codec}
use aelf_web3_rust.Client.Service.Tx.{execute_transaction}
use aelf_web3_rust.Client.Utils.{
  call_readonly, generate_transaction, sign_transaction, readonly_private_key,
  get_genesis_contract_address, get_contract_address_by_name,
}
use aelf_web3_rust.Client.Builder.{build_signed, build_unsigned, resolve_contract}
use aelf_web3_rust.Contract.Reflect.{ContractError, hex, protobuf_decode, Reflect}
use aelf_web3_rust.Contract.Dynamic.{
  ContractAction, from_client, build_signed_raw, zero_contract_address_by_name,
}

-- The same outcome but for the error: the same value, or an error in both, or a panic in both, and the same
-- state.
abbrev pub Agree : {D E A W : Type 0} → Result D A × W → Result E A × W → Type 0
Agree (ok a, w) (ok b, v) = (a ≡ b) × (w ≡ v)
Agree (err _, w) (err _, v) = w ≡ v
Agree (panic, w) (panic, v) = w ≡ v
Agree _ _ = ⊥

module _ {H W : Type 0} (provider : Provider H W) (codec : Codec) (crates : Crates)
    (reflect : Reflect) where
  open crates use {hex_encode, hex_decode, encode_transaction}

  -- The answer of the contract as an address, with the errors of either side.
  abbrev contract_tail : Text → ContractAction H W Text
  contract_tail response = do
    bytes ← lift (map_err hex (hex_decode (trim_matches response b'"')))
    message ← lift (map_err protobuf_decode (codec.decode_address_message bytes))
    lift (ok (pb_to_address crates message))

  abbrev decoded : Bytes → Action H W Text
  decoded bytes = do
    address ← lift (map_err client_protobuf_decode (codec.decode_address_message bytes))
    lift (ok (pb_to_address crates address))

  decoded-Agree :
      (d : Result Text Address) (w : W)
      → Agree
          (continue
            (map_err {E = ContractError H} protobuf_decode d, w)
            (λ m. lift (ok (pb_to_address crates m))))
          (continue
            (map_err {E = AElfError H} client_protobuf_decode d, w)
            (λ m. lift (ok (pb_to_address crates m))))
  decoded-Agree (ok a) w = (refl, refl)
  decoded-Agree (err e) w = refl
  decoded-Agree panic w = refl

  answer-Agree :
      (h : Result Text Bytes) (w : W)
      → Agree
          (continue
            (map_err {E = ContractError H} hex h, w)
            (λ bytes.
              lift (map_err protobuf_decode (codec.decode_address_message bytes))
              >>= (λ m. lift (ok (pb_to_address crates m)))))
          (continue (map_err {E = AElfError H} client_hex h, w) decoded)
  answer-Agree (ok bytes) w = decoded-Agree (codec.decode_address_message bytes) w
  answer-Agree (err e) w = refl
  answer-Agree panic w = refl

  executed-Agree :
      (r : AElfResult H Text × W)
      → Agree (continue (from_client (λ (w : W). r) r.1) contract_tail) (
          continue
            (continue r
              (λ response. lift (map_err client_hex (hex_decode (trim_matches response b'"')))))
            decoded)
  executed-Agree (ok response, w) = answer-Agree (hex_decode (trim_matches response b'"')) w
  executed-Agree (err e, w) = refl
  executed-Agree (panic, w) = refl

  -- What follows a transaction that is signed.
  abbrev contract_rest : Text → ContractAction H W Text
  contract_rest raw = from_client (execute_transaction provider codec raw) >>= contract_tail

  abbrev client_rest : Transaction → Action H W Bytes
  client_rest signed = do
    response ← execute_transaction provider codec (hex_encode (encode_transaction signed))
    lift (map_err client_hex (hex_decode (trim_matches response b'"')))

  abbrev written : Transaction → ContractAction H W Text
  written t = lift (ok (hex_encode (encode_transaction t)))

  signed-Agree :
      (s : AElfResult H Transaction) (w : W)
      → Agree
          (continue (continue (from_client (lift s) w) written) contract_rest)
          (continue (continue (s, w) client_rest) decoded)
  signed-Agree (ok t) w =
      executed-Agree (execute_transaction provider codec (hex_encode (encode_transaction t)) w)
  signed-Agree (err e) w = refl
  signed-Agree panic w = refl

  generated-Agree :
      (wallet : Wallet) (r : AElfResult H Transaction × W)
      → Agree
          (continue
            (continue
              (from_client
                (λ (w : W).
                  continue r (λ t. lift (sign_transaction provider codec crates wallet t)))
                r.1)
              written)
            contract_rest)
          (continue
            (continue r
              (λ t. lift (sign_transaction provider codec crates wallet t) >>= client_rest))
            decoded)
  generated-Agree wallet (ok t, w) =
      signed-Agree (sign_transaction provider codec crates wallet t) w
  generated-Agree wallet (err e, w) = refl
  generated-Agree wallet (panic, w) = refl

  -- Where the key of the reads makes a wallet and the node answers the request for the address of the
  -- genesis contract: asking that contract through a `ZeroContract` with that wallet for the address of
  -- a name, and asking through the utilities of the client, which make the request for the address
  -- themselves, end in the same state, both with the same address, or both with an error, or both with
  -- a panic.
  pub zero_contract_address_by_name-Agree :
      (wallet : Wallet) (genesis name : Text) (w w' : W)
      → from_private_key crates readonly_private_key ≡ ok wallet
      → get_genesis_contract_address provider codec crates w ≡ (ok genesis, w')
      → Agree
          (zero_contract_address_by_name provider codec crates reflect
            (record { wallet = wallet; address = genesis })
            name
            w')
          (get_contract_address_by_name provider codec crates name w)
  unfolding zero_contract_address_by_name get_contract_address_by_name call_readonly
      build_signed_raw build_signed build_unsigned resolve_contract
  zero_contract_address_by_name-Agree wallet genesis name w w' readonly at_genesis =
      rw (readonly, at_genesis)
        (generated-Agree wallet (
          generate_transaction provider codec crates wallet.address genesis
            (codes "GetContractAddressByName")
            (codec.encode_hash (hash_to_pb (sha256_bytes crates (as_bytes name)))) w'))
