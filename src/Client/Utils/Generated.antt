-- ===== src/Client/Utils/Generated.antt =====
-- crates/aelf-client/src/lib.rs: the transaction that `generate_transaction` makes.
use aelf_web3_rust.Base.{
  ◌≡◌, refl, ap, [], some, none, Option, ok, map_err, ok_or, ok-injective, map_err-eq-ok, bind_ok,
  subst, ◌∙◌, length, take, length-take, arith,
}
use aelf_web3_rust.Base.Text.{Text, Bytes, codes}
use aelf_web3_rust.Crypto.Crates.{Crates}
use aelf_web3_rust.Crypto.Proto.{Address, Transaction}
use aelf_web3_rust.Crypto.Address.{address_to_pb, decode_address}
use aelf_web3_rust.Client.Error.{AElfResult, hex, crypto, request}
use aelf_web3_rust.Client.Action.{Provider, run_ok, lift_ok}
use aelf_web3_rust.Client.Codec.{Codec}
use aelf_web3_rust.Client.Dto.{ChainStatusDto}
use aelf_web3_rust.Client.Service.{get_chain_status}
use aelf_web3_rust.Client.Utils.{generate_transaction, trim_start_0x, get_4}

get_4-eq-some : (b p : Bytes) → get_4 b ≡ some p → (p ≡ take 4 b) × (length p ≡ 4)
unfolding get_4
get_4-eq-some b p h = (ground arith, ground (arith, length-take 4 b))

ok_or-eq-ok : {E A : Type 0} (o : Option A) (e : E) {a : A} → ok_or o e ≡ ok a → o ≡ some a
ok_or-eq-ok none e h = cc
ok_or-eq-ok (some a) e h = cc

address_to_pb-eq-ok :
    (crates : Crates) (t : Text) (a : Address)
    → address_to_pb crates t ≡ ok a
    → decode_address crates t ≡ ok a.value
unfolding address_to_pb
address_to_pb-eq-ok crates t a h =
    bind_ok (decode_address crates t) _ h
      λ b decoded made. decoded ∙ ap ok (ap (λ (m : Address). m.value) (ok-injective made))

module _ (crates : Crates) where
  -- What a transaction for `method_name` with `params` between two addresses is, on a chain in a state.
  pub record IsGenerated (status : ChainStatusDto) (sender receiver method_name : Text)
      (params : Bytes) (t : Transaction) : Type 0 where
    pub sender_value : Bytes
    pub from_of : t.from ≡ some (record { value = sender_value })
    pub from_decodes : decode_address crates sender ≡ ok sender_value
    pub receiver_value : Bytes
    pub to_of : t.to ≡ some (record { value = receiver_value })
    pub to_decodes : decode_address crates receiver ≡ ok receiver_value
    pub height : t.ref_block_number ≡ status.best_chain_height
    pub hash : Bytes
    pub hash_decodes : crates.hex_decode (trim_start_0x status.best_chain_hash) ≡ ok hash
    pub prefix : t.ref_block_prefix ≡ take 4 hash
    pub prefix_length : length t.ref_block_prefix ≡ 4
    pub method_name_of : t.method_name ≡ method_name
    pub params_of : t.params ≡ params
    pub unsigned : t.signature ≡ []

module _ {H W : Type 0} (provider : Provider H W) (codec : Codec) (crates : Crates) where
  -- A generated transaction is built from the chain status that the node answers to the one request
  -- that is made: its sender and receiver are the decoded addresses, its reference block is the height
  -- and the first four bytes of the decoded hash of the best block, its method and parameters are those
  -- that were given, and its signature is empty.
  pub generate_transaction-IsGenerated :
      (sender receiver method_name : Text) (params : Bytes) (w w' : W) (t : Transaction)
      → generate_transaction provider codec crates sender receiver method_name params w ≡ (ok t, w')
      → (status : ChainStatusDto) × (get_chain_status provider codec w ≡ (ok status, w'))
        × IsGenerated crates status sender receiver method_name params t
  unfolding generate_transaction
  generate_transaction-IsGenerated sender receiver method_name params w w' t h =
      run_ok (get_chain_status provider codec) _ w h λ status w₁ answered h₁.
        lift_ok (map_err hex (crates.hex_decode (trim_start_0x status.best_chain_hash))) _ w₁ h₁
          λ hash decoded h₂.
            lift_ok (ok_or (get_4 hash) (request (codes "best chain hash is too short") none)) _ w₁
              h₂
              λ prefix cut h₃.
                lift_ok (map_err crypto (address_to_pb crates sender)) _ w₁ h₃ λ sender_pb sent h₄.
                  lift_ok (map_err crypto (address_to_pb crates receiver)) _ w₁ h₄
                    λ receiver_pb received h₅.
                      let ends : w₁ ≡ w' = ap (λ (p : AElfResult H Transaction × W). p.1) h₅ in
                      let made = ok-injective (ap (λ (p : AElfResult H Transaction × W). p.0) h₅) in
                      let (cuts, four) =
                        get_4-eq-some hash prefix (ok_or-eq-ok (get_4 hash) _ cut) in
                      (
                        status,
                        rw ends at answered,
                        subst (IsGenerated crates status sender receiver method_name params) made
                            (record {
                              sender_value = sender_pb.value;
                              from_of = refl;
                              from_decodes =
                                  address_to_pb-eq-ok crates sender sender_pb
                                    (map_err-eq-ok crypto _ sent);
                              receiver_value = receiver_pb.value;
                              to_of = refl;
                              to_decodes =
                                  address_to_pb-eq-ok crates receiver receiver_pb
                                    (map_err-eq-ok crypto _ received);
                              height = refl;
                              hash = hash;
                              hash_decodes = map_err-eq-ok hex _ decoded;
                              prefix = cuts;
                              prefix_length = four;
                              method_name_of = refl;
                              params_of = refl;
                              unsigned = refl;
                            }),
                      )
