-- ===== src/Client/Builder/Signed.antt =====
-- crates/aelf-client/src/lib.rs: the signature of a built transaction.
use aelf_web3_rust.Base.{
  ◌≡◌, sym, ap, ◌∙◌, [], Option, some, true, ok, ok_or, map_err, map_ok-eq-ok, map_err-eq-ok,
  ok-injective, length,
}
use aelf_web3_rust.Base.Text.{Bytes, codes, unwrap_or}
use aelf_web3_rust.Crypto.Crates.{Crates, HexLaws, EcdsaLaws}
use aelf_web3_rust.Crypto.Proto.{Transaction}
use aelf_web3_rust.Crypto.Signature.{verify_signature}
use aelf_web3_rust.Crypto.Wallet.{Wallet, sign_transaction as wallet_sign_transaction}
use aelf_web3_rust.Crypto.Wallet.Restore.{IsWallet}
use aelf_web3_rust.Crypto.Wallet.Signing.{
  verify_signature-sign, sign_transaction_with_private_key-private_key,
}
use aelf_web3_rust.Client.Error.{AElfError, AElfResult, missing_field, crypto}
use aelf_web3_rust.Client.Action.{Provider, run_ok, lift_ok}
use aelf_web3_rust.Client.Codec.{Codec}
use aelf_web3_rust.Client.Utils.{sign_transaction}
use aelf_web3_rust.Client.Utils.Generated.{generate_transaction-IsGenerated}
use aelf_web3_rust.Client.Builder.{
  TransactionBuilder, resolve_contract, build_unsigned, build_signed,
}

abbrev pub without_signature : Transaction → Transaction
without_signature t = record t { signature = [] }

module _ {H W : Type 0} (provider : Provider H W) (codec : Codec) (crates : Crates) where
  sign_transaction-eq-ok :
      (wallet : Wallet) (unsigned t : Transaction)
      → unsigned.signature ≡ []
      → sign_transaction provider codec crates wallet unsigned ≡ ok t
      → (without_signature t ≡ unsigned)
        × (wallet_sign_transaction crates wallet (without_signature t) ≡ ok t.signature)
  unfolding sign_transaction
  sign_transaction-eq-ok wallet unsigned t blank h =
      let (s, signed, made) =
        map_ok-eq-ok _ (map_err crypto (wallet_sign_transaction crates wallet unsigned)) h in
      let same : without_signature t ≡ unsigned =
        sym (ap without_signature made)
        ∙ ap (λ (s : Bytes). record unsigned { signature = s }) (sym blank) in
      let stored : s ≡ t.signature = ap (λ (x : Transaction). x.signature) made in
      (
        same,
        ap (wallet_sign_transaction crates wallet) same
            ∙ map_err-eq-ok crypto _ signed
            ∙ ap ok stored,
      )

  -- The steps of a successful build.
  build_signed-steps :
      (b : TransactionBuilder) (wallet : Wallet) (w w' : W) (t : Transaction)
      → b.wallet ≡ some wallet
      → build_signed provider codec crates b w ≡ (ok t, w')
      → (unsigned : Transaction) × (build_unsigned provider codec crates b w ≡ (ok unsigned, w'))
        × (sign_transaction provider codec crates wallet unsigned ≡ ok t)
  unfolding build_signed
  build_signed-steps b wallet w w' t has h =
      lift_ok (ok_or b.wallet (missing_field (codes "wallet"))) _ w h λ found is_wallet h₁.
        let same : found ≡ wallet = ok-injective (
          sym is_wallet
          ∙ ap (λ (o : Option Wallet). ok_or {E = AElfError H} o (missing_field (codes "wallet")))
              has) in
        run_ok (build_unsigned provider codec crates b) _ w h₁ λ unsigned w₁ built h₂.
          let ends : w₁ ≡ w' = ap (λ (p : AElfResult H Transaction × W). p.1) h₂ in
          let made = ap (λ (p : AElfResult H Transaction × W). p.0) h₂ in
          (unsigned, rw ends at built, rw same at made)

  build_unsigned-blank :
      (b : TransactionBuilder) (w w' : W) (t : Transaction)
      → build_unsigned provider codec crates b w ≡ (ok t, w')
      → t.signature ≡ []
  unfolding build_unsigned
  build_unsigned-blank b w w' t h =
      lift_ok (ok_or b.wallet (missing_field (codes "wallet"))) _ w h λ wallet _ h₁.
        run_ok (resolve_contract provider codec crates b.contract_address b.system_contract_name) _
          w h₁
          λ address w₁ _ h₂.
            lift_ok (ok_or b.method_name (missing_field (codes "method name"))) _ w₁ h₂
              λ method_name _ h₃.
                let (status, _, generated) =
                  generate_transaction-IsGenerated provider codec crates wallet.address address
                    method_name (unwrap_or b.params []) w₁ w' t h₃ in
                generated.unsigned

module _ (crates : Crates) (hex : HexLaws crates) (ecdsa : EcdsaLaws crates) {H W : Type 0}
    (provider : Provider H W) (codec : Codec) where
  -- With the documented behaviour of hex and the ECDSA crates: where a build is signed with a wallet
  -- whose keys and address come from one signing key, the result without its signature is the unsigned
  -- build, and its signature has 65 bytes and is verified, for the encoding of the transaction without
  -- signature, under the bytes of the wallet's public key.
  pub build_signed-verify_signature :
      (b : TransactionBuilder) (wallet : Wallet) (public_key : Bytes) (w w' : W) (t : Transaction)
      → b.wallet ≡ some wallet
      → IsWallet crates wallet
      → crates.hex_decode wallet.public_key ≡ ok public_key
      → build_signed provider codec crates b w ≡ (ok t, w')
      → (build_unsigned provider codec crates b w ≡ (ok (without_signature t), w'))
        × (length t.signature ≡ 65)
        × (verify_signature crates public_key
              (crates.encode_transaction (without_signature t))
              t.signature
            ≡ ok true)
  build_signed-verify_signature b wallet public_key w w' t has is_wallet decoded h =
      let (unsigned, built, signed) =
        build_signed-steps provider codec crates b wallet w w' t has h in
      let blank = build_unsigned-blank provider codec crates b w w' unsigned built in
      let (same, signature) =
        sign_transaction-eq-ok provider codec crates wallet unsigned t blank signed in
      let by_sign =
        sym
          (sign_transaction_with_private_key-private_key crates hex ecdsa wallet
            (without_signature t) is_wallet).0
        ∙ signature in
      let (size, verified) =
        verify_signature-sign crates hex ecdsa wallet
          (crates.encode_transaction (without_signature t)) t.signature public_key is_wallet by_sign
          decoded in
      (rw (sym same) at built, size, verified)
