-- ===== src/Crypto/Wallet/Signing.antt =====
-- What a wallet signs is verified under its public key.
use aelf_web3_rust.Base.{◌≡◌, refl, ap, ◌∙◌, sym, true, arith, ok, length, ok-injective}
use aelf_web3_rust.Base.Text.{Bytes}
use aelf_web3_rust.Crypto.Crates.{Crates, HexLaws, EcdsaLaws}
use aelf_web3_rust.Crypto.Proto.{Transaction}
use aelf_web3_rust.Crypto.Signature.{sign_payload, verify_signature}
use aelf_web3_rust.Crypto.Signature.Verify.{verify_signature-sign_payload}
use aelf_web3_rust.Crypto.Wallet.{
  Wallet, signing_key, sign, sign_transaction, sign_transaction_with_private_key,
}
use aelf_web3_rust.Crypto.Wallet.Restore.{
  IsWallet, signing_key-IsWallet, from_private_key-private_key,
}

module _ (crates : Crates) (hex : HexLaws crates) (ecdsa : EcdsaLaws crates) where
  sign-IsWallet :
      (w : Wallet) (p : IsWallet crates w) (payload : Bytes)
      → sign crates w payload ≡ sign_payload crates p.key payload
  unfolding sign
  sign-IsWallet w p payload = rw (signing_key-IsWallet crates hex ecdsa w p)

  -- With the documented behaviour of hex and the ECDSA crates, a signature made by a wallet whose keys
  -- and address come from one signing key has 65 bytes and is verified under the bytes of the wallet's
  -- own public key.
  pub verify_signature-sign :
      (w : Wallet) (payload signature public_key : Bytes)
      → IsWallet crates w
      → sign crates w payload ≡ ok signature
      → crates.hex_decode w.public_key ≡ ok public_key
      → (length signature ≡ 65) × (verify_signature crates public_key payload signature ≡ ok true)
  verify_signature-sign w payload signature public_key p signed decoded =
      let made =
        verify_signature-sign_payload crates ecdsa p.key payload signature
          (sym (sign-IsWallet w p payload) ∙ signed) in
      let key = hex.decode_encode _ (ecdsa.point_bytes (crates.verifying_key p.key)) in
      let same : crates.to_encoded_point (crates.verifying_key p.key) ≡ public_key =
        ok-injective (sym key ∙ ap crates.hex_decode (sym p.public_key_of) ∙ decoded) in
      rw same at made

  -- Signing a transaction signs its encoding; with the wallet's private key as text the signature is the same.
  pub sign_transaction_with_private_key-private_key :
      (w : Wallet) (t : Transaction)
      → IsWallet crates w
      → (sign_transaction crates w t ≡ sign crates w (crates.encode_transaction t))
        × (sign_transaction_with_private_key crates w.private_key t ≡ sign_transaction crates w t)
  unfolding sign_transaction sign sign_transaction_with_private_key signing_key
  sign_transaction_with_private_key-private_key w t p = (
    refl,
    ground (
      arith,
      from_private_key-private_key crates hex ecdsa w p,
      signing_key-IsWallet crates hex ecdsa w p,
    ),
  )
