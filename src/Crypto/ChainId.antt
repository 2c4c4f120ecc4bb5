-- ===== src/Crypto/ChainId.antt =====
-- crates/aelf-crypto/src/lib.rs: `chain_id_to_base58` and `base58_to_chain_id`, and that they are inverse.
use aelf_web3_rust.Base.{
  ◌≡◌, refl, sym, ap, ◌∙◌, arith, ok, ◌>>=◌, ◌>>◌, guard, map_err, length, ◌==◌, >>=-eq-ok,
  map_err-eq-ok,
}
use aelf_web3_rust.Base.Text.{Text, Bytes}
use aelf_web3_rust.Base.Word.{
  ℤ, IsI32, i32_to_le_bytes, i32_from_le_bytes, i32_to_le_bytes-IsBytes,
  i32_from_le_bytes-i32_to_le_bytes, i32_to_le_bytes-i32_from_le_bytes, i32_from_le_bytes-IsI32,
}
use aelf_web3_rust.Crypto.Error.{CryptoResult, invalid_address}
use aelf_web3_rust.Crypto.Crates.{Crates, Bs58Laws}

-- `bytes.as_slice().try_into()` to `[u8; 4]`, and the number.
unfoldable pub chain_id_of_bytes : Bytes → CryptoResult ℤ
chain_id_of_bytes bytes = do guard (length bytes == 4) invalid_address; ok (i32_from_le_bytes bytes)

length-i32_to_le_bytes : (n : ℤ) → length (i32_to_le_bytes n) ≡ 4
unfolding i32_to_le_bytes
length-i32_to_le_bytes n = refl

chain_id_of_bytes-eq-ok :
    (b : Bytes) (n : ℤ) → chain_id_of_bytes b ≡ ok n → (length b ≡ 4) × (i32_from_le_bytes b ≡ n)
unfolding chain_id_of_bytes
chain_id_of_bytes-eq-ok b n h = ground arith

module _ (crates : Crates) where
  open crates use {bs58_encode, bs58_decode}

  unfoldable pub chain_id_to_base58 : ℤ → Text
  chain_id_to_base58 chain_id = bs58_encode (i32_to_le_bytes chain_id)

  unfoldable pub base58_to_chain_id : Text → CryptoResult ℤ
  unfolding chain_id_of_bytes
  base58_to_chain_id chain_id = do
    bytes ← map_err (λ _. invalid_address) (bs58_decode chain_id)
    chain_id_of_bytes bytes

  -- With the documented behaviour of bs58, every `i32` chain id, negative ones too, is read back from
  -- its text.
  pub base58_to_chain_id-chain_id_to_base58 :
      Bs58Laws crates → (n : ℤ) → IsI32 n → base58_to_chain_id (chain_id_to_base58 n) ≡ ok n
  unfolding base58_to_chain_id chain_id_to_base58
  base58_to_chain_id-chain_id_to_base58 bs58 n h =
      rw (bs58.decode_encode _ (i32_to_le_bytes-IsBytes n))
        (ground (arith, length-i32_to_le_bytes n, i32_from_le_bytes-i32_to_le_bytes n h))

  -- With the documented behaviour of bs58, an accepted text stands for an `i32`, and it is the text
  -- that is written for that chain id: no chain id has two accepted texts.
  pub chain_id_to_base58-base58_to_chain_id :
      Bs58Laws crates
      → (t : Text) (n : ℤ) → base58_to_chain_id t ≡ ok n
      → (chain_id_to_base58 n ≡ t) × IsI32 n
  unfolding base58_to_chain_id chain_id_to_base58
  chain_id_to_base58-base58_to_chain_id bs58 t n h =
      let (b, decoded, read) = >>=-eq-ok (map_err _ (bs58_decode t)) chain_id_of_bytes h in
      let whole : bs58_decode t ≡ ok b = map_err-eq-ok _ (bs58_decode t) decoded in
      let (four, value) = chain_id_of_bytes-eq-ok b n read in
      let bytes = bs58.decode_bytes t b whole in
      (
        ap (λ (k : ℤ). bs58_encode (i32_to_le_bytes k)) (sym value)
            ∙ ap bs58_encode (i32_to_le_bytes-i32_from_le_bytes b four bytes)
            ∙ bs58.encode_decode t b whole,
        rw value at (i32_from_le_bytes-IsI32 b four bytes),
      )
