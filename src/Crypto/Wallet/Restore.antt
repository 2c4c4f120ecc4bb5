-- ===== src/Crypto/Wallet/Restore.antt =====
-- Wallets that the constructors make, and restoring a wallet from its private key.
use aelf_web3_rust.Base.{
  ◌≡◌, ◌∙◌, subst, sym, ap, [], ◌++◌, arith, ok, >>=-eq-ok, ok-injective, ok_or, map_err,
  map_err-eq-ok,
}
use aelf_web3_rust.Base.Text.{Text, codes}
use aelf_web3_rust.Crypto.Error.{CryptoError, derivation_path, invalid_private_key}
use aelf_web3_rust.Crypto.Crates.{Crates, HexLaws, Bip39Laws, EcdsaLaws}
use aelf_web3_rust.Crypto.Address.{address_from_public_key}
use aelf_web3_rust.Crypto.PrivateKey.{
  normalize_private_key_hex, normalize_private_key_hex-hex_encode,
}
use aelf_web3_rust.Crypto.Wallet.{
  Wallet, default_bip44_path, from_signing_key, from_mnemonic_with_path, create_with_path,
  from_private_key, signing_key,
}

module _ (crates : Crates) where
  open crates use {
    Mnemonic, DerivationPath, hex_encode, SigningKey, signing_key_to_bytes, signing_key_from_bytes,
    verifying_key, to_encoded_point, Rng, to_phrase, derivation_string,
    mnemonic_from_rng_with_count, mnemonic_from_phrase, path_from_str, derive_key,
  }

  -- The keys of a wallet and its address come from one signing key.
  pub record IsWallet (w : Wallet) : Type 0 where
    pub key : SigningKey
    pub private_key_of : w.private_key ≡ hex_encode (signing_key_to_bytes key)
    pub public_key_of : w.public_key ≡ hex_encode (to_encoded_point (verifying_key key))
    pub address_of :
        w.address ≡ address_from_public_key crates (to_encoded_point (verifying_key key))

  made_by :
      (k : SigningKey) (phrase path : Text) (w : Wallet)
      → from_signing_key crates k phrase path ≡ w
      → IsWallet w
  unfolding from_signing_key
  made_by k phrase path w h = record {
    key = k;
    private_key_of = sym (ap (λ (v : Wallet). v.private_key) h);
    public_key_of = sym (ap (λ (v : Wallet). v.public_key) h);
    address_of = sym (ap (λ (v : Wallet). v.address) h);
  }

  key_found :
      (t : Text) (w : Wallet)
      → from_private_key crates t ≡ ok w
      → (k : SigningKey) × (from_signing_key crates k [] default_bip44_path ≡ w)
  unfolding from_private_key
  key_found t w h =
      let (b, _, rest) = >>=-eq-ok (normalize_private_key_hex crates t) _ h in
      let (k, _, made) = >>=-eq-ok (ok_or (signing_key_from_bytes b) invalid_private_key) _ rest in
      (k, ok-injective made)

  key_derived :
      (phrase path : Text) (w : Wallet)
      → from_mnemonic_with_path crates phrase path ≡ ok w
      → (k : SigningKey) × (words path' : Text) × (from_signing_key crates k words path' ≡ w)
  unfolding from_mnemonic_with_path
  key_derived phrase path w h =
      let (m, _, rest) =
        >>=-eq-ok (map_err CryptoError.mnemonic (mnemonic_from_phrase phrase)) _ h in
      let (p, _, rest') = >>=-eq-ok (map_err derivation_path (path_from_str path)) _ rest in
      let (k, _, made) = >>=-eq-ok (map_err CryptoError.mnemonic (derive_key m p)) _ rest' in
      (k, to_phrase m, derivation_string p, ok-injective made)

  phrase_drawn :
      (rng : Rng) (path : Text) (w : Wallet)
      → create_with_path crates rng path ≡ ok w
      → (phrase : Text) × (from_mnemonic_with_path crates phrase path ≡ ok w)
  unfolding create_with_path
  phrase_drawn rng path w h =
      let (m, _, rest) =
        >>=-eq-ok (map_err CryptoError.mnemonic (mnemonic_from_rng_with_count rng 12)) _ h in
      (to_phrase m, rest)

  -- Every constructor makes the keys and the address of its wallet from one signing key.
  pub from_private_key-IsWallet :
      (t : Text) (w : Wallet) → from_private_key crates t ≡ ok w → IsWallet w
  from_private_key-IsWallet t w h =
      let (k, e) = key_found t w h in made_by k [] default_bip44_path w e

  pub from_mnemonic_with_path-IsWallet :
      (phrase path : Text) (w : Wallet)
      → from_mnemonic_with_path crates phrase path ≡ ok w
      → IsWallet w
  from_mnemonic_with_path-IsWallet phrase path w h =
      let (k, words, path', e) = key_derived phrase path w h in made_by k words path' w e

  -- The keys and the address of a wallet that is created come from one signing key.
  pub create_with_path-IsWallet :
      (rng : Rng) (path : Text) (w : Wallet) → create_with_path crates rng path ≡ ok w → IsWallet w
  create_with_path-IsWallet rng path w h =
      let (phrase, e) = phrase_drawn rng path w h in
      from_mnemonic_with_path-IsWallet phrase path w e

  module _ (laws : Bip39Laws crates) where
    -- A phrase and a path that made a wallet are its own, and make it again.
    made_again :
        (m : Mnemonic) (path : Text) (w : Wallet)
        → from_mnemonic_with_path crates (to_phrase m) path ≡ ok w
        → (p : DerivationPath) × (path_from_str path ≡ ok p)
          × (w.mnemonic ≡ to_phrase m)
          × (w.bip44_path ≡ derivation_string p)
          × (from_mnemonic_with_path crates (to_phrase m) (derivation_string p) ≡ ok w)
    unfolding from_mnemonic_with_path from_signing_key
    made_again m path w h =
        let (m', em, rest) =
          >>=-eq-ok (map_err CryptoError.mnemonic (mnemonic_from_phrase (to_phrase m))) _ h in
        let (p, ep, rest') = >>=-eq-ok (map_err derivation_path (path_from_str path)) _ rest in
        let (k, ek, made) = >>=-eq-ok (map_err CryptoError.mnemonic (derive_key m' p)) _ rest' in
        let read = map_err-eq-ok derivation_path (path_from_str path) ep in
        let same : m ≡ m' = ok-injective (
          sym (laws.phrase_back m)
          ∙ map_err-eq-ok CryptoError.mnemonic (mnemonic_from_phrase (to_phrase m)) em) in
        let e = ok-injective made in
        (
          p,
          read,
          ap (λ (v : Wallet). v.mnemonic) (sym e) ∙ ap to_phrase (sym same),
          ap (λ (v : Wallet). v.bip44_path) (sym e),
          rw (em, laws.path_back p, ek) made,
        )

    -- With phrases of BIP-39 and texts of paths that read back: a wallet that is created under a path
    -- holds the phrase of a mnemonic of 12 words, drawn from the random source, and the text of the
    -- path, as it was read; restoring from this phrase and this text gives the whole wallet again, and
    -- its keys and its address come from one signing key.
    pub create_with_path-from_mnemonic_with_path :
        (rng : Rng) (path : Text) (w : Wallet)
        → create_with_path crates rng path ≡ ok w
        → (m : Mnemonic) × (p : DerivationPath) × (mnemonic_from_rng_with_count rng 12 ≡ ok m)
          × (path_from_str path ≡ ok p)
          × (w.mnemonic ≡ to_phrase m)
          × (w.bip44_path ≡ derivation_string p)
          × (from_mnemonic_with_path crates w.mnemonic w.bip44_path ≡ ok w)
          × IsWallet w
    unfolding create_with_path
    create_with_path-from_mnemonic_with_path rng path w h =
        let (m, em, rest) =
          >>=-eq-ok (map_err CryptoError.mnemonic (mnemonic_from_rng_with_count rng 12)) _ h in
        let (p, read, phrase, text, again) = made_again m path w rest in
        (
          m,
          p,
          map_err-eq-ok CryptoError.mnemonic (mnemonic_from_rng_with_count rng 12) em,
          read,
          phrase,
          text,
          subst (λ t. from_mnemonic_with_path crates t w.bip44_path ≡ ok w) (sym phrase)
              (subst (λ t. from_mnemonic_with_path crates (to_phrase m) t ≡ ok w) (sym text) again),
          from_mnemonic_with_path-IsWallet (to_phrase m) path w rest,
        )

  module _ (hex : HexLaws crates) (ecdsa : EcdsaLaws crates) where
    normalized_key :
        (k : SigningKey)
        → (normalize_private_key_hex crates (hex_encode (signing_key_to_bytes k))
            ≡ ok (signing_key_to_bytes k))
          × (normalize_private_key_hex crates (codes "0x" ++ hex_encode (signing_key_to_bytes k))
              ≡ ok (signing_key_to_bytes k))
    normalized_key k =
        normalize_private_key_hex-hex_encode crates hex _ (ecdsa.key_bytes k) (ecdsa.key_length k)

    -- The stored private key gives back the key that made the wallet.
    pub signing_key-IsWallet : (w : Wallet) (p : IsWallet w) → signing_key crates w ≡ ok p.key
    unfolding signing_key
    signing_key-IsWallet w p =
        rw (p.private_key_of, (normalized_key p.key).0, ecdsa.key_from_bytes p.key)

    -- With the documented behaviour of hex and the ECDSA crates, a wallet whose keys and address come
    -- from one signing key, restored from its private key, with 0x before it or not, has the keys and
    -- the address that it had; its mnemonic is empty and its path the default one.
    pub from_private_key-private_key :
        (w : Wallet)
        → IsWallet w
        → (from_private_key crates w.private_key
            ≡ ok (record w { mnemonic = []; bip44_path = default_bip44_path }))
          × (from_private_key crates (codes "0x" ++ w.private_key)
              ≡ ok (record w { mnemonic = []; bip44_path = default_bip44_path }))
    unfolding from_private_key
    from_private_key-private_key w p = (
      ground (arith, normalized_key p.key, ecdsa.key_from_bytes p.key),
      ground (arith, normalized_key p.key, ecdsa.key_from_bytes p.key),
    )
