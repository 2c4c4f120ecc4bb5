-- ===== src/Stubs/Keystore.antt =====
-- The crates of aelf-keystore: a stream cipher that complements each byte, a block cipher that writes one
-- byte before the text, and derived keys and hashes that cut and pad.
use aelf_web3_rust.Base.{
  ℕ, suc, ◌-◌, ◌%◌, ◌<◌, ◌≡◌, refl, sym, subst, [], ◌∷◌, ◌++◌, Option, none, some, ok, ok-injective,
  ltb, ◌==◌, if◌then◌else◌, length, take, replicate, map, All-replicate, take-append, arith,
}
use aelf_web3_rust.Base.Text.{Bytes, IsBytes}
use aelf_web3_rust.Keystore.Crates.{
  KeystoreCrates, Aes, aes128, aes192, aes256, CipherLaws, KdfLaws, RngLaws,
}
use aelf_web3_rust.Stubs.Crypto.{fit, length-fit}

abbrev key_size : Aes → ℕ
key_size aes128 = 16
key_size aes192 = 24
key_size aes256 = 32

abbrev new_cipher : Aes → Bytes → Bytes → Option (Unit {0})
new_cipher aes key iv =
    if length key == key_size aes then (if length iv == 16 then some tt else none) else none

abbrev flip : ℕ → ℕ
flip x = if ltb x 256 then 255 - x else x

abbrev flips : Bytes → Bytes
flips = map flip

abbrev unpad : Bytes → Option Bytes
unpad [] = none
unpad (x ∷ b) = some b

abbrev pub toy_keystore : KeystoreCrates
toy_keystore = record {
  Ctr = Unit;
  ctr_new = new_cipher;
  apply_keystream = λ _ b. flips b;
  CbcEncryptor = Unit;
  CbcDecryptor = Unit;
  cbc_encryptor_new = new_cipher;
  cbc_decryptor_new = new_cipher;
  encrypt_padded = λ _ b n. some (16 ∷ take n b);
  decrypt_padded = λ _ b. unpad b;
  ScryptParams = Unit;
  scrypt_params = λ log_n r p dklen. if p == 1 then some tt else none;
  scrypt = λ password salt _ n. ok (fit n (take 16 salt ++ (password ++ salt)));
  pbkdf2_hmac = λ password salt rounds n. fit n (password ++ salt);
  salsa_block = fit 64;
  keccak256 = fit 32;
  Rng = ℕ;
  random_bytes = λ rng n. (replicate n (rng % 256), suc rng);
}

flip-flip : (x : ℕ) → flip (flip x) ≡ x
flip-flip x = ground arith

flips-flips : (b : Bytes) → flips (flips b) ≡ b
flips-flips [] = refl
flips-flips (x ∷ b) = rw (flip-flip x, flips-flips b)

flips-IsBytes : (b : Bytes) → IsBytes b → IsBytes (flips b)
flips-IsBytes [] h = tt
flips-IsBytes (x ∷ b) (hx, hb) = (ground arith, flips-IsBytes b hb)

some-injective : {a b : Bytes} → ◌≡◌ {A = Option Bytes} (some a) (some b) → a ≡ b
some-injective h = cc

padded_back :
    (plain cipher : Bytes)
    → some (16 ∷ take (length plain) (plain ++ replicate 16 0)) ≡ some cipher
    → (unpad cipher ≡ some plain) × (cipher ≡ 16 ∷ plain)
padded_back plain cipher h =
    let e : 16 ∷ plain ≡ cipher =
      some-injective (rw (take-append plain (replicate 16 0) (length plain) refl) at h) in
    (rw (sym e), sym e)

pub toy-CipherLaws : CipherLaws toy_keystore
toy-CipherLaws = record {
  keystream_twice = λ _ b. flips-flips b;
  keystream_bytes = λ _ b h. flips-IsBytes b h;
  decryptor_of = λ a key iv e h. (e, h);
  decrypts = λ a key iv plain cipher e d _ _ h. (padded_back plain cipher h).0;
  padded_bytes = λ e plain cipher h bytes. rw (padded_back plain cipher h).1 (omega arith, bytes);
}

pub toy-KdfLaws : KdfLaws toy_keystore
toy-KdfLaws = record {
  scrypt_length = λ password salt _ n key h.
      subst (λ (k : Bytes). length k ≡ n) (ok-injective h)
        (length-fit n (take 16 salt ++ (password ++ salt)));
  scrypt_allocates = λ password salt log_n r p dklen params _ _ _ h. cc;
  pbkdf2_length = λ password salt rounds n. length-fit n (password ++ salt);
  salsa_length = length-fit 64;
}

pub toy-RngLaws : RngLaws toy_keystore
toy-RngLaws = record {
  random_IsBytes = λ rng n. All-replicate (λ x. x < 256) n (rng % 256) (omega arith);
}
