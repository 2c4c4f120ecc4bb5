-- ===== src/Stubs/Crypto.antt =====
-- The crates of aelf-crypto: hex for both texts, a hash that cuts and pads, and two keys that sign by
-- naming themselves.
use aelf_web3_rust.Base.{
  ℕ, ◌+◌, ◌%◌, ◌<◌, ◌≡◌, refl, [], ◌∷◌, ◌++◌, Option, none, some, Bool, true, false, ◌==◌,
  if◌then◌else◌, ok, length, take, replicate, map, All-take, All-append, All-replicate, length-take,
  length-append, length-replicate, list_eq, arith,
}
use aelf_web3_rust.Base.Text.{Text, Bytes, IsBytes}
use aelf_web3_rust.Crypto.Crates.{Crates, HexLaws, Bip39Laws, Bs58Laws, Sha256Laws, EcdsaLaws}
use aelf_web3_rust.Stubs.Hex.{
  encode, decode, decode-encode, encode-decode, decode-IsBytes, len-decode, encode-IsHexDigit,
  alphanumeric,
}

-- Bytes of a fixed length.
abbrev pub fit : ℕ → Bytes → Bytes
fit n b = take n (map (λ x. x % 256) b ++ replicate n 0)

pub length-fit : (n : ℕ) (b : Bytes) → length (fit n b) ≡ n
length-fit n b = omega (
  arith,
  length-take n (map (λ x. x % 256) b ++ replicate n 0),
  length-append (map (λ x. x % 256) b) (replicate n 0),
  length-replicate {A = ℕ} n 0,
)

reduced : (b : Bytes) → IsBytes (map (λ x. x % 256) b)
reduced [] = tt
reduced (x ∷ b) = (omega arith, reduced b)

pub fit-IsBytes : (n : ℕ) (b : Bytes) → IsBytes (fit n b)
fit-IsBytes n b =
    All-take (λ x. x < 256) n _
      (All-append (λ x. x < 256) (map (λ x. x % 256) b) (replicate n 0) (reduced b)
        (All-replicate (λ x. x < 256) n 0 (omega arith)))

-- The two keys: 1 and 2 as big-endian numbers of 32 bytes.
abbrev key_bytes : Bool → Bytes
key_bytes k = replicate 31 0 ++ (if k then 1 else 2) ∷ []

abbrev key_of : Bytes → Option Bool
key_of b =
    if list_eq b (key_bytes true)
    then some true
    else if list_eq b (key_bytes false)
    then some false
    else none

abbrev point : Bool → Bytes
point k = 4 ∷ (if k then 1 else 2) ∷ []

abbrev point_of : Bytes → Option Bool
point_of b =
    if list_eq b (point true)
    then some true
    else if list_eq b (point false)
    then some false
    else none

abbrev same : Bool → Bool → Bool
same true true = true
same false false = true
same true false = false
same false true = false

abbrev signature : Bool → Bytes
signature k = replicate 64 (if k then 1 else 2)

abbrev signature_of : Bytes → Option Bool
signature_of b =
    if list_eq b (signature true)
    then some true
    else if list_eq b (signature false)
    then some false
    else none

abbrev pub toy : Crates
toy = record {
  hex_encode = encode;
  hex_decode = decode;
  bs58_encode = encode;
  bs58_decode = decode;
  sha256 = fit 32;
  SigningKey = Bool;
  VerifyingKey = Bool;
  Signature = Bool;
  RecoveryId = Unit;
  signing_key_from_bytes = key_of;
  signing_key_to_bytes = key_bytes;
  verifying_key = λ k. k;
  to_encoded_point = point;
  from_sec1_bytes = point_of;
  verifying_key_eq = same;
  recovery_id_from_byte = λ n. if n == 0 then some tt else none;
  recovery_id_to_byte = λ _. 0;
  signature_from_slice = signature_of;
  signature_to_bytes = signature;
  sign_digest_recoverable = λ k _. some (k, tt);
  recover_from_digest = λ _ s _. some s;
  Rng = ℕ;
  Mnemonic = Text;
  DerivationPath = Text;
  mnemonic_from_rng_with_count = λ rng n. ok (replicate n (b'a' + rng % 26));
  mnemonic_from_phrase = λ t. ok t;
  to_phrase = λ t. t;
  path_from_str = λ t. ok t;
  derivation_string = λ t. t;
  derive_key = λ m p. ok true;
  encode_transaction = λ t. t.method_name ++ t.params ++ t.signature;
}

pub toy-HexLaws : HexLaws toy
toy-HexLaws = record {
  decode_encode = decode-encode;
  decode_length = len-decode;
  decode_bytes = decode-IsBytes;
  encode_digits = λ b _. encode-IsHexDigit b;
}

pub toy-Bip39Laws : Bip39Laws toy
toy-Bip39Laws = record { phrase_back = λ m. refl; path_back = λ p. refl }

pub toy-Bs58Laws : Bs58Laws toy
toy-Bs58Laws = record {
  decode_encode = decode-encode;
  encode_decode = encode-decode;
  decode_bytes = decode-IsBytes;
  encode_alphabet = λ b. alphanumeric (encode b) (encode-IsHexDigit b);
}

pub toy-Sha256Laws : Sha256Laws toy
toy-Sha256Laws = record { digest_length = length-fit 32; digest_bytes = fit-IsBytes 32 }

small : (n : ℕ) (x : ℕ) → x < 256 → IsBytes (replicate n x)
small n x h = All-replicate (λ y. y < 256) n x h

keys-IsBytes : (k : Bool) → IsBytes (key_bytes k)
keys-IsBytes true =
    All-append (λ y. y < 256) (replicate 31 0) (1 ∷ []) (small 31 0 (omega arith)) (omega arith, tt)
keys-IsBytes false =
    All-append (λ y. y < 256) (replicate 31 0) (2 ∷ []) (small 31 0 (omega arith)) (omega arith, tt)

points-IsBytes : (k : Bool) → IsBytes (point k)
points-IsBytes true = (omega arith, (omega arith, tt))
points-IsBytes false = (omega arith, (omega arith, tt))

key_back : (k : Bool) → key_of (key_bytes k) ≡ some k
unfolding list_eq
key_back true = refl
key_back false = refl

point_back : (k : Bool) → point_of (point k) ≡ some k
unfolding list_eq
point_back true = refl
point_back false = refl

signature_back : (k : Bool) → signature_of (signature k) ≡ some k
unfolding list_eq
signature_back true = refl
signature_back false = refl

same_refl : (k : Bool) → same k k ≡ true
same_refl true = refl
same_refl false = refl

same_sound : (k l : Bool) → same k l ≡ true → k ≡ l
same_sound true true h = refl
same_sound false false h = refl
same_sound true false h = cc
same_sound false true h = cc

length-key : (k : Bool) → length (key_bytes k) ≡ 32
length-key true = refl
length-key false = refl

pub toy-EcdsaLaws : EcdsaLaws toy
toy-EcdsaLaws = record {
  key_length = length-key;
  key_bytes = keys-IsBytes;
  key_from_bytes = key_back;
  point_from_bytes = point_back;
  point_bytes = points-IsBytes;
  key_eq_refl = same_refl;
  key_eq_sound = same_sound;
  id_from_byte = λ _. refl;
  signature_length = λ k. length-replicate {A = ℕ} 64 (if k then 1 else 2);
  signature_from_bytes = signature_back;
  recovers = λ k d s r h. cc;
}
