-- ===== src/Crypto/Signature/Verify.antt =====
-- Signing and verifying: what is signed is verified, and what is verified was recovered.
use aelf_web3_rust.Base.{
  ℕ, zero, suc, ◌<◌, ◌≡◌, refl, sym, ap, ◌∙◌, ◌≢◌, ◌↔◌, [], ◌∷◌, ◌++◌, true, some, arith, ok, panic,
  length, take, get_elem?, length-append, take-append, Option-cases, inl, inr,
}
use aelf_web3_rust.Base.Text.{Bytes}
use aelf_web3_rust.Crypto.Crates.{Crates, EcdsaLaws}
use aelf_web3_rust.Crypto.Signature.{sign_payload, verify_signature, signature_bytes}

get_last : (b : Bytes) (c n : ℕ) → length b ≡ n → get_elem? (b ++ c ∷ []) n ≡ some c
get_last [] c zero e = refl
get_last [] c (suc n) e = absurd (omega arith)
get_last (x ∷ b) c zero e = absurd (omega arith)
get_last (x ∷ b) c (suc n) e = get_last b c n (omega arith)

get_some : (b : Bytes) (n : ℕ) → n < length b → (c : ℕ) × (get_elem? b n ≡ some c)
get_some [] n e = absurd (omega arith)
get_some (x ∷ b) zero e = (x, refl)
get_some (x ∷ b) (suc n) e = get_some b n (omega arith)

module _ (crates : Crates) where
  open crates use {
    sha256, SigningKey, VerifyingKey, Signature, RecoveryId, verifying_key, to_encoded_point,
    verifying_key_eq, from_sec1_bytes, recovery_id_from_byte, recovery_id_to_byte,
    signature_from_slice, signature_to_bytes, sign_digest_recoverable, recover_from_digest,
  }

  verify_signed :
      EcdsaLaws crates
      → (k : SigningKey) (payload : Bytes) (s : Signature) (r : RecoveryId)
      → sign_digest_recoverable k (sha256 payload) ≡ some (s, r)
      → (length (signature_bytes crates (s, r)) ≡ 65)
        × (verify_signature crates
              (to_encoded_point (verifying_key k))
              payload
              (signature_bytes crates (s, r))
            ≡ ok true)
  unfolding verify_signature
  verify_signed laws k payload s r h =
      let last = recovery_id_to_byte r in
      let size : length (signature_to_bytes s ++ last ∷ []) ≡ 65 =
        omega (arith, length-append (signature_to_bytes s) (last ∷ []), laws.signature_length s) in
      (
        size,
        ground (
          arith,
          laws.point_from_bytes (verifying_key k),
          get_last (signature_to_bytes s) last 64 (laws.signature_length s),
          laws.id_from_byte r,
          take-append (signature_to_bytes s) (last ∷ []) 64 (sym (laws.signature_length s)),
          laws.signature_from_bytes s,
          laws.recovers k (sha256 payload) s r h,
          laws.key_eq_refl (verifying_key k),
        ),
      )

  signed_bytes :
      (k : SigningKey) (payload bytes : Bytes)
      → sign_payload crates k payload ≡ ok bytes
      → (s : Signature) × (r : RecoveryId) × (sign_digest_recoverable k (sha256 payload)
          ≡ some (s, r))
        × (signature_bytes crates (s, r) ≡ bytes)
  unfolding sign_payload
  signed_bytes k payload bytes h =
      elim (Option-cases (sign_digest_recoverable k (sha256 payload))) [
        | inl e ↦ absurd (ground arith)
        | inr ((s, r), e) ↦ (s, r, e, ground arith)
      ]

  -- A signature has 65 bytes, and is verified under the key's uncompressed point.
  pub verify_signature-sign_payload :
      EcdsaLaws crates
      → (k : SigningKey) (payload bytes : Bytes) → sign_payload crates k payload ≡ ok bytes
      → (length bytes ≡ 65)
        × (verify_signature crates (to_encoded_point (verifying_key k)) payload bytes ≡ ok true)
  verify_signature-sign_payload laws k payload bytes h =
      let (s, r, e, same) = signed_bytes k payload bytes h in
      rw same at (verify_signed laws k payload s r e)

  -- Every check fails with `InvalidSignature`; nothing panics.
  pub verify_signature-ne-panic :
      (public_key payload bytes : Bytes) → verify_signature crates public_key payload bytes ≢ panic
  unfolding verify_signature
  verify_signature-ne-panic public_key payload bytes h = ground (arith, get_some bytes 64)

  verified_parts :
      (public_key payload bytes : Bytes)
      → verify_signature crates public_key payload bytes ≡ ok true
      → (length bytes ≡ 65)
        × (v : VerifyingKey) × (from_sec1_bytes public_key ≡ some v)
        × (last : ℕ) × (get_elem? bytes 64 ≡ some last)
        × (r : RecoveryId) × (recovery_id_from_byte last ≡ some r)
        × (s : Signature) × (signature_from_slice (take 64 bytes) ≡ some s)
        × (w : VerifyingKey) × (recover_from_digest (sha256 payload) s r ≡ some w)
        × (verifying_key_eq w v ≡ true)
  unfolding verify_signature
  verified_parts public_key payload bytes h = ground arith

  -- Five facts that make the bytes a signature of the payload under the public key.
  pub record IsRecovered (public_key payload bytes : Bytes) : Type 0 where
    pub key : VerifyingKey
    pub signature : Signature
    pub recovery_id : RecoveryId
    pub last : ℕ
    pub size : length bytes ≡ 65
    pub key_read : from_sec1_bytes public_key ≡ some key
    pub last_read : get_elem? bytes 64 ≡ some last
    pub id_read : recovery_id_from_byte last ≡ some recovery_id
    pub signature_read : signature_from_slice (take 64 bytes) ≡ some signature
    pub recovered : recover_from_digest (sha256 payload) signature recovery_id ≡ some key

  -- With the documented behaviour of the ECDSA crates, a signature is verified exactly when it has 65
  -- bytes, its last byte is a recovery id, the first 64 are a signature, and the key recovered from the
  -- two for the payload's SHA-256 is the key that the public key's bytes stand for.
  pub verify_signature_iff :
      EcdsaLaws crates
      → (public_key payload bytes : Bytes)
      → (verify_signature crates public_key payload bytes ≡ ok true)
        ↔ IsRecovered public_key payload bytes
  unfolding verify_signature
  verify_signature_iff laws public_key payload bytes = (sound, complete)
    where
      sound :
          verify_signature crates public_key payload bytes ≡ ok true
          → IsRecovered public_key payload bytes
      sound h =
          let (size, v, key_read, last, last_read, r, id_read, s, signature_read, w, found, same) =
            verified_parts public_key payload bytes h in
          record {
            key = v;
            signature = s;
            recovery_id = r;
            last = last;
            size = size;
            key_read = key_read;
            last_read = last_read;
            id_read = id_read;
            signature_read = signature_read;
            recovered = found ∙ ap some (laws.key_eq_sound w v same);
          }

      complete :
          IsRecovered public_key payload bytes
          → verify_signature crates public_key payload bytes ≡ ok true
      complete p = ground (arith, laws.key_eq_refl p.key)
