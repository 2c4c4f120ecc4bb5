-- ===== src/Crypto/PrivateKey.antt =====
-- crates/aelf-crypto/src/lib.rs: `normalize_private_key_hex`.
use aelf_web3_rust.Base.{
  ℕ, zero, suc, ◌+◌, ◌-◌, ◌*◌, ◌≤◌, ◌<◌, ◌≡◌, refl, sym, ap, ◌∙◌, [], ◌∷◌, ◌++◌, arith, ok, ◌>>=◌,
  ◌>>◌, guard, map_err, >>=-eq-ok, map_err-eq-ok, leb, ◌==◌, if◌then◌else◌, length, replicate, All,
  length-append, length-replicate, All-append, All-replicate, inl, inr, Bool-cases, ◌≢◌,
}
use aelf_web3_rust.Base.Text.{Text, Bytes, IsBytes, codes, len, strip_prefix, unwrap_or, pad_zeros}
use aelf_web3_rust.Base.Text.Ascii.{IsHexDigit, IsHexDigit-IsAscii, len_ascii}
use aelf_web3_rust.Crypto.Error.{CryptoResult, hex, invalid_private_key}
use aelf_web3_rust.Crypto.Crates.{Crates, HexLaws}

-- `strip_prefix("0x").unwrap_or(..)`.
unfoldable pub strip_0x : Text → Text
unfolding strip_prefix
strip_0x t = unwrap_or (strip_prefix (codes "0x") t) t

-- At least 64 bytes: unchanged; otherwise zeros up to 64 characters.
unfoldable pub pad_64 : Text → Text
unfolding pad_zeros
pad_64 trimmed = if leb 64 (len trimmed) then trimmed else pad_zeros 64 trimmed

-- `try_into()` to `[u8; 32]`.
unfoldable pub to_array_32 : Bytes → CryptoResult Bytes
to_array_32 bytes = do guard (length bytes == 32) invalid_private_key; ok bytes

module _ (crates : Crates) where
  open crates use {hex_decode, hex_encode}

  unfoldable pub normalize_private_key_hex : Text → CryptoResult Bytes
  unfolding to_array_32
  normalize_private_key_hex private_key_hex = do
    let normalized = pad_64 (strip_0x private_key_hex)
    bytes ← map_err hex (hex_decode normalized)
    to_array_32 bytes

to_array_32-eq-ok : (b c : Bytes) → to_array_32 b ≡ ok c → (b ≡ c) × (length b ≡ 32)
unfolding to_array_32
to_array_32-eq-ok b c h = ground arith

-- Hex digits hold no `x`, so the prefix is never taken from them.
pub strip_0x_digits : (t : Text) → All IsHexDigit t → strip_0x t ≡ t
unfolding strip_0x
strip_0x_digits [] h = refl
strip_0x_digits (a ∷ []) h = ground arith
strip_0x_digits (a ∷ b ∷ t) h = ground arith

pub strip_0x_prefixed : (t : Text) → strip_0x (codes "0x" ++ t) ≡ t
unfolding strip_0x
strip_0x_prefixed t = refl

abbrev pub zeros : ℕ → Text
zeros n = replicate n b'0'

zeros-append : (m n : ℕ) (t : Text) → zeros m ++ (zeros n ++ t) ≡ zeros (m + n) ++ t
zeros-append zero n t = ap (λ (k : ℕ). zeros k ++ t) (omega arith)
zeros-append (suc m) n t =
    let e : suc m + n ≡ suc (m + n) = omega arith in
    rw e (ap (λ (u : Text). b'0' ∷ u) (zeros-append m n t))

zero_digit : IsHexDigit b'0'
zero_digit = inl (omega arith)

length-zeros : (n : ℕ) (t : Text) → length (zeros n ++ t) ≡ n + length t
length-zeros n t = omega (arith, length-append (zeros n) t, length-replicate {A = ℕ} n b'0')

zeros_digits : (n : ℕ) (t : Text) → All IsHexDigit t → All IsHexDigit (zeros n ++ t)
zeros_digits n t h =
    All-append IsHexDigit (zeros n) t (All-replicate IsHexDigit n b'0' zero_digit) h

len_digits : (t : Text) → All IsHexDigit t → len t ≡ length t
len_digits t h = len_ascii t (IsHexDigit-IsAscii t h)

pad_64_digits :
    (t : Text) → All IsHexDigit t → length t ≤ 64 → pad_64 t ≡ zeros (64 - length t) ++ t
unfolding pad_64
pad_64_digits t h fits = elim (Bool-cases (leb 64 (len t))) [
  | inl e ↦
      rw e (let none_left : 64 - length t ≡ 0 = ground (arith, len_digits t h) in rw none_left)
  | inr e ↦ rw e
]

pad_64_full : (t : Text) → 64 ≤ len t → pad_64 t ≡ t
unfolding pad_64
pad_64_full t h = ground arith

pad_64-zeros :
    (n : ℕ) (t : Text) → All IsHexDigit t → n + length t ≤ 64 → pad_64 (zeros n ++ t) ≡ pad_64 t
pad_64-zeros n t h fits =
    pad_64_digits (zeros n ++ t) (zeros_digits n t h) (omega (arith, length-zeros n t))
    ∙ zeros-append (64 - length (zeros n ++ t)) n t
    ∙ ap (λ (k : ℕ). zeros k ++ t) (omega (arith, length-zeros n t))
    ∙ sym (pad_64_digits t h (omega arith))

module _ (crates : Crates) where
  open crates use {hex_decode, hex_encode}

  -- Whatever is accepted has 32 bytes.
  pub normalize_private_key_hex-length :
      (t : Text) (b : Bytes) → normalize_private_key_hex crates t ≡ ok b → length b ≡ 32
  unfolding normalize_private_key_hex
  normalize_private_key_hex-length t b h =
      let (c, _, sized) =
        >>=-eq-ok (map_err hex (hex_decode (pad_64 (strip_0x t)))) to_array_32 h in
      let (same, n) = to_array_32-eq-ok c b sized in rw same at n

  -- For hexadecimal digits with zeros before them, 64 digits at most in all, the zeros make no
  -- difference to the result, and neither do the zeros behind a prefix 0x.
  pub normalize_private_key_hex-zeros :
      (n : ℕ) (t : Text)
      → All IsHexDigit t
      → n + length t ≤ 64
      → (normalize_private_key_hex crates (zeros n ++ t) ≡ normalize_private_key_hex crates t)
        × (normalize_private_key_hex crates (codes "0x" ++ (zeros n ++ t))
            ≡ normalize_private_key_hex crates t)
  unfolding normalize_private_key_hex
  normalize_private_key_hex-zeros n t h fits = (
    rw (
      strip_0x_digits (zeros n ++ t) (zeros_digits n t h),
      strip_0x_digits t h,
      pad_64-zeros n t h fits,
    ),
    rw (strip_0x_prefixed (zeros n ++ t), strip_0x_digits t h, pad_64-zeros n t h fits),
  )

  -- With the documented behaviour of hex, the text of 32 bytes is normalized to those bytes, with 0x
  -- before it or not.
  pub normalize_private_key_hex-hex_encode :
      HexLaws crates
      → (b : Bytes) → IsBytes b
      → length b ≡ 32
      → (normalize_private_key_hex crates (hex_encode b) ≡ ok b)
        × (normalize_private_key_hex crates (codes "0x" ++ hex_encode b) ≡ ok b)
  unfolding normalize_private_key_hex to_array_32
  normalize_private_key_hex-hex_encode laws b bytes size =
      let digits = laws.encode_digits b bytes in
      let back = laws.decode_encode b bytes in
      let full : pad_64 (hex_encode b) ≡ hex_encode b =
        pad_64_full _ (omega (arith, laws.decode_length _ b back)) in
      (
        rw (strip_0x_digits _ digits, full, back) (ground arith),
        rw (strip_0x_prefixed (hex_encode b), full, back) (ground arith),
      )

  -- With the documented behaviour of hex, a text that is longer than 64 bytes after its prefix 0x, if
  -- it has one, is not accepted.
  pub normalize_private_key_hex_long :
      HexLaws crates
      → (t : Text) → 64 < len (strip_0x t)
      → (b : Bytes) → normalize_private_key_hex crates t ≢ ok b
  unfolding normalize_private_key_hex
  normalize_private_key_hex_long laws t long b h =
      let (c, decoded, sized) =
        >>=-eq-ok (map_err hex (hex_decode (pad_64 (strip_0x t)))) to_array_32 h in
      let whole : hex_decode (pad_64 (strip_0x t)) ≡ ok c = map_err-eq-ok hex _ decoded in
      let kept : pad_64 (strip_0x t) ≡ strip_0x t = pad_64_full (strip_0x t) (omega arith) in
      let e : len (strip_0x t) ≡ 2 * length c = sym (ap len kept) ∙ laws.decode_length _ c whole in
      absurd (omega (arith, e, (to_array_32-eq-ok c b sized).1))
