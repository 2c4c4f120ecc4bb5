-- ===== src/Crypto/Base58/RoundTrip.antt =====
-- base58check: decoding undoes encoding, and accepts nothing else.
use aelf_web3_rust.Base.{
  ◌-◌, ◌≡◌, sym, ◌∙◌, ap, ◌++◌, arith, ok, >>=-eq-ok, map_err, map_err-eq-ok, length, take, drop,
  length-append, length-take, take-append, drop-append, take-append-drop, All-append, All-left,
  All-take, list_eq_refl, list_eq→eq,
}
use aelf_web3_rust.Base.Text.{Text, Bytes, IsBytes}
use aelf_web3_rust.Crypto.Crates.{Crates, Bs58Laws, Sha256Laws}
use aelf_web3_rust.Crypto.Base58.{checksum, check_payload, base58check_encode, base58check_decode}

module _ (crates : Crates) where
  open crates use {bs58_encode, bs58_decode, sha256}

  module _ (sha : Sha256Laws crates) where
    length-checksum : (p : Bytes) → length (checksum crates p) ≡ 4
    length-checksum p =
        omega (arith, length-take 4 (sha256 (sha256 p)), sha.digest_length (sha256 p))

    pub checksum-IsBytes : (p : Bytes) → IsBytes (checksum crates p)
    checksum-IsBytes p = All-take _ 4 (sha256 (sha256 p)) (sha.digest_bytes (sha256 p))

    check_payload-append : (p : Bytes) → check_payload crates (p ++ checksum crates p) ≡ ok p
    unfolding check_payload
    check_payload-append p = ground (
      arith,
      length-append p (checksum crates p),
      length-checksum p,
      take-append p (checksum crates p) (length (p ++ checksum crates p) - 4),
      drop-append p (checksum crates p) (length (p ++ checksum crates p) - 4),
      list_eq_refl (checksum crates p),
    )

    -- With the documented behaviour of bs58 and SHA-256, the base58check text of a byte string is
    -- decoded to that byte string.
    pub base58check_decode-base58check_encode :
        Bs58Laws crates
        → (p : Bytes) → IsBytes p
        → base58check_decode crates (base58check_encode crates p) ≡ ok p
    unfolding base58check_decode base58check_encode
    base58check_decode-base58check_encode bs58 p h =
        rw (bs58.decode_encode _ (All-append _ p _ h (checksum-IsBytes p))) (check_payload-append p)

  -- What passes the checks is a payload with its checksum behind it.
  check_payload-eq-ok : (b p : Bytes) → check_payload crates b ≡ ok p → b ≡ p ++ checksum crates p
  unfolding check_payload
  check_payload-eq-ok b p h = ground (
    arith,
    take-append-drop (length b - 4) b,
    list_eq→eq (drop (length b - 4) b) (checksum crates (take (length b - 4) b)),
  )

  -- With the documented behaviour of bs58, a text that is decoded is the base58check text of the
  -- payload it is decoded to, which is a byte string: no payload has two texts.
  pub base58check_encode-base58check_decode :
      Bs58Laws crates
      → (t : Text) (p : Bytes) → base58check_decode crates t ≡ ok p
      → (base58check_encode crates p ≡ t) × IsBytes p
  unfolding base58check_decode base58check_encode
  base58check_encode-base58check_decode bs58 t p h =
      let (b, decoded, checked) = >>=-eq-ok (map_err _ (bs58_decode t)) (check_payload crates) h in
      let whole : bs58_decode t ≡ ok b = map_err-eq-ok _ (bs58_decode t) decoded in
      let parts : b ≡ p ++ checksum crates p = check_payload-eq-ok b p checked in
      (
        ap bs58_encode (sym parts) ∙ bs58.encode_decode t b whole,
        All-left _ p (checksum crates p) (rw parts at (bs58.decode_bytes t b whole)),
      )
