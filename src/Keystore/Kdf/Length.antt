-- ===== src/Keystore/Kdf/Length.antt =====
-- A derived key has the length asked for, and its derivation does not panic where its buffers fit the memory.
use aelf_web3_rust.Base.{
  ℕ, ◌≡◌, ◌≢◌, sym, ◌∙◌, arith, Option-cases, inl, inr, ok, panic, >>=-eq-ok, ok-injective, length,
  ◌*◌, ◌^◌, ◌<◌, some, true, subst, ==_iff, bind-ne-panic,
}
use aelf_web3_rust.Base.Text.{Text, Bytes, as_bytes}
use aelf_web3_rust.Base.Word.{ilog2, is_power_of_two}
use aelf_web3_rust.Keystore.Crates.{KeystoreCrates, KdfLaws}
use aelf_web3_rust.Keystore.Scrypt.{zeroed, new_params}
use aelf_web3_rust.Keystore.Scrypt.Total.{FitsMemory, compat_scrypt_lem, new_params-ne-panic}
use aelf_web3_rust.Keystore.Kdf.{derive_key_compat, derive_key}

-- Parameters that a keystore can hold, whose buffers fit the memory.
abbrev pub Derivable : ℕ → ℕ → ℕ → ℕ → Type 0
Derivable n r p dklen = (n < 2 ^ 32) × FitsMemory n r p × (dklen < 2 ^ 63)

module _ (crates : KeystoreCrates) (laws : KdfLaws crates) where
  open crates use {ScryptParams, scrypt_params, scrypt}

  length-derive_key_compat :
      (password : Text) (salt : Bytes) (n r p dklen : ℕ) (key : Bytes)
      → Derivable n r p dklen
      → derive_key_compat crates password salt n r p dklen ≡ ok key
      → length key ≡ dklen
  unfolding derive_key_compat
  length-derive_key_compat password salt n r p dklen key (u32, fits, _) h =
      let (q, made, run) = >>=-eq-ok (new_params n r p dklen) _ h in
      let (right, size) =
        (compat_scrypt_lem crates laws (as_bytes password) salt n r p dklen q u32 made).0 fits in
      rw (ok-injective (sym right ∙ run)) at size

  derive_key_compat-ne-panic :
      (password : Text) (salt : Bytes) (n r p dklen : ℕ)
      → Derivable n r p dklen
      → derive_key_compat crates password salt n r p dklen ≢ panic
  unfolding derive_key_compat
  derive_key_compat-ne-panic password salt n r p dklen (u32, fits, _) =
      bind-ne-panic (new_params n r p dklen) _ (new_params-ne-panic n r p dklen) λ q made h.
        let (right, _) =
          (compat_scrypt_lem crates laws (as_bytes password) salt n r p dklen q u32 made).0 fits in
        cc

  -- With PBKDF2, salsa20 and the crate's scrypt of the right lengths, for a cost that is a `u32` and
  -- buffers of `isize::MAX` bytes at most, a derived key has `dklen` bytes, whichever scrypt made it.
  pub length-derive_key :
      (password : Text) (salt : Bytes) (n r p dklen : ℕ) (key : Bytes)
      → Derivable n r p dklen
      → derive_key crates password salt n r p dklen ≡ ok key
      → length key ≡ dklen
  unfolding derive_key zeroed
  length-derive_key password salt n r p dklen key fits h =
      elim (Option-cases (scrypt_params (ilog2 n) r p dklen)) [
        | inl e ↦ length-derive_key_compat password salt n r p dklen key fits (ground arith)
        | inr (q, e) ↦ laws.scrypt_length (as_bytes password) salt q dklen key (ground arith)
      ]

  crate_scrypt-ne-panic :
      (password : Text) (salt : Bytes) (n r p dklen : ℕ) (q : ScryptParams)
      → Derivable n r p dklen
      → is_power_of_two n ≡ true
      → scrypt_params (ilog2 n) r p dklen ≡ some q
      → scrypt (as_bytes password) salt q dklen ≢ panic
  unfolding is_power_of_two
  crate_scrypt-ne-panic password salt n r p dklen q (_, (lanes, store), _) power e =
      let cost : n ≡ 2 ^ ilog2 n = (==_iff n (2 ^ ilog2 n)).0 power in
      laws.scrypt_allocates (as_bytes password) salt (ilog2 n) r p dklen q e lanes
        (subst (λ (m : ℕ). m * (r * 128) < 2 ^ 63) cost store)

  pub derive_key-ne-panic :
      (password : Text) (salt : Bytes) (n r p dklen : ℕ)
      → Derivable n r p dklen
      → derive_key crates password salt n r p dklen ≢ panic
  unfolding derive_key zeroed
  derive_key-ne-panic password salt n r p dklen fits h =
      elim (Option-cases (scrypt_params (ilog2 n) r p dklen)) [
        | inl e ↦ ground (arith, derive_key_compat-ne-panic password salt n r p dklen fits)
        | inr (q, e) ↦ ground (arith, crate_scrypt-ne-panic password salt n r p dklen q fits)
      ]
