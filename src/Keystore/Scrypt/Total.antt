-- ===== src/Keystore/Scrypt/Total.antt =====
-- What `CompatScryptParams::new` accepts, and `compat_scrypt` on accepted parameters: scrypt of RFC 7914, or a
-- panic where a buffer is too large.
use aelf_web3_rust.Base.{
  ℕ, flatten, zero, suc, ◌+◌, ◌*◌, ◌/◌, ◌^◌, ◌≤◌, ◌<◌, ◌≡◌, ◌≢◌, ◌↔◌, refl, sym, ap, subst, ◌∙◌,
  List, [], ◌∷◌, map, arith, true, false, ltb, ltb→lt, Bool-cases, inl, inr, ok, panic, length,
  replicate, All, length-replicate,
}
use aelf_web3_rust.Base.Text.{Bytes}
use aelf_web3_rust.Base.Word.{is_power_of_two}
use aelf_web3_rust.Keystore.Crates.{KeystoreCrates, KdfLaws}
use aelf_web3_rust.Keystore.Scrypt.{
  CompatScryptParams, new_params, chunks, mix_lanes, compat_scrypt,
}
use aelf_web3_rust.Keystore.Scrypt.Blocks.{HasLength, chunks-Cut}
use aelf_web3_rust.Keystore.Scrypt.RoMix.{IsCost, ro_mix, compat_scrypt_ro_mix_lem}

-- Parameters of scrypt whose sizes fit a `usize`: every product and the sum of the two buffers stay below 2 ^ 64.
pub record IsSafe (n r p dklen : ℕ) : Type 0 where
  pub cost : is_power_of_two n ≡ true
  pub n_pos : 0 < n
  pub r_pos : 0 < r
  pub p_pos : 0 < p
  pub dklen_pos : 0 < dklen
  pub output_fits : dklen / 32 ≤ 0xffff_ffff
  pub buffers_fit : p * (r * 128) + n * (r * 128) < 2 ^ 64

-- Each of the two large buffers has `isize::MAX` bytes at most.
abbrev pub FitsMemory : ℕ → ℕ → ℕ → Type 0
FitsMemory n r p = (p * (r * 128) < 2 ^ 63) × (n * (r * 128) < 2 ^ 63)

le-mul_pos : (p x : ℕ) → 0 < p → x ≤ p * x
le-mul_pos zero x h = absurd (omega arith)
le-mul_pos (suc p) x h = omega arith

fits_r : (n r p dklen : ℕ) → IsSafe n r p dklen → r * 128 < 2 ^ 64
fits_r n r p dklen s = omega (arith, le-mul_pos p (r * 128) s.p_pos, s.buffers_fit)

accepted :
    (n r p dklen : ℕ) (q : CompatScryptParams)
    → new_params n r p dklen ≡ ok q
    → IsSafe n r p dklen × (record { n = n; r = r; p = p; dklen = dklen } ≡ q)
unfolding new_params
accepted n r p dklen q h = (ground arith, ground arith)

accepts :
    (n r p dklen : ℕ)
    → IsSafe n r p dklen
    → new_params n r p dklen ≡ ok (record { n = n; r = r; p = p; dklen = dklen })
unfolding new_params
accepts n r p dklen s = ground (arith, s.cost, le-mul_pos p (r * 128) s.p_pos)

-- `new` accepts exactly the parameters that are positive, with a power of two as the cost, an output of
-- at most 2^32 - 1 blocks and buffers that together stay below 2^64 bytes, and keeps them as they are.
pub new_params_iff :
    (n r p dklen : ℕ) (q : CompatScryptParams)
    → (new_params n r p dklen ≡ ok q)
      ↔ (IsSafe n r p dklen × (record { n = n; r = r; p = p; dklen = dklen } ≡ q))
new_params_iff n r p dklen q = (
  accepted n r p dklen q,
  λ (s, e). subst (λ c. new_params n r p dklen ≡ ok c) e (accepts n r p dklen s),
)

module _ (crates : KeystoreCrates) (laws : KdfLaws crates) where
  open crates use {pbkdf2_hmac}

  mix_lanes_lem :
      (r n : ℕ) (lanes : List Bytes) (v t : Bytes)
      → 0 < r
      → IsCost n
      → All (HasLength (128 * r)) lanes
      → (length v ≡ n * (128 * r)) × (length t ≡ 128 * r)
      → mix_lanes crates lanes v t n ≡ ok (map (ro_mix crates n) lanes)
  unfolding mix_lanes
  mix_lanes_lem r n [] v t pr pn hs sizes = refl
  mix_lanes_lem r n (lane ∷ lanes) v t pr pn (hl, hs) (hv, ht) =
      let (v', t', done, hv', ht', _) =
        compat_scrypt_ro_mix_lem crates laws r pr n lane v t pn (hl, hv, ht) in
      rw (done, mix_lanes_lem r n lanes v' t' pr pn hs (hv', ht'))

  -- scrypt of RFC 7914 over the crate's PBKDF2: the lanes of the first PBKDF2, each through scryptROMix, are the salt
  -- of the second.
  abbrev pub scrypt_rfc7914 : Bytes → Bytes → CompatScryptParams → Bytes
  scrypt_rfc7914 password salt q =
      pbkdf2_hmac password
        (flatten (
          map (ro_mix crates q.n)
            (chunks (q.r * 128) (pbkdf2_hmac password salt 1 (q.p * (q.r * 128))))))
        1 q.dklen

  safe_scrypt :
      (password salt : Bytes) (n r p dklen : ℕ)
      → IsSafe n r p dklen
      → IsCost n
      → FitsMemory n r p
      → compat_scrypt crates password salt (record { n = n; r = r; p = p; dklen = dklen })
        ≡ ok (scrypt_rfc7914 password salt (record { n = n; r = r; p = p; dklen = dklen }))
  unfolding compat_scrypt
  safe_scrypt password salt n r p dklen s cost (lanes_fit, store_fits) =
      let b = pbkdf2_hmac password salt 1 (p * (r * 128)) in
      let nb = laws.pbkdf2_length password salt 1 (p * (r * 128)) in
      let r_pos = s.r_pos in
      let cut = chunks-Cut (r * 128) p b (omega arith) nb in
      let sized : All (HasLength (128 * r)) (chunks (r * 128) b) =
        let e : 128 * r ≡ r * 128 = omega arith in rw e cut.sized in
      let lanes =
        mix_lanes_lem r n (chunks (r * 128) b) (replicate (n * (r * 128)) 0) (replicate (r * 128) 0)
          r_pos cost sized
          (
            length-replicate {A = ℕ} (n * (r * 128)) 0 ∙ omega arith,
            length-replicate {A = ℕ} (r * 128) 0 ∙ omega arith,
          ) in
      let small = le-mul_pos p (r * 128) s.p_pos in
      let output_fits = s.output_fits in
      let output : dklen < 2 ^ 63 = omega arith in ground (arith, lanes)

  -- A buffer that is too large panics.
  large_scrypt :
      (password salt : Bytes) (n r p dklen : ℕ)
      → IsSafe n r p dklen
      → ¬ FitsMemory n r p
      → compat_scrypt crates password salt (record { n = n; r = r; p = p; dklen = dklen }) ≡ panic
  unfolding compat_scrypt
  large_scrypt password salt n r p dklen s large =
      let small = fits_r n r p dklen s in
      let small_p : p * (r * 128) < 2 ^ 64 = omega (arith, s.buffers_fit) in
      let small_n : n * (r * 128) < 2 ^ 64 = omega (arith, s.buffers_fit) in
      elim (Bool-cases (ltb (p * (r * 128)) (2 ^ 63))) [
        | inr e ↦ ground arith
        | inl e ↦
            let past : ltb (n * (r * 128)) (2 ^ 63) ≡ false =
              elim (Bool-cases (ltb (n * (r * 128)) (2 ^ 63))) [
                | inr e' ↦ e'
                | inl e' ↦ absurd (large (ltb→lt _ _ e, ltb→lt _ _ e'))
              ] in
            ground arith
      ]

  -- With PBKDF2 and salsa20 of the right lengths, on parameters that `new` accepts and whose cost is a
  -- `u32`: where the two large buffers, of `p` and of `n` times 128 `r` bytes, each have `isize::MAX`
  -- bytes at most, the routine neither fails nor panics, its result is scrypt of RFC 7914 over the
  -- crate's PBKDF2, and it has `dklen` bytes; where one of them is larger, the routine panics.
  pub compat_scrypt_lem :
      (password salt : Bytes) (n r p dklen : ℕ) (q : CompatScryptParams)
      → n < 2 ^ 32
      → new_params n r p dklen ≡ ok q
      → (FitsMemory n r p
          → (compat_scrypt crates password salt q ≡ ok (scrypt_rfc7914 password salt q))
            × (length (scrypt_rfc7914 password salt q) ≡ dklen))
        × (¬ FitsMemory n r p → compat_scrypt crates password salt q ≡ panic)
  compat_scrypt_lem password salt n r p dklen q u32 h =
      let (s, e) = accepted n r p dklen q h in
      (
        λ fits. (
          subst (λ c. compat_scrypt crates password salt c ≡ ok (scrypt_rfc7914 password salt c)) e
              (safe_scrypt password salt n r p dklen s (s.cost, u32) fits),
          laws.pbkdf2_length password _ 1 q.dklen
              ∙ ap (λ (c : CompatScryptParams). c.dklen) (sym e),
        ),
        λ large.
            subst (λ c. compat_scrypt crates password salt c ≡ panic) e
              (large_scrypt password salt n r p dklen s large),
      )

pub new_params-ne-panic : (n r p dklen : ℕ) → new_params n r p dklen ≢ panic
unfolding new_params
new_params-ne-panic n r p dklen h = ground arith
