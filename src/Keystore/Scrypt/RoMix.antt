-- ===== src/Keystore/Scrypt/RoMix.antt =====
-- `compat_scrypt_ro_mix` is scryptROMix of RFC 7914: every index is in range, nothing panics, and what `v` and
-- `t` held before makes no difference.
use Prim.Native.Nat.{bit_and}
use native.Mathlib.Nat.{one-le-pow, pow-le-pow_right, mod-lt}
use aelf_web3_rust.Base.Mask.{of_le_bytes-mask}
use aelf_web3_rust.Base.{
  ℕ, flatten, zero, suc, ◌+◌, ◌-◌, ◌*◌, ◌≤◌, ◌<◌, ◌≡◌, refl, sym, ap, ◌∙◌, List, [], ◌∷◌, ◌++◌,
  arith, ok, ◌%◌, ◌^◌, true, inl, inr, Bool-cases, leb, length, take, drop, All, length-append,
  take-append,
}
use aelf_web3_rust.Base.Text.{Bytes}
use aelf_web3_rust.Base.Word.{of_le_bytes, is_power_of_two, is_power_of_two→eq}
use aelf_web3_rust.Keystore.Crates.{KeystoreCrates, KdfLaws}
use aelf_web3_rust.Keystore.Scrypt.{
  chunks, slice, compat_integerify, fill_chunks, mix_rounds, compat_scrypt_ro_mix,
}
use aelf_web3_rust.Keystore.Scrypt.Blocks.{
  HasLength, xor_bytes, compat_xor-xor_bytes, length-xor_bytes, chunks-Cut,
}
use aelf_web3_rust.Keystore.Scrypt.BlockMix.{
  block_mix, compat_scrypt_block_mix_lem, length-block_mix,
}

-- Integerify of RFC 7914 modulo `n`: the last 64 bytes of a block, as a little-endian number.
abbrev pub integerify : Bytes → ℕ → ℕ
integerify x n = of_le_bytes (drop (length x - 64) x) % n

-- A cost: a power of two that a `u32` holds.
abbrev pub IsCost : ℕ → Type 0
IsCost n = (is_power_of_two n ≡ true) × (n < 2 ^ 32)

pub IsCost-pos : (n : ℕ) → IsCost n → 0 < n
IsCost-pos n (power, _) = let (k, e) = is_power_of_two→eq n power in omega (arith, one-le-pow k 2)

-- The power is at most 32.
exponent-le : (k : ℕ) → 2 ^ k < 2 ^ 32 → k ≤ 32
exponent-le k h = elim (Bool-cases (leb k 32)) [
  | inl e ↦ ground arith
  | inr e ↦
      let gt : 32 ≤ k = ground arith in
      let more : 2 ^ 32 ≤ 2 ^ k = pow-le-pow_right {n = 2} (omega arith) gt in absurd (omega arith)
]

integerify-lt : (x : Bytes) (n : ℕ) → IsCost n → integerify x n < n
integerify-lt x n cost = mod-lt (of_le_bytes (drop (length x - 64) x)) (IsCost-pos n cost)

masked_word :
    (x : Bytes) (n : ℕ)
    → 64 ≤ length x
    → compat_integerify x n ≡ ok (bit_and (of_le_bytes (take 4 (drop (length x - 64) x))) (n - 1))
unfolding compat_integerify
masked_word x n h =
    let four : length x - 60 - (length x - 64) ≡ 4 = omega arith in rw (← four) (ground arith)

-- Four bytes and a mask are enough for the remainder by a cost.
compat_integerify_lem :
    (x : Bytes) (n : ℕ) → IsCost n → 64 ≤ length x → compat_integerify x n ≡ ok (integerify x n)
compat_integerify_lem x n (power, small) h =
    let (k, e) = is_power_of_two→eq n power in
    let masked = of_le_bytes-mask (drop (length x - 64) x) k (exponent-le k (rw e at small)) in
    masked_word x n h ∙ ap ok (rw e masked)

-- The chunk at an index.
abbrev pub nth : List Bytes → ℕ → Bytes
nth [] i = []
nth (x ∷ xs) zero = x
nth (x ∷ xs) (suc i) = nth xs i

length-flatten :
    (n : ℕ) (vs : List Bytes) → All (HasLength n) vs → length (flatten vs) ≡ length vs * n
unfolding flatten
length-flatten n [] h = omega arith
length-flatten n (v ∷ vs) (hv, h) =
    omega (arith, length-append v (flatten vs), length-flatten n vs h)

nth-HasLength :
    (n : ℕ) (vs : List Bytes) (i : ℕ) → All (HasLength n) vs → i < length vs → length (nth vs i) ≡ n
nth-HasLength n [] i h lt = absurd (omega arith)
nth-HasLength n (v ∷ vs) zero (hv, h) lt = hv
nth-HasLength n (v ∷ vs) (suc i) (hv, h) lt = nth-HasLength n vs i h (omega arith)

drop_past : (v xs : Bytes) (n m : ℕ) → length v ≡ n → drop (n + m) (v ++ xs) ≡ drop m xs
drop_past [] xs zero m e = ap (λ (k : ℕ). drop k xs) (omega arith)
drop_past [] xs (suc n) m e = absurd (omega arith)
drop_past (x ∷ v) xs zero m e = absurd (omega arith)
drop_past (x ∷ v) xs (suc n) m e =
    let step : suc n + m ≡ suc (n + m) = omega arith in rw step (drop_past v xs n m (omega arith))

take_first : (v xs : Bytes) (n : ℕ) → length v ≡ n → take n (v ++ xs) ≡ v
take_first v xs n e = take-append v xs n (sym e)

chunk_at :
    (n : ℕ) (vs : List Bytes) (i : ℕ)
    → All (HasLength n) vs
    → i < length vs
    → take n (drop (i * n) (flatten vs)) ≡ nth vs i
unfolding flatten
chunk_at n [] i h lt = absurd (omega arith)
chunk_at n (v ∷ vs) zero (hv, h) lt =
    let none : zero * n ≡ 0 = omega arith in rw none (take_first v (flatten vs) n hv)
chunk_at n (v ∷ vs) (suc i) (hv, h) lt =
    let past : suc i * n ≡ n + i * n = omega arith in
    rw (past, drop_past v (flatten vs) n (i * n) hv) (chunk_at n vs i h (omega arith))

-- The slice for an index is the chunk.
slice-flatten :
    (n : ℕ) (vs : List Bytes) (i : ℕ)
    → All (HasLength n) vs
    → i < length vs
    → slice (flatten vs) (i * n) ((i + 1) * n) ≡ ok (nth vs i)
unfolding slice
slice-flatten n vs i h lt =
    let width : (i + 1) * n - i * n ≡ n = omega arith in
    let up : i * n ≤ (i + 1) * n = omega arith in
    let end : (i + 1) * n ≤ length (flatten vs) = grind (arith, length-flatten n vs h) in
    rw width (ground (arith, chunk_at n vs i h lt))

module _ (crates : KeystoreCrates) where
  -- The blocks that the first loop stores, and the block after them.
  abbrev pub stored : ℕ → Bytes → List Bytes
  stored zero b = []
  stored (suc k) b = b ∷ stored k (block_mix crates b)

  abbrev pub mixed : ℕ → Bytes → Bytes
  mixed zero b = b
  mixed (suc k) b = mixed k (block_mix crates b)

  -- The rounds of the second loop over the stored blocks.
  abbrev pub rounds_mix : ℕ → ℕ → List Bytes → Bytes → Bytes
  rounds_mix zero n vs b = b
  rounds_mix (suc k) n vs b =
      rounds_mix k n vs (block_mix crates (xor_bytes b (nth vs (integerify b n))))

  -- scryptROMix of a block, with cost `n`.
  unfoldable pub ro_mix : ℕ → Bytes → Bytes
  ro_mix n b = rounds_mix n n (stored n b) (mixed n b)

  length-stored : (k : ℕ) (b : Bytes) → length (stored k b) ≡ k
  length-stored zero b = refl
  length-stored (suc k) b = ap suc (length-stored k (block_mix crates b))

  module _ (laws : KdfLaws crates) (r : ℕ) (pr : 0 < r) where
    stored-HasLength :
        (k : ℕ) (b : Bytes) → length b ≡ 128 * r → All (HasLength (128 * r)) (stored k b)
    stored-HasLength zero b h = tt
    stored-HasLength (suc k) b h =
        (h, stored-HasLength k (block_mix crates b) (length-block_mix crates laws r b h))

    length-mixed : (k : ℕ) (b : Bytes) → length b ≡ 128 * r → length (mixed k b) ≡ 128 * r
    length-mixed zero b h = h
    length-mixed (suc k) b h =
        length-mixed k (block_mix crates b) (length-block_mix crates laws r b h)

    fill_chunks_lem :
        (k : ℕ) (cs : List Bytes) (b : Bytes)
        → length cs ≡ k
        → All (HasLength (128 * r)) cs
        → length b ≡ 128 * r
        → fill_chunks crates cs b ≡ ok (stored k b, mixed k b)
    unfolding fill_chunks
    fill_chunks_lem zero [] b n hs hb = refl
    fill_chunks_lem zero (c ∷ cs) b n hs hb = absurd (omega arith)
    fill_chunks_lem (suc k) [] b n hs hb = absurd (omega arith)
    fill_chunks_lem (suc k) (c ∷ cs) b n (hc, hs) hb = ground (
      arith,
      compat_scrypt_block_mix_lem crates laws r b b pr hb hb,
      fill_chunks_lem k cs (block_mix crates b) (omega arith) hs
          (length-block_mix crates laws r b hb),
    )

    stored_slice :
        (vs : List Bytes) (b : Bytes) (j : ℕ)
        → All (HasLength (128 * r)) vs
        → length b ≡ 128 * r
        → j < length vs
        → slice (flatten vs) (j * length b) ((j + 1) * length b) ≡ ok (nth vs j)
    stored_slice vs b j hs hb lt = rw hb (slice-flatten (128 * r) vs j hs lt)

    mix_round :
        (k n : ℕ) (vs : List Bytes) (b t : Bytes)
        → IsCost n × (length vs ≡ n)
        → All (HasLength (128 * r)) vs
        → (length b ≡ 128 * r) × (length t ≡ 128 * r)
        → (mix_rounds crates (suc k) n (flatten vs) b t
            ≡ mix_rounds crates k n
                (flatten vs)
                (block_mix crates (xor_bytes b (nth vs (integerify b n))))
                (xor_bytes b (nth vs (integerify b n))))
          × (length (xor_bytes b (nth vs (integerify b n))) ≡ 128 * r)
    unfolding mix_rounds
    mix_round k n vs b t (pn, hn) hs (hb, ht) =
        let j = integerify b n in
        let lt : j < length vs = omega (arith, integerify-lt b n pn) in
        let found = stored_slice vs b j hs hb lt in
        let sized = nth-HasLength (128 * r) vs j hs lt in
        let xored = compat_xor-xor_bytes b (nth vs j) t (omega arith) (omega arith) in
        let wide = length-xor_bytes b (nth vs j) (omega arith) ∙ hb in
        let blended =
          compat_scrypt_block_mix_lem crates laws r (xor_bytes b (nth vs j)) b pr wide hb in
        (rw (compat_integerify_lem b n pn (omega arith), found, xored, blended), wide)

    mix_rounds_lem :
        (k n : ℕ) (vs : List Bytes) (b t : Bytes)
        → IsCost n × (length vs ≡ n)
        → All (HasLength (128 * r)) vs
        → (length b ≡ 128 * r) × (length t ≡ 128 * r)
        → (t' : Bytes) × (mix_rounds crates k n (flatten vs) b t ≡ ok (rounds_mix k n vs b, t'))
          × (length t' ≡ 128 * r)
    mix_rounds_lem zero n vs b t hn hs (hb, ht) = (t, unfold mix_rounds in refl, ht)
    mix_rounds_lem (suc k) n vs b t hn hs hb =
        let (step, wide) = mix_round k n vs b t hn hs hb in
        let (t', rest, ht') =
          mix_rounds_lem k n vs (block_mix crates (xor_bytes b (nth vs (integerify b n))))
            (xor_bytes b (nth vs (integerify b n))) hn hs
            (length-block_mix crates laws r _ wide, wide) in
        (t', step ∙ rest, ht')

    length-rounds_mix :
        (k n : ℕ) (vs : List Bytes) (b : Bytes)
        → IsCost n × (length vs ≡ n)
        → All (HasLength (128 * r)) vs
        → length b ≡ 128 * r
        → length (rounds_mix k n vs b) ≡ 128 * r
    length-rounds_mix zero n vs b hn hs hb = hb
    length-rounds_mix (suc k) n vs b (pn, hn) hs hb =
        let j = integerify b n in
        let sized = nth-HasLength (128 * r) vs j hs (omega (arith, integerify-lt b n pn)) in
        let wide = length-xor_bytes b (nth vs j) (omega arith) ∙ hb in
        length-rounds_mix k n vs (block_mix crates (xor_bytes b (nth vs j))) (pn, hn) hs
          (length-block_mix crates laws r _ wide)

    -- With salsa20 blocks of 64 bytes, for a positive `r` and a cost `n` that is a power of two and a
    -- `u32`, a block and a buffer of `r` times 128 bytes and a store of `n` such blocks: the routine
    -- does not panic, the block after the call is scryptROMix of the block before it, whose Integerify
    -- is the last 64 bytes of a block as a little-endian number modulo `n`, and all three keep their
    -- sizes.
    pub compat_scrypt_ro_mix_lem :
        (n : ℕ) (b v t : Bytes)
        → IsCost n
        → (length b ≡ 128 * r) × (length v ≡ n * (128 * r)) × (length t ≡ 128 * r)
        → (v' t' : Bytes) × (compat_scrypt_ro_mix crates b v t n ≡ ok (ro_mix n b, v', t'))
          × (length v' ≡ n * (128 * r))
          × (length t' ≡ 128 * r)
          × (length (ro_mix n b) ≡ 128 * r)
    unfolding compat_scrypt_ro_mix ro_mix
    compat_scrypt_ro_mix_lem n b v t pn (hb, hv, ht) =
        let cut = chunks-Cut (128 * r) n v (omega arith) hv in
        let filled : fill_chunks crates (chunks (length b) v) b ≡ ok (stored n b, mixed n b) =
          rw hb (fill_chunks_lem n (chunks (128 * r) v) b cut.count cut.sized hb) in
        let kept = stored-HasLength n b hb in
        let (t', done, ht') =
          mix_rounds_lem n n (stored n b) (mixed n b) t (pn, length-stored n b) kept
            (length-mixed n b hb, ht) in
        (
          flatten (stored n b),
          t',
          ground (arith, filled, done),
          length-flatten (128 * r) (stored n b) kept
              ∙ ap (λ (k : ℕ). k * (128 * r)) (length-stored n b),
          ht',
          length-rounds_mix n n (stored n b) (mixed n b) (pn, length-stored n b) kept
              (length-mixed n b hb),
        )
