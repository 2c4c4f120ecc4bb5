-- ===== src/Keystore/Scrypt/BlockMix.antt =====
-- `compat_scrypt_block_mix` is scryptBlockMix of RFC 7914: the blocks of a chain over the input's chunks, those
-- of even index first. What the output held before makes no difference.
use aelf_web3_rust.Base.{
  ℕ, flatten, zero, suc, ◌+◌, ◌-◌, ◌*◌, ◌/◌, ◌<◌, ◌≡◌, refl, sym, ap, ◌∙◌, List, [], ◌∷◌, ◌++◌,
  arith, true, ok, leb, append_assoc, length, take, drop, replicate, All, length-append,
  length-take, length-drop, take-append-drop,
}
use aelf_web3_rust.Base.Text.{Bytes}
use aelf_web3_rust.Keystore.Types.{KeystoreResult}
use aelf_web3_rust.Keystore.Crates.{KeystoreCrates, KdfLaws}
use aelf_web3_rust.Keystore.Scrypt.{
  chunks, copy_into, load_words, mix_chunks, block_pos, compat_scrypt_block_mix,
}
use aelf_web3_rust.Keystore.Scrypt.Blocks.{
  HasLength, xor_bytes, compat_xor-xor_bytes, length-xor_bytes, copy_into_middle, chunks-Cut,
}

abbrev pub evens : List Bytes → List Bytes
evens [] = []
evens (y ∷ []) = y ∷ []
evens (y ∷ z ∷ ys) = y ∷ evens ys

abbrev pub odds : List Bytes → List Bytes
odds [] = []
odds (y ∷ []) = []
odds (y ∷ z ∷ ys) = z ∷ odds ys

halves_length :
    (ys : List Bytes)
    → All (HasLength 64) ys
    → length (flatten (evens ys)) + length (flatten (odds ys)) ≡ 64 * length ys
unfolding flatten
halves_length [] h = refl
halves_length (y ∷ []) (hy, _) = omega (arith, length-append y [])
halves_length (y ∷ z ∷ ys) (hy, (hz, h)) = omega (
  arith,
  length-append y (flatten (evens ys)),
  length-append z (flatten (odds ys)),
  halves_length ys h,
)

regroup : (e y a o u : Bytes) → (e ++ (y ++ (a ++ o))) ++ u ≡ e ++ (y ++ (a ++ (o ++ u)))
regroup e y a o u = simp append_assoc

regroup_in :
    (e a o b : Bytes)
    → e ++ (a ++ (o ++ b)) ≡ e ++ (take 64 a ++ (drop 64 a ++ (o ++ (take 64 b ++ drop 64 b))))
regroup_in e a o b =
    rw (
      take-append-drop 64 b,
      ← append_assoc (take 64 a) (drop 64 a) (o ++ b),
      take-append-drop 64 a,
    )

regroup_out :
    (e y a o z b : Bytes) → e ++ (y ++ (a ++ (o ++ (z ++ b)))) ≡ (e ++ y) ++ (a ++ ((o ++ z) ++ b))
regroup_out e y a o z b = simp append_assoc

regroup_end :
    (e y f o z g : Bytes) → (e ++ y) ++ (f ++ ((o ++ z) ++ g)) ≡ e ++ ((y ++ f) ++ (o ++ (z ++ g)))
regroup_end e y f o z g = simp append_assoc

abbrev done : Bytes → KeystoreResult Bytes
done = ok

module _ (crates : KeystoreCrates) where
  open crates use {salsa_block}

  -- One block of the chain.
  abbrev pub next_block : Bytes → Bytes → Bytes
  next_block x chunk = salsa_block (load_words (replicate 16 0) (xor_bytes x chunk))

  abbrev pub chain : Bytes → List Bytes → List Bytes
  chain x [] = []
  chain x (chunk ∷ rest) = next_block x chunk ∷ chain (next_block x chunk) rest

  unfoldable pub block_mix : Bytes → Bytes
  block_mix b =
      let ys = chain (drop (length b - 64) b) (chunks 64 b) in
      flatten (evens ys) ++ flatten (odds ys)

  module _ (laws : KdfLaws crates) where
    mix_step :
        (half i : ℕ) (c : Bytes) (cs : List Bytes) (x t out out' : Bytes)
        → length x ≡ 64
        → length c ≡ 64
        → length t ≡ 64
        → copy_into out (block_pos crates half i) (next_block x c) ≡ ok out'
        → mix_chunks crates half i (c ∷ cs) x t out
          ≡ mix_chunks crates half (i + 1) cs (next_block x c) (xor_bytes x c) out'
    unfolding mix_chunks
    mix_step half i c cs x t out out' hx hc ht written =
        rw (compat_xor-xor_bytes x c t (omega arith) (omega arith), written)

    -- Two chunks: the first block goes to the next place of the first half, the second to that of the second half.
    mix_two :
        (half i j : ℕ) (c d : Bytes) (cs : List Bytes) (x t e a₁ a₂ o b₁ b₂ : Bytes)
        → i ≡ 2 * j
        → half ≡ length e + 64 + length a₂
        → (length e ≡ 64 * j) × (length o ≡ 64 * j)
        → (length c ≡ 64) × (length d ≡ 64) × (length x ≡ 64) × (length t ≡ 64)
        → (length a₁ ≡ 64) × (length b₁ ≡ 64)
        → mix_chunks crates half i (c ∷ d ∷ cs) x t (e ++ (a₁ ++ (a₂ ++ (o ++ (b₁ ++ b₂)))))
          ≡ mix_chunks crates half
              (i + 1 + 1)
              cs
              (next_block (next_block x c) d)
              (xor_bytes (next_block x c) d)
              (e ++ (next_block x c ++ (a₂ ++ (o ++ (next_block (next_block x c) d ++ b₂)))))
    mix_two half i j c d cs x t e a₁ a₂ o b₁ b₂ even half_is (he, ho) (hc, hd, hx, ht) (ha, hb) =
        let y = next_block x c in
        let z = next_block y d in
        let ny : length y ≡ 64 = laws.salsa_length _ in
        let nz : length z ≡ 64 = laws.salsa_length _ in
        let first : copy_into (e ++ (a₁ ++ (a₂ ++ (o ++ (b₁ ++ b₂))))) (block_pos crates half i) y
            ≡ ok (e ++ (y ++ (a₂ ++ (o ++ (b₁ ++ b₂))))) =
          copy_into_middle e a₁ _ y _ (ground arith) (omega arith) in
        let front = e ++ (y ++ (a₂ ++ o)) in
        let size : length front ≡ length e + (64 + (length a₂ + length o)) = omega (
          arith,
          length-append e (y ++ (a₂ ++ o)),
          length-append y (a₂ ++ o),
          length-append a₂ o,
        ) in
        let second : copy_into (front ++ (b₁ ++ b₂)) (block_pos crates half (i + 1)) z
            ≡ ok (front ++ (z ++ b₂)) =
          copy_into_middle front b₁ b₂ z _ (ground arith) (omega arith) in
        let second' : copy_into (e ++ (y ++ (a₂ ++ (o ++ (b₁ ++ b₂)))))
              (block_pos crates half (i + 1)) z
            ≡ ok (e ++ (y ++ (a₂ ++ (o ++ (z ++ b₂))))) =
          ap (λ (u : Bytes). copy_into u (block_pos crates half (i + 1)) z)
            (sym (regroup e y a₂ o (b₁ ++ b₂)))
          ∙ second
          ∙ ap done (regroup e y a₂ o (z ++ b₂)) in
        mix_step half i c (d ∷ cs) x t _ _ hx hc ht first
        ∙ mix_step half (i + 1) d cs y (xor_bytes x c) _ _ ny hd
            (length-xor_bytes x c (omega arith) ∙ hx) second'

    -- All the pairs of chunks that are left, `k` of them after `j`.
    mix_pairs :
        (k j half i : ℕ) (cs : List Bytes) (x t e a o b : Bytes)
        → i ≡ 2 * j
        → half ≡ 64 * (j + k)
        → (length e ≡ 64 * j) × (length o ≡ 64 * j) × (length a ≡ 64 * k) × (length b ≡ 64 * k)
        → (length cs ≡ 2 * k) × (length x ≡ 64) × (length t ≡ 64)
        → All (HasLength 64) cs
        → mix_chunks crates half i cs x t (e ++ (a ++ (o ++ b)))
          ≡ ok (e ++ (flatten (evens (chain x cs)) ++ (o ++ flatten (odds (chain x cs)))))
    unfolding flatten
    mix_pairs zero j half i [] x t e [] o [] even half_is sizes counts all =
        unfold mix_chunks in refl
    mix_pairs (suc k) j half i (c ∷ d ∷ cs) x t e a o b even half_is (he, ho, ha, hb) (n, hx, ht)
          (hc, (hd, all)) =
        let y = next_block x c in
        let z = next_block y d in
        let ny : length y ≡ 64 = laws.salsa_length _ in
        let nz : length z ≡ 64 = laws.salsa_length _ in
        ap (mix_chunks crates half i (c ∷ d ∷ cs) x t) (regroup_in e a o b)
        ∙ mix_two half i j c d cs x t e (take 64 a) (drop 64 a) o (take 64 b) (drop 64 b) even
            (omega (arith, length-drop 64 a)) (he, ho) (hc, hd, hx, ht)
            (omega (arith, length-take 64 a), omega (arith, length-take 64 b))
        ∙ ap (mix_chunks crates half (i + 1 + 1) cs z (xor_bytes y d))
            (regroup_out e y (drop 64 a) o z (drop 64 b))
        ∙ mix_pairs k (j + 1) half (i + 1 + 1) cs z (xor_bytes y d) (e ++ y) (drop 64 a) (o ++ z)
            (drop 64 b) (omega arith) (omega arith)
            (
              omega (arith, length-append e y),
              omega (arith, length-append o z),
              omega (arith, length-drop 64 a),
              omega (arith, length-drop 64 b),
            )
            (omega arith, nz, omega (arith, length-xor_bytes y d (omega arith))) all
        ∙ ap done (regroup_end e y (flatten (evens (chain z cs))) o z (flatten (odds (chain z cs))))
    mix_pairs k j half i cs x t e a o b even half_is (he, ho, ha, hb) (n, hx, ht) all =
        absurd (omega arith)

    -- With salsa20 blocks of 64 bytes, and an input and an output of `r` times 128 bytes for a positive
    -- `r`, the routine does not panic and writes scryptBlockMix of the input, whatever the output held.
    pub compat_scrypt_block_mix_lem :
        (r : ℕ) (input output : Bytes)
        → 0 < r
        → length input ≡ 128 * r
        → length output ≡ 128 * r
        → compat_scrypt_block_mix crates input output ≡ ok (block_mix input)
    unfolding compat_scrypt_block_mix block_mix
    compat_scrypt_block_mix_lem r input output pr hi ho =
        let cut = chunks-Cut 64 (2 * r) input (omega arith) (omega arith) in
        let long : leb 64 (length input) ≡ true = ground arith in
        let half : length input / 2 ≡ 64 * (0 + r) = omega arith in
        rw long (
          ap
            (mix_chunks crates (length input / 2) 0 (chunks 64 input)
              (drop (length input - 64) input) (replicate 64 0))
            (sym (take-append-drop (64 * r) output))
          ∙ mix_pairs r 0 (length input / 2) 0 (chunks 64 input) (drop (length input - 64) input)
              (replicate 64 0) [] (take (64 * r) output) [] (drop (64 * r) output) (omega arith)
              half
              (
                omega arith,
                omega arith,
                omega (arith, length-take (64 * r) output),
                omega (arith, length-drop (64 * r) output),
              )
              (cut.count, omega (arith, length-drop (length input - 64) input), refl) cut.sized)

    chain_sized : (x : Bytes) (cs : List Bytes) → All (HasLength 64) (chain x cs)
    chain_sized x [] = tt
    chain_sized x (c ∷ cs) = (laws.salsa_length _, chain_sized (next_block x c) cs)

    length-chain : (x : Bytes) (cs : List Bytes) → length (chain x cs) ≡ length cs
    length-chain x [] = refl
    length-chain x (c ∷ cs) = ap suc (length-chain (next_block x c) cs)

    pub length-block_mix : (r : ℕ) (b : Bytes) → length b ≡ 128 * r → length (block_mix b) ≡ 128 * r
    unfolding block_mix
    length-block_mix r b hb =
        let x = drop (length b - 64) b in
        let cs = chunks 64 b in
        omega (
          arith,
          length-append (flatten (evens (chain x cs))) (flatten (odds (chain x cs))),
          halves_length (chain x cs) (chain_sized x cs),
          length-chain x cs,
          (chunks-Cut 64 (2 * r) b (omega arith) (omega arith)).count,
        )
