-- ===== src/Keystore/Scrypt.antt =====
-- crates/aelf-keystore/src/lib.rs: `CompatScryptParams` and `compat_scrypt` with its helpers. A `&mut` slice
-- is taken and returned; an index out of range, and `copy_from_slice` of another length, panic.
pub mod Blocks
pub mod BlockMix
pub mod RoMix
pub mod Total
use Prim.Native.Nat.{bit_and, bit_xor}
use aelf_web3_rust.Base.{
  ℕ, flatten, zero, suc, ◌+◌, ◌-◌, ◌*◌, ◌/◌, ◌%◌, ◌^◌, List, [], ◌∷◌, ◌++◌, Bool, not, ◌&&◌, ◌||◌,
  Result, ok, err, panic, ◌>>=◌, ◌>>◌, guard, ok_or, ltb, leb, ◌==◌, if◌then◌else◌, length, take,
  drop, replicate,
}
use aelf_web3_rust.Base.Text.{Bytes}
use aelf_web3_rust.Base.Word.{checked_mul, checked_add, is_power_of_two, of_le_bytes}
use aelf_web3_rust.Keystore.Types.{KeystoreResult, invalid_scrypt_params}
use aelf_web3_rust.Keystore.Crates.{KeystoreCrates}

-- `vec![0_u8; n]`: more than `isize::MAX` bytes are a capacity overflow, which panics.
unfoldable pub zeroed : ℕ → KeystoreResult Bytes
zeroed n = if ltb n (2 ^ 63) then ok (replicate n 0) else panic

-- `xs.chunks(n)` for a positive `n`: a chunk takes an element at least, so the length is fuel enough.
unfoldable pub chunks_fuel : ℕ → ℕ → Bytes → List Bytes
chunks_fuel zero n xs = []
chunks_fuel (suc f) n [] = []
chunks_fuel (suc f) n (x ∷ xs) = take n (x ∷ xs) ∷ chunks_fuel f n (drop n (x ∷ xs))

unfoldable pub chunks : ℕ → Bytes → List Bytes
unfolding chunks_fuel
chunks n xs = chunks_fuel (length xs) n xs

-- `out[pos..pos + xs.len()].copy_from_slice(xs)`.
unfoldable pub copy_into : Bytes → ℕ → Bytes → KeystoreResult Bytes
copy_into out pos xs =
    if leb (pos + length xs) (length out)
    then ok (take pos out ++ (xs ++ drop (pos + length xs) out))
    else panic

-- `&xs[from..to]`.
unfoldable pub slice : Bytes → ℕ → ℕ → KeystoreResult Bytes
slice xs from to =
    if leb from to && leb to (length xs) then ok (take (to - from) (drop from xs)) else panic

-- Stops at the shortest of the three.
unfoldable pub compat_xor : Bytes → Bytes → Bytes → Bytes
compat_xor (lhs ∷ x) (rhs ∷ y) (_ ∷ output) = bit_xor lhs rhs ∷ compat_xor x y output
compat_xor x y output = output

-- `t.chunks_exact(4).zip(state.iter_mut())`, each word from little-endian bytes.
unfoldable pub load_words : List ℕ → Bytes → List ℕ
unfolding of_le_bytes
load_words (word ∷ state) (a ∷ b ∷ c ∷ d ∷ t) =
    of_le_bytes (a ∷ b ∷ c ∷ d ∷ []) ∷ load_words state t
load_words state t = state

-- The mask is `n - 1`.
unfoldable pub compat_integerify : Bytes → ℕ → KeystoreResult ℕ
unfolding of_le_bytes slice
compat_integerify x n = do
  if leb 64 (length x) then ok tt else panic
  t ← slice x (length x - 64) (length x - 60)
  ok (bit_and (of_le_bytes t) (n - 1))

pub record CompatScryptParams : Type 0 where
  pub n : ℕ
  pub r : ℕ
  pub p : ℕ
  pub dklen : ℕ

unfoldable pub new_params : ℕ → ℕ → ℕ → ℕ → KeystoreResult CompatScryptParams
unfolding checked_mul checked_add
new_params n r p dklen = do
  guard (not (not (is_power_of_two n) || n == 0 || r == 0 || p == 0 || dklen == 0))
      invalid_scrypt_params
  guard (not (ltb 0xffff_ffff (dklen / 32))) invalid_scrypt_params
  r128 ← ok_or (checked_mul r 128) invalid_scrypt_params
  pr128 ← ok_or (checked_mul p r128) invalid_scrypt_params
  nr128 ← ok_or (checked_mul n r128) invalid_scrypt_params
  _ ← ok_or (checked_add pr128 nr128) invalid_scrypt_params
  ok (record { n = n; r = r; p = p; dklen = dklen })

module _ (crates : KeystoreCrates) where
  open crates use {salsa_block, pbkdf2_hmac}

  -- Where the block of chunk `i` goes.
  abbrev pub block_pos : ℕ → ℕ → ℕ
  block_pos half i = if i % 2 == 0 then i / 2 * 64 else i / 2 * 64 + half

  unfoldable pub mix_chunks : ℕ → ℕ → List Bytes → Bytes → Bytes → Bytes → KeystoreResult Bytes
  unfolding copy_into compat_xor load_words
  mix_chunks half i [] x t output = ok output
  mix_chunks half i (chunk ∷ rest) x t output = do
    let t' = compat_xor x chunk t
    let x' = salsa_block (load_words (replicate 16 0) t')
    output' ← copy_into output (block_pos half i) x'
    mix_chunks half (i + 1) rest x' t' output'

  unfoldable pub compat_scrypt_block_mix : Bytes → Bytes → KeystoreResult Bytes
  unfolding mix_chunks chunks
  compat_scrypt_block_mix input output = do
    if leb 64 (length input) then ok tt else panic
    mix_chunks (length input / 2) 0 (chunks 64 input) (drop (length input - 64) input)
        (replicate 64 0) output

  -- The first loop, over the chunks of `v`: each becomes the current `b`.
  unfoldable pub fill_chunks : List Bytes → Bytes → KeystoreResult (List Bytes × Bytes)
  fill_chunks [] b = ok ([], b)
  fill_chunks (chunk ∷ rest) b = do
    if length chunk == length b then ok tt else panic
    b' ← compat_scrypt_block_mix b b
    (rest', b'') ← fill_chunks rest b'
    ok (b ∷ rest', b'')

  -- The second loop, with the rounds that are left.
  unfoldable pub mix_rounds : ℕ → ℕ → Bytes → Bytes → Bytes → KeystoreResult (Bytes × Bytes)
  unfolding compat_integerify slice compat_xor
  mix_rounds zero n v b t = ok (b, t)
  mix_rounds (suc rounds) n v b t = do
    j ← compat_integerify b n
    vj ← slice v (j * length b) ((j + 1) * length b)
    let t' = compat_xor b vj t
    b' ← compat_scrypt_block_mix t' b
    mix_rounds rounds n v b' t'

  -- `b`, `v` and `t` after the call. `v.chunks_mut(0)` panics.
  unfoldable pub compat_scrypt_ro_mix :
      Bytes → Bytes → Bytes → ℕ → KeystoreResult (Bytes × Bytes × Bytes)
  unfolding fill_chunks mix_rounds chunks
  compat_scrypt_ro_mix b v t n = do
    if leb 1 (length b) then ok tt else panic
    (filled, b') ← fill_chunks (chunks (length b) v) b
    let v' = flatten filled
    (b'', t') ← mix_rounds n n v' b' t
    ok (b'', v', t')

  -- The loop over the chunks of `b`, which share `v` and `t`.
  unfoldable pub mix_lanes : List Bytes → Bytes → Bytes → ℕ → KeystoreResult (List Bytes)
  unfolding compat_scrypt_ro_mix
  mix_lanes [] v t n = ok []
  mix_lanes (lane ∷ rest) v t n = do
    (lane', v', t') ← compat_scrypt_ro_mix lane v t n
    rest' ← mix_lanes rest v' t' n
    ok (lane' ∷ rest')

  -- PBKDF2 fills the buffer that it is given.
  unfoldable pub compat_scrypt : Bytes → Bytes → CompatScryptParams → KeystoreResult Bytes
  unfolding mix_lanes checked_mul chunks zeroed
  compat_scrypt password salt params = do
    r128 ← ok_or (checked_mul params.r 128) invalid_scrypt_params
    pr128 ← ok_or (checked_mul params.p r128) invalid_scrypt_params
    nr128 ← ok_or (checked_mul params.n r128) invalid_scrypt_params
    _ ← zeroed pr128
    let b = pbkdf2_hmac password salt 1 pr128
    v ← zeroed nr128
    t ← zeroed r128
    if leb 1 r128 then ok tt else panic
    lanes ← mix_lanes (chunks r128 b) v t params.n
    _ ← zeroed params.dklen
    ok (pbkdf2_hmac password (flatten lanes) 1 params.dklen)
