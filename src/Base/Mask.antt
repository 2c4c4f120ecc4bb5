-- ===== src/Base/Mask.antt =====
-- A mask of low bits, and little-endian bytes, as remainders.
use Prim.Native.Nat.{bit_and, digits, bit_and-bitwise, min}
use native.Mathlib.Nat.{mul_assoc, pow-suc, one-le-pow, mod-add-div', mod-lt, add-mul-mod_self_left}
use aelf_web3_rust.Base.{
  ℕ, zero, suc, ◌+◌, ◌-◌, ◌*◌, ◌/◌, ◌%◌, ◌^◌, ◌≤◌, ◌<◌, ◌≡◌, refl, ap, sym, ◌∙◌, [], ◌∷◌, arith,
  take, drop,
}
use aelf_web3_rust.Base.Text.{Bytes}
use aelf_web3_rust.Base.Word.{of_le_bytes}

abbrev masked : ℕ → ℕ → ℕ → ℕ
masked = digits (λ b. zero) min

-- A mask bounds what it lets through.
masked-le : (f a b : ℕ) → masked f a b ≤ b
masked-le zero a b = omega arith
masked-le (suc f) zero b = omega arith
masked-le (suc f) (suc a) b = omega (arith, masked-le f (suc a / 2) (b / 2))

double : (q k : ℕ) → q * 2 ^ suc k ≡ 2 * (q * 2 ^ k)
double q k = omega (arith, ap (λ (t : ℕ). q * t) (pow-suc 2 k))

-- The digits of a number below bit `k`, given as its remainder `r`.
masked_low : (f k a q r : ℕ) → a ≡ q * 2 ^ k + r → a ≤ f → r < 2 ^ k → masked f a (2 ^ k - 1) ≡ r
masked_low zero k a q r e enough fits = omega arith
masked_low (suc f) k zero q r e enough fits = omega arith
masked_low (suc f) zero (suc a) q r e enough fits = omega (arith, masked-le (suc f) (suc a) 0)
masked_low (suc f) (suc k) (suc a) q r e enough fits =
    let halved : (2 ^ suc k - 1) / 2 ≡ 2 ^ k - 1 = omega (arith, pow-suc 2 k, one-le-pow k 2) in
    let odd : (2 ^ suc k - 1) % 2 ≡ 1 = omega (arith, pow-suc 2 k, one-le-pow k 2) in
    let low =
      masked_low f k (suc a / 2) q (r / 2) (omega (arith, double q k)) (omega arith)
        (omega (arith, pow-suc 2 k)) in
    rw (halved, odd, low) (omega (arith, double q k))

pub bit_and_mask : (a k : ℕ) → bit_and a (2 ^ k - 1) ≡ a % 2 ^ k
bit_and_mask a k =
    bit_and-bitwise a (2 ^ k - 1)
    ∙ masked_low a k a (a / 2 ^ k) (a % 2 ^ k) (omega (arith, mod-add-div' a (2 ^ k))) (omega arith)
        (mod-lt a (one-le-pow k 2 (omega arith)))

pub of_le_bytes-four :
    (b : Bytes) → of_le_bytes b ≡ of_le_bytes (take 4 b) + 2 ^ 32 * of_le_bytes (drop 4 b)
unfolding of_le_bytes
of_le_bytes-four [] = refl
of_le_bytes-four (a ∷ []) = omega arith
of_le_bytes-four (a ∷ b ∷ []) = omega arith
of_le_bytes-four (a ∷ b ∷ c ∷ []) = omega arith
of_le_bytes-four (a ∷ b ∷ c ∷ d ∷ e) = omega arith

two_pow_zero : (k : ℕ) → 2 ^ (k + 0) ≡ 2 ^ k * 2 ^ 0
two_pow_zero k = let same : k + 0 ≡ k = omega arith in rw same (omega arith)

two_pow_add : (k j : ℕ) → 2 ^ (k + j) ≡ 2 ^ k * 2 ^ j
two_pow_add k zero = two_pow_zero k
two_pow_add k (suc j) =
    let step : 2 ^ k * 2 ^ suc j ≡ 2 * (2 ^ k * 2 ^ j) =
      omega (arith, ap (λ (t : ℕ). 2 ^ k * t) (pow-suc 2 j)) in
    let up : k + suc j ≡ suc (k + j) = omega arith in
    rw up (omega (arith, step, pow-suc 2 (k + j), two_pow_add k j))

-- The first four bytes decide the remainder by a power of two up to 2 ^ 32.
pub of_le_bytes-mask :
    (b : Bytes) (k : ℕ)
    → k ≤ 32
    → bit_and (of_le_bytes (take 4 b)) (2 ^ k - 1) ≡ of_le_bytes b % 2 ^ k
of_le_bytes-mask b k h =
    let rest = of_le_bytes (drop 4 b) in
    let power : 2 ^ 32 ≡ 2 ^ k * 2 ^ (32 - k) =
      let whole : k + (32 - k) ≡ 32 = omega arith in
      ap (λ (n : ℕ). 2 ^ n) (sym whole) ∙ two_pow_add k (32 - k) in
    let split : of_le_bytes b ≡ of_le_bytes (take 4 b) + 2 ^ k * (2 ^ (32 - k) * rest) =
      of_le_bytes-four b
      ∙ ap (λ (t : ℕ). of_le_bytes (take 4 b) + t)
          (ap (λ (t : ℕ). t * rest) power ∙ mul_assoc (2 ^ k) (2 ^ (32 - k)) rest) in
    bit_and_mask (of_le_bytes (take 4 b)) k
    ∙ sym (add-mul-mod_self_left (of_le_bytes (take 4 b)) (2 ^ k) (2 ^ (32 - k) * rest))
    ∙ ap (λ (t : ℕ). t % 2 ^ k) (sym split)
