-- ===== src/Keystore/Scrypt/Blocks.antt =====
-- Byte strings cut into chunks, written into and combined by exclusive or.
use Prim.Native.Nat.{bit_xor}
use aelf_web3_rust.Base.{
  ℕ, flatten, zero, suc, ◌+◌, ◌*◌, ◌≤◌, ◌<◌, ◌≡◌, refl, sym, ap, ◌∙◌, List, [], ◌∷◌, ◌++◌, true,
  arith, ok, leb, append_assoc, length, take, drop, All, length-append, length-take, length-drop,
  take-append, drop-append, take-append-drop,
}
use aelf_web3_rust.Base.Text.{Bytes}
use aelf_web3_rust.Keystore.Scrypt.{chunks_fuel, chunks, copy_into, compat_xor}

abbrev pub HasLength : ℕ → Bytes → Type 0
HasLength n xs = length xs ≡ n

-- The exclusive or of two byte strings of one length.
unfoldable pub xor_bytes : Bytes → Bytes → Bytes
xor_bytes (a ∷ x) (b ∷ y) = bit_xor a b ∷ xor_bytes x y
xor_bytes _ _ = []

pub compat_xor-xor_bytes :
    (x y out : Bytes)
    → length x ≡ length out
    → length y ≡ length out
    → compat_xor x y out ≡ xor_bytes x y
unfolding compat_xor xor_bytes
compat_xor-xor_bytes [] [] [] p q = refl
compat_xor-xor_bytes (a ∷ x) (b ∷ y) (c ∷ out) p q =
    ap (λ (t : Bytes). bit_xor a b ∷ t) (compat_xor-xor_bytes x y out (omega arith) (omega arith))
compat_xor-xor_bytes _ _ _ p q = absurd (omega arith)

pub length-xor_bytes : (x y : Bytes) → length x ≡ length y → length (xor_bytes x y) ≡ length x
unfolding xor_bytes
length-xor_bytes [] [] p = refl
length-xor_bytes (a ∷ x) (b ∷ y) p = ap suc (length-xor_bytes x y (omega arith))
length-xor_bytes _ _ p = absurd (omega arith)

-- A write over the middle part of an append.
pub copy_into_middle :
    (p q s xs : Bytes) (pos : ℕ)
    → pos ≡ length p
    → length xs ≡ length q
    → copy_into (p ++ (q ++ s)) pos xs ≡ ok (p ++ (xs ++ s))
unfolding copy_into
copy_into_middle p q s xs pos e n =
    let inside : leb (pos + length xs) (length (p ++ (q ++ s))) ≡ true =
      ground (arith, length-append p (q ++ s), length-append q s) in
    let behind : drop (pos + length xs) (p ++ (q ++ s)) ≡ s =
      ap (drop (pos + length xs)) (sym (append_assoc p q s))
      ∙ drop-append (p ++ q) s (pos + length xs) (omega (arith, length-append p q)) in
    rw (inside, take-append p (q ++ s) pos e, behind)

-- A byte string of `k * n` bytes is cut into `k` chunks of `n` bytes, which spell it.
pub record Cut (n k : ℕ) (xs : Bytes) (cs : List Bytes) : Type 0 where
  pub sized : All (HasLength n) cs
  pub count : length cs ≡ k
  pub spelled : flatten cs ≡ xs

chunks_fuel-Cut :
    (f n k : ℕ) (xs : Bytes)
    → 0 < n
    → length xs ≡ k * n
    → length xs ≤ f
    → Cut n k xs (chunks_fuel f n xs)
unfolding chunks_fuel flatten
chunks_fuel-Cut zero n zero [] pn e h = record { sized = tt; count = refl; spelled = refl }
chunks_fuel-Cut zero n (suc k) [] pn e h = absurd (omega arith)
chunks_fuel-Cut zero n k (x ∷ xs) pn e h = absurd (omega arith)
chunks_fuel-Cut (suc f) n zero [] pn e h = record { sized = tt; count = refl; spelled = refl }
chunks_fuel-Cut (suc f) n (suc k) [] pn e h = absurd (omega arith)
chunks_fuel-Cut (suc f) n zero (x ∷ xs) pn e h = absurd (omega arith)
chunks_fuel-Cut (suc f) n (suc k) (x ∷ xs) pn e h =
    let more =
      chunks_fuel-Cut f n k (drop n (x ∷ xs)) pn (omega (arith, length-drop n (x ∷ xs)))
        (omega (arith, length-drop n (x ∷ xs))) in
    record {
      sized = (omega (arith, length-take n (x ∷ xs)), more.sized);
      count = ap suc more.count;
      spelled = ap (λ (t : Bytes). take n (x ∷ xs) ++ t) more.spelled ∙ take-append-drop n (x ∷ xs);
    }

pub chunks-Cut : (n k : ℕ) (xs : Bytes) → 0 < n → length xs ≡ k * n → Cut n k xs (chunks n xs)
unfolding chunks
chunks-Cut n k xs pn e = chunks_fuel-Cut (length xs) n k xs pn e (omega arith)
