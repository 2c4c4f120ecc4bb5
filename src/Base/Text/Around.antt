-- ===== src/Base/Text/Around.antt =====
-- A character that is repeated around a text, and the trimming of it.
use Prim.Native.Nat.{ℕ, zero, suc}
use mathlib.Core.Path.{◌≡◌, refl, ap, ◌∙◌}
use mathlib.Core.Bool.{false}
use mathlib.Core.List.{[], ◌∷◌, ◌++◌, append-nil, reverse, reverse-append, reverse-reverse}
use native.Mathlib.Omega.{arith}
use aelf_web3_rust.Base.Tests.{◌==◌}
use aelf_web3_rust.Base.Lists.{replicate, All, All-append}
use aelf_web3_rust.Base.Text.{Text}
use aelf_web3_rust.Base.Text.Trim.{trim_start_matches, trim_end_matches, trim_matches}

replicate-concat : (n c : ℕ) → replicate n c ++ c ∷ [] ≡ replicate (suc n) c
replicate-concat zero c = refl
replicate-concat (suc n) c = ap (λ (t : Text). c ∷ t) (replicate-concat n c)

reverse-replicate : (n c : ℕ) → reverse (replicate n c) ≡ replicate n c
reverse-replicate zero c = refl
reverse-replicate (suc n) c =
    reverse-append (c ∷ []) (replicate n c)
    ∙ ap (λ (t : Text). t ++ c ∷ []) (reverse-replicate n c)
    ∙ replicate-concat n c

pub trim_start_matches-replicate :
    (n : ℕ) (s : Text) (c : ℕ) → trim_start_matches (replicate n c ++ s) c ≡ trim_start_matches s c
unfolding trim_start_matches
trim_start_matches-replicate zero s c = refl
trim_start_matches-replicate (suc n) s c = ground (arith, trim_start_matches-replicate n s c)

pub trim_end_matches-replicate :
    (s : Text) (n c : ℕ) → trim_end_matches (s ++ replicate n c) c ≡ trim_end_matches s c
unfolding trim_end_matches trim_start_matches
trim_end_matches-replicate s n c = rw (
  reverse-append s (replicate n c),
  reverse-replicate n c,
  trim_start_matches-replicate n (reverse s) c,
)

-- No character of the text is `c`.
abbrev pub Without : ℕ → Text → Type 0
Without c s = All (λ d. (d == c) ≡ false) s

trim_start_matches-Without : (s : Text) (c : ℕ) → Without c s → trim_start_matches s c ≡ s
unfolding trim_start_matches
trim_start_matches-Without [] c h = refl
trim_start_matches-Without (d ∷ s) c (first, rest) = rw first

Without-reverse : (s : Text) (c : ℕ) → Without c s → Without c (reverse s)
Without-reverse [] c h = tt
Without-reverse (d ∷ s) c (first, rest) =
    rw (reverse-append (d ∷ []) s) (
      All-append (λ e. (e == c) ≡ false) (reverse s) (d ∷ []) (Without-reverse s c rest)
        (first, tt))

trim_end_matches-Without : (s : Text) (c : ℕ) → Without c s → trim_end_matches s c ≡ s
unfolding trim_end_matches trim_start_matches
trim_end_matches-Without s c h =
    rw (trim_start_matches-Without (reverse s) c (Without-reverse s c h)) (reverse-reverse s)

start_of :
    (s : Text) (n c : ℕ)
    → Without c s
    → trim_end_matches (trim_start_matches (s ++ replicate n c) c) c ≡ s
unfolding trim_start_matches trim_end_matches
start_of [] n c h =
    rw (← append-nil (replicate n c)) (rw (trim_start_matches-replicate n [] c) refl)
start_of (d ∷ s) n c (first, rest) =
    rw first
      (trim_end_matches-replicate (d ∷ s) n c ∙ trim_end_matches-Without (d ∷ s) c (first, rest))

-- Trimming takes what is repeated around a text without the character, and no more.
pub trim_matches-replicate :
    (s : Text) (m n c : ℕ)
    → Without c s
    → trim_matches (replicate m c ++ (s ++ replicate n c)) c ≡ s
unfolding trim_matches
trim_matches-replicate s m n c h =
    rw (trim_start_matches-replicate m (s ++ replicate n c) c) (start_of s n c h)
