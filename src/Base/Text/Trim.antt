-- ===== src/Base/Text/Trim.antt =====
-- `trim`, `trim_start_matches`, `trim_end_matches` and `trim_matches`.
use Prim.Native.Nat.{ℕ}
use mathlib.Core.Path.{◌≡◌}
use mathlib.Core.Bool.{Bool, false, ◌&&◌, ◌||◌}
use mathlib.Core.List.{[], ◌∷◌, ◌++◌, reverse, reverse-append, reverse-reverse}
use aelf_web3_rust.Base.Tests.{leb, ◌==◌, if◌then◌else◌}
use aelf_web3_rust.Base.Text.{Text}

unfoldable pub trim_start : (ℕ → Bool) → Text → Text
trim_start p [] = []
trim_start p (c ∷ s) = if p c then trim_start p s else c ∷ s

unfoldable pub trim_end : (ℕ → Bool) → Text → Text
unfolding trim_start
trim_end p s = reverse (trim_start p (reverse s))

-- `s.trim_start_matches(c)` and `s.trim_end_matches(c)` for a character.
unfoldable pub trim_start_matches : Text → ℕ → Text
unfolding trim_start
trim_start_matches s c = trim_start (λ d. d == c) s

unfoldable pub trim_end_matches : Text → ℕ → Text
unfolding trim_end
trim_end_matches s c = trim_end (λ d. d == c) s

unfoldable pub trim_matches : Text → ℕ → Text
unfolding trim_start_matches trim_end_matches
trim_matches s c = trim_end_matches (trim_start_matches s c) c

-- `char::is_whitespace`: Unicode's White_Space.
unfoldable pub is_whitespace : ℕ → Bool
is_whitespace c =
    (leb 9 c && leb c 13)
    || c == 32
    || c == 0x85
    || c == 0xa0
    || c == 0x1680
    || (leb 0x2000 c && leb c 0x200a)
    || c == 0x2028
    || c == 0x2029
    || c == 0x202f
    || c == 0x205f
    || c == 0x3000

-- `s.trim()`.
unfoldable pub trim : Text → Text
unfolding trim_start trim_end is_whitespace
trim s = trim_end is_whitespace (trim_start is_whitespace s)

-- A text whose first and last characters stay is not trimmed.
pub trim_start-cons : (p : ℕ → Bool) (c : ℕ) (s : Text) → p c ≡ false → trim_start p (c ∷ s) ≡ c ∷ s
unfolding trim_start
trim_start-cons p c s h = rw h

pub trim_end-concat :
    (p : ℕ → Bool) (s : Text) (c : ℕ) → p c ≡ false → trim_end p (s ++ c ∷ []) ≡ s ++ c ∷ []
unfolding trim_end
trim_end-concat p s c h =
    rw (reverse-append s (c ∷ []))
      (rw h (rw (reverse-append (c ∷ []) (reverse s)) (rw (reverse-reverse s))))
