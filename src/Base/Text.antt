-- ===== src/Base/Text.antt =====
-- Rust's `str` and `[u8]`. A text is the list of its characters (Unicode scalar values) and `len` counts
-- the bytes of its UTF-8 form, as `str::len` does; a byte string is a list of numbers below 256.
pub mod Ascii
pub mod Around
pub mod Trim
pub mod Split
pub mod Utf8
use Prim.Native.Char.{code}
use Prim.Native.String.{String}
use Prim.Native.Nat.{ℕ, zero, suc, ◌+◌, ◌-◌, ◌/◌, ◌%◌, ◌≤◌, ◌<◌}
use mathlib.Core.Path.{◌≡◌, refl}
use mathlib.Core.Bool.{Bool, true, false, ◌&&◌, ◌||◌}
use mathlib.Core.Option.{Option, none, some}
use mathlib.Core.List.{List, [], ◌∷◌, ◌++◌, reverse}
use native.Mathlib.Omega.{arith}
use aelf_web3_rust.Base.Tests.{ltb, leb, ◌==◌, if◌then◌else◌}
use aelf_web3_rust.Base.Lists.{length, replicate, All}

abbrev pub Text : Type 0
Text = List ℕ

abbrev pub Bytes : Type 0
Bytes = List ℕ

abbrev pub IsBytes : Bytes → Type 0
IsBytes = All (λ b. b < 256)

-- A literal.
abbrev pub codes : String → Text
codes String.[] = []
codes (String.◌∷◌ c s) = code c ∷ codes s

-- The UTF-8 form of a character.
unfoldable pub encode_utf8 : ℕ → Bytes
encode_utf8 c =
    if ltb c 0x80
    then c ∷ []
    else if ltb c 0x800
    then (0xc0 + c / 64) ∷ (0x80 + c % 64) ∷ []
    else if ltb c 0x10000
    then (0xe0 + c / 4096) ∷ (0x80 + c / 64 % 64) ∷ (0x80 + c % 64) ∷ []
    else (0xf0 + c / 262144) ∷ (0x80 + c / 4096 % 64) ∷ (0x80 + c / 64 % 64) ∷ (0x80 + c % 64) ∷ []

-- `s.as_bytes()`.
unfoldable pub as_bytes : Text → Bytes
unfolding encode_utf8
as_bytes [] = []
as_bytes (c ∷ s) = encode_utf8 c ++ as_bytes s

-- `s.len()`, in bytes.
unfoldable pub len : Text → ℕ
unfolding as_bytes
len s = length (as_bytes s)

-- `s.is_empty()`.
abbrev pub is_empty : Text → Bool
is_empty [] = true
is_empty (c ∷ s) = false

-- `s.strip_prefix(p)`.
unfoldable pub strip_prefix : Text → Text → Option Text
strip_prefix [] s = some s
strip_prefix (p ∷ ps) [] = none
strip_prefix (p ∷ ps) (c ∷ s) = if p == c then strip_prefix ps s else none

-- `s.strip_suffix(c)` for a character.
abbrev strip_last : Text → ℕ → Option Text
strip_last [] c = none
strip_last (d ∷ s) c = if d == c then some (reverse s) else none

unfoldable pub strip_suffix : Text → ℕ → Option Text
strip_suffix s c = strip_last (reverse s) c

-- `o.unwrap_or(d)`.
abbrev pub unwrap_or {ℓ} : {A : Type ℓ} → Option A → A → A
unwrap_or none d = d
unwrap_or (some a) d = a

-- `format!("{s:0>w}")`: zeros on the left up to `w` characters.
unfoldable pub pad_zeros : ℕ → Text → Text
pad_zeros w s = replicate (w - length s) b'0' ++ s

pub strip_prefix_append : (p s : Text) → strip_prefix p (p ++ s) ≡ some s
unfolding strip_prefix
strip_prefix_append [] s = refl
strip_prefix_append (c ∷ p) s = ground (arith, strip_prefix_append p s)
