-- ===== src/Base/Text/Ascii.antt =====
-- ASCII: digits, cases and the length of a text in bytes.
use Prim.Native.Nat.{ℕ, ◌+◌, ◌≤◌, ◌<◌}
use mathlib.Core.Path.{◌≡◌, refl}
use mathlib.Core.Logic.{◌⊎◌}
use mathlib.Core.Bool.{Bool, true, ◌&&◌, ◌||◌}
use mathlib.Core.List.{[], ◌∷◌, map}
use native.Mathlib.Omega.{arith}
use aelf_web3_rust.Base.Tests.{leb, if◌then◌else◌, list_eq}
use aelf_web3_rust.Base.Lists.{length, All}
use aelf_web3_rust.Base.Text.{Text, len}

abbrev pub IsAscii : Text → Type 0
IsAscii = All (λ c. c < 128)

abbrev pub IsHexDigit : ℕ → Type 0
IsHexDigit c = ((b'0' ≤ c) × (c ≤ b'9')) ⊎ ((b'a' ≤ c) × (c ≤ b'f')) ⊎ ((b'A' ≤ c) × (c ≤ b'F'))

abbrev pub IsAlphanumeric : ℕ → Type 0
IsAlphanumeric c = ((b'0' ≤ c) × (c ≤ b'9')) ⊎ ((b'a' ≤ c) × (c ≤ b'z')) ⊎ ((b'A' ≤ c) × (c ≤ b'Z'))

-- `c.is_ascii_hexdigit()`.
unfoldable pub is_ascii_hexdigit : ℕ → Bool
is_ascii_hexdigit c =
    (leb b'0' c && leb c b'9') || (leb b'a' c && leb c b'f') || (leb b'A' c && leb c b'F')

unfoldable pub to_lower : ℕ → ℕ
to_lower c = if leb b'A' c && leb c b'Z' then c + 32 else c

-- `s.to_ascii_lowercase()`.
unfoldable pub to_ascii_lowercase : Text → Text
unfolding to_lower
to_ascii_lowercase = map to_lower

-- `s.eq_ignore_ascii_case(t)`.
unfoldable pub eq_ignore_ascii_case : Text → Text → Bool
unfolding to_ascii_lowercase list_eq
eq_ignore_ascii_case s t = list_eq (to_ascii_lowercase s) (to_ascii_lowercase t)

pub is_ascii_hexdigit→IsHexDigit : (c : ℕ) → is_ascii_hexdigit c ≡ true → IsHexDigit c
unfolding is_ascii_hexdigit
is_ascii_hexdigit→IsHexDigit c h = ground arith

pub IsHexDigit→is_ascii_hexdigit : (c : ℕ) → IsHexDigit c → is_ascii_hexdigit c ≡ true
unfolding is_ascii_hexdigit
IsHexDigit→is_ascii_hexdigit c h = ground arith

pub len_ascii : (s : Text) → IsAscii s → len s ≡ length s
unfolding len
len_ascii [] h = refl
len_ascii (c ∷ s) h = ground (arith, len_ascii s h.1)

pub IsHexDigit-IsAscii : (s : Text) → All IsHexDigit s → IsAscii s
IsHexDigit-IsAscii [] h = tt
IsHexDigit-IsAscii (c ∷ s) h = (omega arith, IsHexDigit-IsAscii s h.1)

pub to_lower_idem : (c : ℕ) → to_lower (to_lower c) ≡ to_lower c
unfolding to_lower
to_lower_idem c = ground arith

pub to_ascii_lowercase_idem :
    (s : Text) → to_ascii_lowercase (to_ascii_lowercase s) ≡ to_ascii_lowercase s
unfolding to_ascii_lowercase
to_ascii_lowercase_idem [] = refl
to_ascii_lowercase_idem (c ∷ s) = cc (to_lower_idem c, to_ascii_lowercase_idem s)
