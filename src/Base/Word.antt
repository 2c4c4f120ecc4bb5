-- ===== src/Base/Word.antt =====
-- Machine integers: the bounds of `usize` (64 bits), `i32` and `i64`, signed integers with their two's
-- complement patterns, and little-endian bytes.
use Prim.Native.Nat.{ℕ, zero, suc, ◌+◌, ◌-◌, ◌*◌, ◌/◌, ◌%◌, ◌^◌, ◌<◌}
use mathlib.Core.Path.{◌≡◌, ap, ◌∙◌}
use mathlib.Core.Bool.{Bool, true}
use mathlib.Core.List.{[], ◌∷◌}
use mathlib.Core.Option.{Option, none, some}
use native.Mathlib.Omega.{arith}
use aelf_web3_rust.Base.Tests.{ltb, leb, ◌==◌, ==_iff, if◌then◌else◌}
use aelf_web3_rust.Base.Lists.{length}
use aelf_web3_rust.Base.Text.{Bytes, IsBytes}

-- `negsuc n` is -(n + 1).
pub data ℤ : Type 0 where
  pos : ℕ → ℤ
  negsuc : ℕ → ℤ

abbrev pub IsI32 : ℤ → Type 0
IsI32 (pos n) = n < 2 ^ 31
IsI32 (negsuc n) = n < 2 ^ 31

abbrev pub IsI64 : ℤ → Type 0
IsI64 (pos n) = n < 2 ^ 63
IsI64 (negsuc n) = n < 2 ^ 63

-- The bit pattern of an `i32`, below 2 ^ 32, and the `i32` of a pattern.
unfoldable pub to_pattern32 : ℤ → ℕ
to_pattern32 (pos n) = n
to_pattern32 (negsuc n) = 2 ^ 32 - 1 - n

unfoldable pub from_pattern32 : ℕ → ℤ
from_pattern32 w = if ltb w (2 ^ 31) then pos w else negsuc (2 ^ 32 - 1 - w)

-- Four little-endian bytes of a pattern.
unfoldable pub le_bytes32 : ℕ → Bytes
le_bytes32 w = w % 256 ∷ w / 256 % 256 ∷ w / 65536 % 256 ∷ w / 16777216 % 256 ∷ []

-- The number of little-endian bytes.
unfoldable pub of_le_bytes : Bytes → ℕ
of_le_bytes [] = 0
of_le_bytes (b ∷ bs) = b + 256 * of_le_bytes bs

-- `i32::to_le_bytes` and `i32::from_le_bytes`.
unfoldable pub i32_to_le_bytes : ℤ → Bytes
unfolding to_pattern32 le_bytes32
i32_to_le_bytes n = le_bytes32 (to_pattern32 n)

unfoldable pub i32_from_le_bytes : Bytes → ℤ
unfolding from_pattern32 of_le_bytes
i32_from_le_bytes bs = from_pattern32 (of_le_bytes bs)

-- `usize::checked_mul` and `checked_add` on 64 bits.
unfoldable pub checked_mul : ℕ → ℕ → Option ℕ
checked_mul a b = let n = a * b in if ltb n (2 ^ 64) then some n else none

unfoldable pub checked_add : ℕ → ℕ → Option ℕ
checked_add a b = let n = a + b in if ltb n (2 ^ 64) then some n else none

-- `u32::ilog2`: halvings until 1. A `u32` takes 31 at most.
unfoldable pub ilog2_fuel : ℕ → ℕ → ℕ
ilog2_fuel zero n = 0
ilog2_fuel (suc f) n = let rest = suc (ilog2_fuel f (n / 2)) in if leb n 1 then 0 else rest

unfoldable pub ilog2 : ℕ → ℕ
unfolding ilog2_fuel
ilog2 n = ilog2_fuel 32 n

-- `u32::is_power_of_two`.
unfoldable pub is_power_of_two : ℕ → Bool
unfolding ilog2
is_power_of_two n = n == 2 ^ ilog2 n

pub is_power_of_two→eq : (n : ℕ) → is_power_of_two n ≡ true → (k : ℕ) × (n ≡ 2 ^ k)
unfolding is_power_of_two
is_power_of_two→eq n h = (ilog2 n, (==_iff n (2 ^ ilog2 n)).0 h)

pub i32_to_le_bytes-IsBytes : (n : ℤ) → IsBytes (i32_to_le_bytes n)
unfolding i32_to_le_bytes
i32_to_le_bytes-IsBytes n = omega arith

pub i32_from_le_bytes-i32_to_le_bytes :
    (n : ℤ) → IsI32 n → i32_from_le_bytes (i32_to_le_bytes n) ≡ n
unfolding i32_from_le_bytes i32_to_le_bytes
i32_from_le_bytes-i32_to_le_bytes (pos n) h = ground arith
i32_from_le_bytes-i32_to_le_bytes (negsuc n) h = ground arith

of_four :
    (a b c d : ℕ)
    → IsBytes (a ∷ b ∷ c ∷ d ∷ [])
    → le_bytes32 (of_le_bytes (a ∷ b ∷ c ∷ d ∷ [])) ≡ a ∷ b ∷ c ∷ d ∷ []
unfolding le_bytes32 of_le_bytes
of_four a b c d h = ground arith

pattern32 : (w : ℕ) → w < 2 ^ 32 → to_pattern32 (from_pattern32 w) ≡ w
unfolding to_pattern32 from_pattern32
pattern32 w h = ground arith

of_four-lt :
    (a b c d : ℕ) → IsBytes (a ∷ b ∷ c ∷ d ∷ []) → of_le_bytes (a ∷ b ∷ c ∷ d ∷ []) < 2 ^ 32
unfolding of_le_bytes
of_four-lt a b c d h = omega arith

from_pattern32-IsI32 : (w : ℕ) → w < 2 ^ 32 → IsI32 (from_pattern32 w)
unfolding from_pattern32
from_pattern32-IsI32 w h = ground arith

pub i32_to_le_bytes-i32_from_le_bytes :
    (bs : Bytes) → length bs ≡ 4 → IsBytes bs → i32_to_le_bytes (i32_from_le_bytes bs) ≡ bs
unfolding i32_to_le_bytes i32_from_le_bytes
i32_to_le_bytes-i32_from_le_bytes [] e h = absurd (omega arith)
i32_to_le_bytes-i32_from_le_bytes (a ∷ b ∷ c ∷ d ∷ []) e h =
    ap le_bytes32 (pattern32 _ (of_four-lt a b c d h)) ∙ of_four a b c d h
i32_to_le_bytes-i32_from_le_bytes _ e h = absurd (omega arith)

pub i32_from_le_bytes-IsI32 :
    (bs : Bytes) → length bs ≡ 4 → IsBytes bs → IsI32 (i32_from_le_bytes bs)
unfolding i32_from_le_bytes
i32_from_le_bytes-IsI32 [] e h = absurd (omega arith)
i32_from_le_bytes-IsI32 (a ∷ b ∷ c ∷ d ∷ []) e h = from_pattern32-IsI32 _ (of_four-lt a b c d h)
i32_from_le_bytes-IsI32 _ e h = absurd (omega arith)
