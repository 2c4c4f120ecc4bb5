-- ===== src/Base/Decimal.antt =====
-- Decimal notation: `to_string` of an unsigned and of a signed integer, and `parse::<i64>`.
pub mod RoundTrip
pub mod Reading
use Prim.Native.Nat.{ℕ, zero, suc, ◌+◌, ◌-◌, ◌*◌, ◌/◌, ◌%◌, ◌^◌, ◌≤◌, ◌<◌}
use mathlib.Core.Path.{◌≡◌, refl}
use mathlib.Core.Bool.{Bool, true, false, ◌&&◌}
use mathlib.Core.List.{[], ◌∷◌, ◌++◌}
use native.Mathlib.Omega.{arith}
use aelf_web3_rust.Base.Tests.{ltb, leb, ◌==◌, if◌then◌else◌}
use aelf_web3_rust.Base.Outcome.{Result, ok, err, ◌>>=◌}
use aelf_web3_rust.Base.Text.{Text, codes}
use aelf_web3_rust.Base.Word.{ℤ, pos, negsuc}

-- The digits of `n`, the first one first; `n` is enough fuel for `n`.
unfoldable pub digits_fuel : ℕ → ℕ → Text
digits_fuel zero n = (b'0' + n % 10) ∷ []
digits_fuel (suc fuel) n = elim (ltb n 10) [
  | true ↦ (b'0' + n) ∷ []
  | false ↦ digits_fuel fuel (n / 10) ++ (b'0' + n % 10) ∷ []
]

-- `u64::to_string`.
unfoldable pub nat_to_string : ℕ → Text
unfolding digits_fuel
nat_to_string n = digits_fuel n n

-- `i64::to_string`.
unfoldable pub int_to_string : ℤ → Text
unfolding nat_to_string
int_to_string (pos n) = nat_to_string n
int_to_string (negsuc n) = b'-' ∷ nat_to_string (suc n)

-- `std::num::ParseIntError`.
pub data ParseIntError : Type 0 where
  empty invalid_digit pos_overflow neg_overflow : ParseIntError

unfoldable pub parse_int_error_text : ParseIntError → Text
parse_int_error_text empty = codes "cannot parse integer from empty string"
parse_int_error_text invalid_digit = codes "invalid digit found in string"
parse_int_error_text pos_overflow = codes "number too large to fit in target type"
parse_int_error_text neg_overflow = codes "number too small to fit in target type"

-- The digits after the sign: at each, the digit is checked before the bound.
unfoldable pub scan_digits : ℕ → ParseIntError → Text → ℕ → Result ParseIntError ℕ
scan_digits limit overflow [] n = ok n
scan_digits limit overflow (c ∷ s) n =
    if leb b'0' c && leb c b'9'
    then (if leb (n * 10 + (c - b'0')) limit
        then scan_digits limit overflow s (n * 10 + (c - b'0'))
        else err overflow)
    else err invalid_digit

abbrev negate : ℕ → ℤ
negate zero = pos 0
negate (suc n) = negsuc n

unfoldable scan_signed : ℕ → Text → Result ParseIntError ℤ
unfolding scan_digits
scan_signed c s =
    if c == b'-'
    then scan_digits (2 ^ 63) neg_overflow s 0 >>= (λ n. ok (negate n))
    else if c == b'+'
    then scan_digits (2 ^ 63 - 1) pos_overflow s 0 >>= (λ n. ok (pos n))
    else scan_digits (2 ^ 63 - 1) pos_overflow (c ∷ s) 0 >>= (λ n. ok (pos n))

-- `parse::<i64>`.
unfoldable pub parse_i64 : Text → Result ParseIntError ℤ
unfolding scan_signed
parse_i64 [] = err empty
parse_i64 (c ∷ []) =
    if c == b'-'
    then err invalid_digit
    else if c == b'+'
    then err invalid_digit
    else scan_signed c []
parse_i64 (c ∷ d ∷ s) = scan_signed c (d ∷ s)
