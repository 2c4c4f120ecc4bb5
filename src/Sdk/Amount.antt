-- ===== src/Sdk/Amount.antt =====
-- crates/aelf-sdk/src/lib.rs: `format_token_amount`.
pub mod Value
use aelf_web3_rust.Base.{
  ℕ, zero, suc, ◌-◌, ◌++◌, leb, if◌then◌else◌, length, take, drop, replicate, true, false, Bool,
  ◌∷◌,
}
use aelf_web3_rust.Base.Text.{Text, codes}
use aelf_web3_rust.Base.Word.{ℤ, pos, negsuc}
use aelf_web3_rust.Base.Decimal.{nat_to_string, int_to_string}

-- `unsigned_abs`.
abbrev pub unsigned_abs : ℤ → ℕ
unsigned_abs (pos n) = n
unsigned_abs (negsuc n) = suc n

abbrev pub is_negative : ℤ → Bool
is_negative (pos n) = false
is_negative (negsuc n) = true

-- The text for a positive number of decimals: at most `scale` digits are the fraction.
unfoldable pub scaled : Text → ℕ → Text
scaled digits scale =
    if leb (length digits) scale
    then codes "0." ++ replicate (scale - length digits) b'0' ++ digits
    else let split = length digits - scale in take split digits ++ codes "." ++ drop split digits

unfoldable pub format_token_amount : ℤ → ℤ → Text
unfolding scaled int_to_string
format_token_amount amount (negsuc _) = int_to_string amount
format_token_amount amount (pos zero) = int_to_string amount
format_token_amount amount (pos (suc d)) =
    let formatted = scaled (nat_to_string (unsigned_abs amount)) (suc d) in
    if is_negative amount then b'-' ∷ formatted else formatted
