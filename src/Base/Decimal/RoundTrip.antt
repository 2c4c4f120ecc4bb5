-- ===== src/Base/Decimal/RoundTrip.antt =====
-- A decimal text reads back as its number.
use aelf_web3_rust.Base.{
  ℕ, zero, suc, ◌+◌, ◌-◌, ◌*◌, ◌/◌, ◌%◌, ◌^◌, ◌≤◌, ◌≡◌, refl, ◌∙◌, ap, [], ◌∷◌, ◌++◌, append-nil,
  append_assoc, Bool-cases, inl, inr, ltb, Result, ok, ◌>>=◌, ltb→lt, arith,
}
use aelf_web3_rust.Base.Text.{Text}
use aelf_web3_rust.Base.Word.{ℤ, pos, negsuc, IsI64}
use aelf_web3_rust.Base.Decimal.{
  digits_fuel, nat_to_string, int_to_string, parse_i64, scan_digits, scan_signed, ParseIntError,
  pos_overflow, neg_overflow,
}

-- Reading the digits of `n` gives `n`, and the rest is read after it.
scan_digits-digits :
    (fuel limit n : ℕ) (overflow : ParseIntError) (s : Text)
    → n ≤ fuel + 9
    → n ≤ limit
    → scan_digits limit overflow (digits_fuel fuel n ++ s) 0 ≡ scan_digits limit overflow s n
unfolding scan_digits digits_fuel
scan_digits-digits zero limit n overflow s enough fits = ground arith
scan_digits-digits (suc fuel) limit n overflow s enough fits = elim (Bool-cases (ltb n 10)) [
  | inl small ↦ rw (digits_fuel, small) (ground arith)
  | inr large ↦
      rw (digits_fuel, large, append_assoc (digits_fuel fuel (n / 10)) ((b'0' + n % 10) ∷ []) s)
        (scan_digits-digits fuel limit (n / 10) overflow ((b'0' + n % 10) ∷ s) (ground arith)
            (omega arith)
          ∙ (let whole : n / 10 * 10 + (b'0' + n % 10 - b'0') ≡ n = omega arith in
              rw whole (ground arith)))
]

-- The text starts with a digit.
abbrev StartsWithDigit : Text → Type 0
StartsWithDigit t = (c : ℕ) × (s : Text) × (t ≡ c ∷ s) × (b'0' ≤ c) × (c ≤ b'9')

StartsWithDigit-append : (t u : Text) → StartsWithDigit t → StartsWithDigit (t ++ u)
StartsWithDigit-append t u (c, s, e, low, high) = (c, s ++ u, rw e, low, high)

digits_fuel-StartsWithDigit : (fuel n : ℕ) → StartsWithDigit (digits_fuel fuel n)
unfolding digits_fuel
digits_fuel-StartsWithDigit zero n = (b'0' + n % 10, [], refl, omega arith, omega arith)
digits_fuel-StartsWithDigit (suc fuel) n = elim (Bool-cases (ltb n 10)) [
  | inl small ↦
      (b'0' + n, [], rw (digits_fuel, small), omega arith, omega (arith, ltb→lt n 10 small))
  | inr large ↦
      rw (digits_fuel, large)
        (StartsWithDigit-append (digits_fuel fuel (n / 10)) ((b'0' + n % 10) ∷ [])
          (digits_fuel-StartsWithDigit fuel (n / 10)))
]

scan_signed_digit :
    (c : ℕ) (s : Text)
    → b'0' ≤ c
    → scan_signed c s ≡ scan_digits (2 ^ 63 - 1) pos_overflow (c ∷ s) 0 >>= (λ n. ok (pos n))
unfolding scan_signed
scan_signed_digit c s low = ground arith

abbrev then_pos : Result ParseIntError ℕ → Result ParseIntError ℤ
then_pos r = r >>= (λ n. ok (pos n))

parse_unsigned :
    (t : Text) (n : ℕ)
    → StartsWithDigit t
    → scan_digits (2 ^ 63 - 1) pos_overflow t 0 ≡ ok n
    → parse_i64 t ≡ ok (pos n)
unfolding parse_i64
parse_unsigned [] n (c, s, e, low, high) h = cc
parse_unsigned (d ∷ []) n (c, s, e, low, high) h =
    let same : d ≡ c = cc in ground (arith, rw h at (scan_signed_digit d [] (omega (arith, same))))
parse_unsigned (d ∷ d' ∷ t) n (c, s, e, low, high) h =
    let same : d ≡ c = cc in scan_signed_digit d (d' ∷ t) (omega (arith, same)) ∙ ap then_pos h

parse_negative :
    (t : Text) (n : ℕ)
    → StartsWithDigit t
    → scan_digits (2 ^ 63) neg_overflow t 0 ≡ ok (suc n)
    → parse_i64 (b'-' ∷ t) ≡ ok (negsuc n)
unfolding parse_i64 scan_signed
parse_negative [] n (c, s, e, low, high) h = cc
parse_negative (d ∷ t) n first h = rw h

digits-StartsWithDigit : (n : ℕ) → StartsWithDigit (nat_to_string n)
unfolding nat_to_string
digits-StartsWithDigit n = digits_fuel-StartsWithDigit n n

scan_digits-nat_to_string :
    (limit n : ℕ) (overflow : ParseIntError)
    → n ≤ limit
    → scan_digits limit overflow (nat_to_string n) 0 ≡ ok n
unfolding nat_to_string scan_digits
scan_digits-nat_to_string limit n overflow fits =
    rw append-nil at (scan_digits-digits n limit n overflow [] (omega arith) fits)

-- An `i64` written in decimal reads back as itself.
pub parse_i64-int_to_string : (n : ℤ) → IsI64 n → parse_i64 (int_to_string n) ≡ ok n
unfolding int_to_string
parse_i64-int_to_string (pos n) h =
    parse_unsigned (nat_to_string n) n (digits-StartsWithDigit n)
      (scan_digits-nat_to_string (2 ^ 63 - 1) n pos_overflow (omega arith))
parse_i64-int_to_string (negsuc n) h =
    parse_negative (nat_to_string (suc n)) n (digits-StartsWithDigit (suc n))
      (scan_digits-nat_to_string (2 ^ 63) (suc n) neg_overflow (omega arith))
