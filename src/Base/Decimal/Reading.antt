-- ===== src/Base/Decimal/Reading.antt =====
-- The number that a text of digits stands for, and the digits of a number.
use aelf_web3_rust.Base.{
  ℕ, zero, suc, ◌+◌, ◌-◌, ◌*◌, ◌/◌, ◌%◌, ◌≤◌, ◌<◌, ◌≡◌, refl, [], ◌∷◌, ◌++◌, Bool-cases, inl, inr,
  ltb, ltb→lt, length, replicate, length-append, All, All-append, arith,
}
use aelf_web3_rust.Base.Text.{Text}
use aelf_web3_rust.Base.Decimal.{digits_fuel, nat_to_string}

abbrev pub IsDigit : ℕ → Type 0
IsDigit c = (b'0' ≤ c) × (c ≤ b'9')

-- The digits of `s` after those of `n`.
abbrev pub read : ℕ → Text → ℕ
read n [] = n
read n (c ∷ s) = read (n * 10 + (c - b'0')) s

pub read-append : (n : ℕ) (s t : Text) → read n (s ++ t) ≡ read (read n s) t
read-append n [] t = refl
read-append n (c ∷ s) t = read-append (n * 10 + (c - b'0')) s t

pub read-zeros : (k : ℕ) (s : Text) → read 0 (replicate k b'0' ++ s) ≡ read 0 s
read-zeros zero s = refl
read-zeros (suc k) s = read-zeros k s

read-digits_fuel : (fuel n : ℕ) → n ≤ fuel + 9 → read 0 (digits_fuel fuel n) ≡ n
unfolding digits_fuel
read-digits_fuel zero n enough = omega arith
read-digits_fuel (suc fuel) n enough = elim (Bool-cases (ltb n 10)) [
  | inl small ↦ rw (digits_fuel, small) (omega arith)
  | inr large ↦
      rw
        (
          digits_fuel,
          large,
          read-append 0 (digits_fuel fuel (n / 10)) ((b'0' + n % 10) ∷ []),
          read-digits_fuel fuel (n / 10) (ground arith),
        )
        (omega arith)
]

digits_fuel-IsDigit :
    (fuel n : ℕ) → All IsDigit (digits_fuel fuel n) × (0 < length (digits_fuel fuel n))
unfolding digits_fuel
digits_fuel-IsDigit zero n = (((omega arith, omega arith), tt), omega arith)
digits_fuel-IsDigit (suc fuel) n = elim (Bool-cases (ltb n 10)) [
  | inl small ↦
      rw (digits_fuel, small) (((omega arith, omega (arith, ltb→lt n 10 small)), tt), omega arith)
  | inr large ↦
      let (digits, some_digit) = digits_fuel-IsDigit fuel (n / 10) in
      let last = (b'0' + n % 10) ∷ [] in
      rw (digits_fuel, large)
        (
          All-append IsDigit (digits_fuel fuel (n / 10)) last digits
              ((omega arith, omega arith), tt),
          omega (arith, length-append (digits_fuel fuel (n / 10)) last),
        )
]

pub read-nat_to_string : (n : ℕ) → read 0 (nat_to_string n) ≡ n
unfolding nat_to_string
read-nat_to_string n = read-digits_fuel n n (omega arith)

pub nat_to_string-IsDigit : (n : ℕ) → All IsDigit (nat_to_string n) × (0 < length (nat_to_string n))
unfolding nat_to_string
nat_to_string-IsDigit n = digits_fuel-IsDigit n n
