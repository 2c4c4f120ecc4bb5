-- ===== src/Sdk/Amount/Value.antt =====
-- crates/aelf-sdk/src/lib.rs: the amount that a formatted text stands for.
use aelf_web3_rust.Base.{
  ℕ, suc, ◌-◌, ◌<◌, ◌≡◌, refl, ap, [], ◌++◌, Bool-cases, inl, inr, leb, length, take, drop,
  replicate, take-append-drop, length-append, length-take, length-drop, length-replicate, All,
  All-append, All-replicate, arith,
}
use aelf_web3_rust.Base.Text.{Text, codes}
use aelf_web3_rust.Base.Word.{ℤ, pos, negsuc}
use aelf_web3_rust.Base.Decimal.{nat_to_string}
use aelf_web3_rust.Base.Decimal.Reading.{
  IsDigit, read, read-zeros, read-nat_to_string, nat_to_string-IsDigit,
}
use aelf_web3_rust.Sdk.Amount.{scaled, format_token_amount, unsigned_abs}

-- The two sides of the point: digits, some before it and `scale` after it, that read together as `n`.
pub record IsDecimal (text : Text) (n scale : ℕ) : Type 0 where
  pub whole : Text
  pub fraction : Text
  pub form : text ≡ whole ++ codes "." ++ fraction
  pub digits : All IsDigit (whole ++ fraction)
  pub some_whole : 0 < length whole
  pub places : length fraction ≡ scale
  pub value : read 0 (whole ++ fraction) ≡ n

scaled-IsDecimal :
    (digits : Text) (scale : ℕ)
    → All IsDigit digits
    → IsDecimal (scaled digits scale) (read 0 digits) scale
unfolding scaled
scaled-IsDecimal digits scale all_digits = elim (Bool-cases (leb (length digits) scale)) [
  | inl short ↦
      let zeros : Text = replicate (scale - length digits) b'0' in
      record {
        whole = codes "0";
        fraction = zeros ++ digits;
        form = rw (scaled, short);
        digits = (
          (omega arith, omega arith),
          All-append IsDigit zeros digits (All-replicate IsDigit _ b'0' (omega arith, omega arith))
              all_digits,
        );
        some_whole = omega arith;
        places = ground (
          arith,
          length-append zeros digits,
          length-replicate {A = ℕ} (scale - length digits) b'0',
        );
        value = read-zeros (scale - length digits) digits;
      }
  | inr long ↦
      let split : ℕ = length digits - scale in
      record {
        whole = take split digits;
        fraction = drop split digits;
        form = rw (scaled, long);
        digits = rw (take-append-drop split digits) all_digits;
        some_whole = ground (arith, length-take split digits);
        places = ground (arith, length-drop split digits);
        value = ap (read 0) (take-append-drop split digits);
      }
]

abbrev pub sign : ℤ → Text
sign (pos n) = []
sign (negsuc n) = codes "-"

-- For a positive number of decimals the text is the sign, a minus where the amount is negative, and
-- digits with a point, as many after it as there are decimals and at least one before it; read without
-- the point they are the absolute value of the amount.
pub format_token_amount-IsDecimal :
    (amount : ℤ) (d : ℕ)
    → (text : Text) × (format_token_amount amount (pos (suc d)) ≡ sign amount ++ text)
      × IsDecimal text (unsigned_abs amount) (suc d)
unfolding format_token_amount
format_token_amount-IsDecimal (pos n) d = (
  scaled (nat_to_string n) (suc d),
  refl,
  rw read-nat_to_string at (scaled-IsDecimal (nat_to_string n) (suc d) (nat_to_string-IsDigit n).0),
)
format_token_amount-IsDecimal (negsuc n) d = (
  scaled (nat_to_string (suc n)) (suc d),
  refl,
  rw read-nat_to_string at
      (scaled-IsDecimal (nat_to_string (suc n)) (suc d) (nat_to_string-IsDigit (suc n)).0),
)
