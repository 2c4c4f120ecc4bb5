-- ===== src/Tests/Payloads.antt =====
-- The payloads of aelf-client and the amounts of aelf-sdk at concrete inputs.
use aelf_web3_rust.Base.{
  ◌≡◌, refl, [], ◌∷◌, ◌++◌, List, Option, none, some, Result, ok, err, panic, All, ◌⊎◌, inl, inr,
  arith,
}
use aelf_web3_rust.Base.Text.{Text, Bytes, codes}
use aelf_web3_rust.Base.Word.{ℤ, pos, negsuc, IsI64}
use aelf_web3_rust.Base.Decimal.{int_to_string, parse_i64, invalid_digit}
use aelf_web3_rust.Base.Decimal.RoundTrip.{parse_i64-int_to_string}
use aelf_web3_rust.Base.Json.{null, Ascending, text_ltb}
use aelf_web3_rust.Client.Dto.{
  LogEventDto, TransactionResultDto, ChargedEvent, HashMap, lookup, get_transaction_fees,
}
use aelf_web3_rust.Client.Dto.Fees.{last_charge, lookup-get_transaction_fees}
use aelf_web3_rust.Client.Dto.Heights.{
  IsBranch, Has, SameBranches, reading, hash_to_height, height_to_hash, hash_to_number,
  block_height_map_as_default-spellings,
}
use aelf_web3_rust.Sdk.Amount.{format_token_amount, unsigned_abs}
use aelf_web3_rust.Sdk.Amount.Value.{IsDecimal, sign, format_token_amount-IsDecimal}

-- The fees: the event is its own bytes, a symbol of one letter before its amount.
abbrev event_of : Bytes → Result Text ChargedEvent
event_of (symbol ∷ amount ∷ []) = ok (record { symbol = symbol ∷ []; amount = pos amount })
event_of _ = err (codes "bad event")

abbrev fee_log : Text → Text → LogEventDto
fee_log name text = record { address = []; name = name; indexed = []; non_indexed = text }

abbrev result : TransactionResultDto
result = record {
  transaction_id = [];
  status = codes "MINED";
  logs =
      fee_log (codes "TransactionFeeCharged") (codes "E1")
      ∷ fee_log (codes "Transferred") (codes "E9")
      ∷ fee_log (codes "ResourceTokenCharged") (codes "E2")
      ∷ [];
  bloom = [];
  transaction = null;
  return_value = [];
  block_number = pos 1;
  block_hash = [];
  error = [];
}

lookup-get_transaction_fees_example :
    lookup (codes "E") (get_transaction_fees (λ t. ok t) event_of event_of result)
    ≡ last_charge (λ t. ok t) event_of event_of (codes "E") result.logs
lookup-get_transaction_fees_example =
    lookup-get_transaction_fees (λ t. ok t) event_of event_of result (codes "E")

charged :
    lookup (codes "E") (get_transaction_fees (λ t. ok t) event_of event_of result) ≡ some (pos b'2')
unfolding lookup get_transaction_fees
charged = refl

abbrev as_number : Text → Option ℤ
as_number t = elim (parse_i64 t) [ ok n ↦ some n | err _ ↦ none | panic ↦ none ]

as_number-int_to_string : (n : ℤ) → IsI64 n → as_number (int_to_string n) ≡ some n
as_number-int_to_string n h = rw (as_number, parse_i64-int_to_string n h)

abbrev by_hash : List (Text × ℤ)
by_hash = (codes "a", pos 9) ∷ (codes "b", pos 10) ∷ []

abbrev by_height : List (Text × ℤ)
by_height = (codes "b", pos 10) ∷ (codes "a", pos 9) ∷ []

by_hash-IsBranch : All IsBranch by_hash
unfolding parse_i64
by_hash-IsBranch =
    (((invalid_digit, refl), omega arith), (((invalid_digit, refl), omega arith), tt))

by_height-IsBranch : All IsBranch by_height
unfolding parse_i64
by_height-IsBranch =
    (((invalid_digit, refl), omega arith), (((invalid_digit, refl), omega arith), tt))

swaps : {A B : Type 0} → A ⊎ (B ⊎ ⊥) → B ⊎ (A ⊎ ⊥)
swaps (inl a) = inr (inl a)
swaps (inr (inl b)) = inl b
swaps (inr (inr h)) = absurd h

same : SameBranches by_hash by_height
same hash height = (swaps, swaps)

texts : Ascending (hash_to_height by_hash)
unfolding text_ltb
texts = ((refl, tt), (tt, tt))

numbers : Ascending (hash_to_number int_to_string by_hash)
unfolding text_ltb
numbers = ((refl, tt), (tt, tt))

-- "10" stands before "9".
inverted : Ascending (height_to_hash by_height)
unfolding text_ltb int_to_string
inverted = ((refl, tt), (tt, tt))

block_height_map_as_default-spellings_example :
    (m m' : HashMap ℤ) × (reading as_number
        (λ _. [])
        (record { entries = hash_to_height by_hash; ascending = texts })
      ≡ ok m)
    × (reading as_number
          (λ _. [])
          (record { entries = hash_to_number int_to_string by_hash; ascending = numbers })
        ≡ ok m)
    × (reading as_number
          (λ _. [])
          (record { entries = height_to_hash by_height; ascending = inverted })
        ≡ ok m')
    × ((hash : Text) → lookup hash m ≡ lookup hash m')
    × ((hash : Text) (height : ℤ) → Has hash height by_hash → lookup hash m ≡ some height)
block_height_map_as_default-spellings_example =
    block_height_map_as_default-spellings as_number (λ _. []) int_to_string by_hash by_height
      as_number-int_to_string by_hash-IsBranch by_height-IsBranch same texts numbers inverted

format_token_amount-IsDecimal_example :
    (text : Text) × (format_token_amount (negsuc 4) (pos 2) ≡ sign (negsuc 4) ++ text)
    × IsDecimal text (unsigned_abs (negsuc 4)) 2
format_token_amount-IsDecimal_example = format_token_amount-IsDecimal (negsuc 4) 1

formatted : format_token_amount (negsuc 4) (pos 2) ≡ codes "-0.05"
unfolding format_token_amount
formatted = refl
