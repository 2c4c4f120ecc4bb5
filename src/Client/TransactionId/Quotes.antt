-- ===== src/Client/TransactionId/Quotes.antt =====
-- crates/aelf-client/src/lib.rs: a transaction id in quotes.
use aelf_web3_rust.Base.{
  ℕ, ◌≡◌, refl, sym, [], ◌∷◌, ◌++◌, none, some, false, ◌==◌, inl, inr, ok, All, All-append, arith,
}
use mathlib.Core.List.{reverse, reverse-append, reverse-reverse}
use aelf_web3_rust.Base.Text.{Text, codes, strip_prefix, strip_suffix}
use aelf_web3_rust.Base.Text.Ascii.{IsHexDigit}
use aelf_web3_rust.Base.Text.Trim.{
  trim, trim_start, trim_end, is_whitespace, trim_start-cons, trim_end-concat,
}
use aelf_web3_rust.Client.TransactionId.{strip_transaction_id_quotes, validate_transaction_id}
use aelf_web3_rust.Client.TransactionId.Accepted.{IsTransactionId, validate_transaction_id_iff}

-- Neither whitespace nor a quote.
abbrev IsPlain : ℕ → Type 0
IsPlain c = (is_whitespace c ≡ false) × ((c == b'"') ≡ false)

hex-IsPlain : (c : ℕ) → IsHexDigit c → IsPlain c
unfolding is_whitespace
hex-IsPlain c h = (ground arith, ground arith)

All-IsPlain : (s : Text) → All IsHexDigit s → All IsPlain s
All-IsPlain [] h = tt
All-IsPlain (c ∷ s) (hc, hs) = (hex-IsPlain c hc, All-IsPlain s hs)

IsTransactionId-IsPlain : (t : Text) → IsTransactionId t → All IsPlain t
unfolding is_whitespace
IsTransactionId-IsPlain t (digits, form, hex, size) = elim form [
  | inl e ↦ rw e (All-IsPlain digits hex)
  | inr (inl e) ↦ rw e ((refl, refl), ((refl, refl), All-IsPlain digits hex))
  | inr (inr e) ↦ rw e ((refl, refl), ((refl, refl), All-IsPlain digits hex))
]

trim_start-plain : (s : Text) → All IsPlain s → trim_start is_whitespace s ≡ s
unfolding trim_start
trim_start-plain [] h = refl
trim_start-plain (c ∷ s) h = trim_start-cons is_whitespace c s h.0.0

All-reverse : (s : Text) → All IsPlain s → All IsPlain (reverse s)
All-reverse [] h = tt
All-reverse (c ∷ s) (hc, hs) =
    rw (reverse-append (c ∷ []) s)
      (All-append IsPlain (reverse s) (c ∷ []) (All-reverse s hs) (hc, tt))

trim-plain : (s : Text) → All IsPlain s → trim s ≡ s
unfolding trim trim_end
trim-plain s h =
    rw (trim_start-plain s h, trim_start-plain (reverse s) (All-reverse s h)) (reverse-reverse s)

strip_suffix-concat : (s : Text) (c : ℕ) → strip_suffix (s ++ c ∷ []) c ≡ some s
unfolding strip_suffix
strip_suffix-concat s c = rw (reverse-append s (c ∷ []), reverse-reverse s) (ground arith)

no_quote : (s : Text) → All IsPlain s → strip_prefix (codes "\"") s ≡ none
unfolding strip_prefix
no_quote [] h = refl
no_quote (c ∷ s) h = ground arith

strip_transaction_id_quotes-plain : (t : Text) → All IsPlain t → strip_transaction_id_quotes t ≡ t
unfolding strip_transaction_id_quotes
strip_transaction_id_quotes-plain t h = rw (trim-plain t h, no_quote t h)

abbrev pub quoted : Text → Text
quoted t = b'"' ∷ (t ++ b'"' ∷ [])

trim-quoted : (t : Text) → trim (quoted t) ≡ quoted t
unfolding trim is_whitespace
trim-quoted t =
    rw (trim_start-cons is_whitespace b'"' (t ++ b'"' ∷ []) refl)
      (trim_end-concat is_whitespace (b'"' ∷ t) b'"' refl)

strip_transaction_id_quotes-quoted : (t : Text) → strip_transaction_id_quotes (quoted t) ≡ t
unfolding strip_transaction_id_quotes strip_prefix
strip_transaction_id_quotes-quoted t = rw (trim-quoted t, strip_suffix-concat t b'"')

-- A transaction id, 64 hexadecimal digits with or without a prefix 0x or 0X, is accepted as it is, and
-- in quotes as what stands between them.
pub validate_transaction_id-quoted :
    {H : Type 0} (raw t : Text)
    → IsTransactionId t
    → (validate_transaction_id {H = H} t raw ≡ ok t)
      × (validate_transaction_id {H = H} (quoted t) raw ≡ ok t)
validate_transaction_id-quoted {H = H} raw t id =
    let same = strip_transaction_id_quotes-plain t (IsTransactionId-IsPlain t id) in
    (
      (validate_transaction_id_iff {H = H} t raw t).1 (sym same, rw same id),
      (validate_transaction_id_iff {H = H} (quoted t) raw t).1
          (sym (strip_transaction_id_quotes-quoted t), rw same id),
    )
