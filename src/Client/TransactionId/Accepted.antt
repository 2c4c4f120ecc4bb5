-- ===== src/Client/TransactionId/Accepted.antt =====
-- crates/aelf-client/src/lib.rs: which transaction ids are accepted.
use aelf_web3_rust.Base.{
  ℕ, ◌≡◌, refl, sym, ap, [], ◌∷◌, ◌++◌, none, some, true, false, ◌&&◌, ◌==◌, Bool-cases,
  Option-cases, inl, inr, ◌⊎◌, ◌↔◌, ok, err, if◌then◌else◌, All, length, ok-injective, arith,
}
use aelf_web3_rust.Base.Text.{Text, codes, len, is_empty, strip_prefix, unwrap_or}
use aelf_web3_rust.Base.Text.Ascii.{
  IsHexDigit, is_ascii_hexdigit, is_ascii_hexdigit→IsHexDigit, IsHexDigit→is_ascii_hexdigit,
  IsHexDigit-IsAscii, len_ascii,
}
use aelf_web3_rust.Base.Text.Trim.{trim}
use aelf_web3_rust.Client.Error.{AElfResult, unexpected_response}
use aelf_web3_rust.Client.TransactionId.{
  all, or_else, strip_transaction_id_quotes, is_valid_transaction_id, validate_transaction_id,
}

-- 64 hexadecimal digits, with or without 0x or 0X before them.
abbrev pub IsTransactionId : Text → Type 0
IsTransactionId t =
    (digits : Text) × ((t ≡ digits) ⊎ (t ≡ codes "0x" ++ digits) ⊎ (t ≡ codes "0X" ++ digits))
    × All IsHexDigit digits
    × (length digits ≡ 64)

all→All : (s : Text) → all is_ascii_hexdigit s ≡ true → All IsHexDigit s
all→All [] h = tt
all→All (c ∷ s) h = elim (Bool-cases (is_ascii_hexdigit c)) [
  | inl e ↦ (is_ascii_hexdigit→IsHexDigit c e, all→All s (rw e at h))
  | inr e ↦ absurd (ground arith)
]

All→all : (s : Text) → All IsHexDigit s → all is_ascii_hexdigit s ≡ true
All→all [] h = refl
All→all (c ∷ s) (hc, hs) = rw (IsHexDigit→is_ascii_hexdigit c hc) (All→all s hs)

strip_prefix-eq-some : (p s : Text) {t : Text} → strip_prefix p s ≡ some t → s ≡ p ++ t
unfolding strip_prefix
strip_prefix-eq-some [] s h = cc
strip_prefix-eq-some (c ∷ p) [] h = absurd (cc)
strip_prefix-eq-some (c ∷ p) (d ∷ s) {t} h = ground (arith, strip_prefix-eq-some p s {t = t})

-- The test on the digits that stand after the prefix.
abbrev IsId : Text → Type 0
IsId digits = All IsHexDigit digits × (length digits ≡ 64)

tested→IsId :
    (digits : Text) → (len digits == 64 && all is_ascii_hexdigit digits) ≡ true → IsId digits
tested→IsId digits h =
    let hex = all→All digits (ground arith) in
    (hex, ground (arith, len_ascii digits (IsHexDigit-IsAscii digits hex)))

IsId→tested :
    (digits : Text) → IsId digits → (len digits == 64 && all is_ascii_hexdigit digits) ≡ true
IsId→tested digits (hex, size) =
    rw (All→all digits hex, len_ascii digits (IsHexDigit-IsAscii digits hex), size)

prefix_digits :
    (c : ℕ) (t : Text)
    → c ≡ b'x' ⊎ c ≡ b'X'
    → All IsHexDigit t
    → strip_prefix (b'0' ∷ c ∷ []) t ≡ none
unfolding strip_prefix
prefix_digits c [] x h = refl
prefix_digits c (a ∷ []) x h = ground arith
prefix_digits c (a ∷ b ∷ t) x h = ground arith

-- The digits of a candidate.
abbrev digits_of : Text → Text
digits_of candidate =
    unwrap_or (or_else (strip_prefix (codes "0x") candidate) (strip_prefix (codes "0X") candidate))
      candidate

abbrev Form : Text → Text → Type 0
Form t digits = (t ≡ digits) ⊎ (t ≡ codes "0x" ++ digits) ⊎ (t ≡ codes "0X" ++ digits)

digits_of-Form : (t : Text) → Form t (digits_of t)
digits_of-Form t = elim (Option-cases (strip_prefix (codes "0x") t)) [
  | inr (s, e) ↦ inr (inl (rw e (strip_prefix-eq-some (codes "0x") t e)))
  | inl e ↦ rw e (elim (Option-cases (strip_prefix (codes "0X") t)) [
    | inr (s, e') ↦ inr (inr (rw e' (strip_prefix-eq-some (codes "0X") t e')))
    | inl e' ↦ inl (rw e')
  ])
]

digits_of_lem : (t digits : Text) → Form t digits → All IsHexDigit digits → digits_of t ≡ digits
unfolding strip_prefix
digits_of_lem t digits (inl e) h =
    rw (e, prefix_digits b'x' digits (inl refl) h, prefix_digits b'X' digits (inr refl) h)
digits_of_lem t digits (inr (inl e)) h = rw e
digits_of_lem t digits (inr (inr e)) h = rw e

-- A value is valid exactly where its text without quotes is a transaction id.
pub is_valid_transaction_id_iff :
    (value : Text)
    → (is_valid_transaction_id value ≡ true) ↔ IsTransactionId (strip_transaction_id_quotes value)
unfolding is_valid_transaction_id
is_valid_transaction_id_iff value =
    let candidate = strip_transaction_id_quotes value in
    (
      (λ h.
          let (hex, size) = tested→IsId (digits_of candidate) h in
          (digits_of candidate, digits_of-Form candidate, hex, size)),
      λ (digits, form, hex, size).
          rw (digits_of_lem candidate digits form hex) (IsId→tested digits (hex, size)),
    )

is_valid_transaction_id_empty : is_valid_transaction_id [] ≡ false
unfolding is_valid_transaction_id strip_transaction_id_quotes trim strip_prefix
is_valid_transaction_id_empty = refl

-- The answer for a text without its quotes.
abbrev answer : {H : Type 0} → Text → Text → AElfResult H Text
answer stripped raw =
    if is_empty stripped
    then err (unexpected_response (codes "empty sendTransaction response"))
    else if is_valid_transaction_id stripped
    then ok stripped
    else err (
        unexpected_response
          (codes "sendTransaction returned a non-transaction id payload: " ++ raw))

answer_iff :
    {H : Type 0} (s raw t : Text)
    → (answer {H = H} s raw ≡ ok t) ↔ ((t ≡ s) × (is_valid_transaction_id t ≡ true))
answer_iff [] raw t = (
  (λ h. absurd (cc)),
  λ (e, h). absurd (ground (arith, is_valid_transaction_id_empty, ap is_valid_transaction_id e)),
)
answer_iff (c ∷ s) raw t = elim (Bool-cases (is_valid_transaction_id (c ∷ s))) [
  | inl e ↦ (
    (λ h. let same : c ∷ s ≡ t = ok-injective (rw e at h) in (sym same, rw same at e)),
    λ (same, h). rw (e, same),
  )
  | inr e ↦ (
    (λ h. absurd (ground arith)),
    λ (same, h). absurd (ground (arith, ap is_valid_transaction_id same)),
  )
]

-- A response is accepted as `t` exactly where `t` is its text without whitespace and one pair of quotes
-- around it and, taken once more out of whitespace and quotes, a transaction id: 64 hexadecimal digits
-- with or without a prefix 0x or 0X.
pub validate_transaction_id_iff :
    {H : Type 0} (value raw t : Text)
    → (validate_transaction_id {H = H} value raw ≡ ok t)
      ↔ ((t ≡ strip_transaction_id_quotes value) × IsTransactionId (strip_transaction_id_quotes t))
unfolding validate_transaction_id
validate_transaction_id_iff {H = H} value raw t =
    let stripped = answer_iff {H = H} (strip_transaction_id_quotes value) raw t in
    let valid = is_valid_transaction_id_iff t in
    ((λ h. let (e, v) = stripped.0 h in (e, valid.0 v)), λ (e, id). stripped.1 (e, valid.1 id))
