-- ===== src/Client/TransactionId.antt =====
-- crates/aelf-client/src/lib.rs: the checks on a transaction id.
pub mod Accepted
pub mod Quotes
use aelf_web3_rust.Base.{
  ℕ, ◌++◌, Option, none, some, Bool, true, false, ◌&&◌, ◌==◌, Result, ok, err, if◌then◌else◌, List,
  [], ◌∷◌,
}
use aelf_web3_rust.Base.Text.{Text, codes, len, is_empty, strip_prefix, strip_suffix, unwrap_or}
use aelf_web3_rust.Base.Text.Ascii.{is_ascii_hexdigit}
use aelf_web3_rust.Base.Text.Trim.{trim}
use aelf_web3_rust.Client.Error.{AElfResult, unexpected_response}

-- `o.and_then(f)`, `o.or_else(|| p)` and `s.chars().all(p)`.
abbrev pub and_then : Option Text → (Text → Option Text) → Option Text
and_then none f = none
and_then (some s) f = f s

abbrev pub or_else : Option Text → Option Text → Option Text
or_else (some s) other = some s
or_else none other = other

abbrev pub all : (ℕ → Bool) → Text → Bool
all p [] = true
all p (c ∷ s) = p c && all p s

unfoldable pub strip_transaction_id_quotes : Text → Text
unfolding strip_prefix strip_suffix trim
strip_transaction_id_quotes value =
    let trimmed = trim value in
    unwrap_or
      (and_then (strip_prefix (codes "\"") trimmed) (λ unquoted. strip_suffix unquoted b'"'))
      trimmed

unfoldable pub is_valid_transaction_id : Text → Bool
unfolding strip_transaction_id_quotes strip_prefix len is_ascii_hexdigit
is_valid_transaction_id value =
    let candidate = strip_transaction_id_quotes value in
    let digits =
      unwrap_or
        (or_else (strip_prefix (codes "0x") candidate) (strip_prefix (codes "0X") candidate))
        candidate in
    len digits == 64 && all is_ascii_hexdigit digits

unfoldable pub validate_transaction_id : {H : Type 0} → Text → Text → AElfResult H Text
unfolding strip_transaction_id_quotes is_valid_transaction_id
validate_transaction_id transaction_id raw_response =
    let stripped = strip_transaction_id_quotes transaction_id in
    if is_empty stripped
    then err (unexpected_response (codes "empty sendTransaction response"))
    else if is_valid_transaction_id stripped
    then ok stripped
    else err (
        unexpected_response
          (codes "sendTransaction returned a non-transaction id payload: " ++ raw_response))
