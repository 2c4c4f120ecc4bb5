-- ===== src/Client/Http/Height.antt =====
-- crates/aelf-client/src/lib.rs: `get_block_height` over `HttpProvider`.
use aelf_web3_rust.Base.{
  ◌≡◌, refl, ℕ, zero, suc, ◌+◌, ◌/◌, ◌≤◌, ◌<◌, ◌++◌, [], Option, none, true, false, Bool-cases, inl,
  inr, Result, ok, ltb, ltb→lt, ◌==◌, replicate, All-append, arith,
}
use aelf_web3_rust.Base.Text.{Text, codes}
use aelf_web3_rust.Base.Text.Around.{Without, trim_matches-replicate}
use aelf_web3_rust.Base.Word.{ℤ, pos, negsuc, IsI64}
use aelf_web3_rust.Base.Decimal.{digits_fuel, nat_to_string, int_to_string}
use aelf_web3_rust.Base.Decimal.RoundTrip.{parse_i64-int_to_string}
use aelf_web3_rust.Client.Crates.{HttpCrate}
use aelf_web3_rust.Client.Config.{duration_max, ClientConfig}
use aelf_web3_rust.Client.Error.{WebAppErrorResponse}
use aelf_web3_rust.Client.Provider.{get, RequestBuilder, Response, make_url, build_request, retries}
use aelf_web3_rust.Client.Service.{api_base, get_text, get_block_height}
use aelf_web3_rust.Client.Http.{Wire, http_provider}
use aelf_web3_rust.Client.Http.Sends.{request_text-succeeds}

digits_fuel-Without : (fuel n : ℕ) → Without b'"' (digits_fuel fuel n)
unfolding digits_fuel
digits_fuel-Without zero n = (ground arith, tt)
digits_fuel-Without (suc fuel) n = elim (Bool-cases (ltb n 10)) [
  | inl e ↦ rw (digits_fuel, e) (ground (arith, ltb→lt n 10 e), tt)
  | inr e ↦
      rw (digits_fuel, e)
        (All-append (λ d. (d == b'"') ≡ false) (digits_fuel fuel (n / 10)) _
          (digits_fuel-Without fuel (n / 10)) (ground arith, tt))
]

int_to_string-Without : (h : ℤ) → Without b'"' (int_to_string h)
unfolding int_to_string nat_to_string
int_to_string-Without (pos n) = digits_fuel-Without n n
int_to_string-Without (negsuc n) = (refl, digits_fuel-Without (suc n) (suc n))

module _ (http_crate : HttpCrate) (parse : Text → Option WebAppErrorResponse)
    (network : ℕ → RequestBuilder http_crate → Result http_crate.HttpError (Response http_crate))
    (config : ClientConfig http_crate) (wire : Wire http_crate) where
  open http_crate use {HttpError, is_success}

  -- The request for the height.
  abbrev pub height_request : RequestBuilder http_crate
  height_request =
      build_request http_crate config get
        (make_url http_crate config.endpoint (api_base ++ codes "/blockHeight")) [] none

  -- Where the first wait of the policy is a duration: if the outcomes of the next `n` attempts are to
  -- be retried, `n` is not more than the retries of the policy, and the attempt after them is a success
  -- whose text is an `i64` in decimal with any number of quotes around it, then `get_block_height` over
  -- `HttpProvider` returns that height.
  pub get_block_height-succeeds :
      config.retry_policy.initial_backoff ≤ duration_max
      → (n : ℕ) (response : Response http_crate) (height : ℤ) (before after : ℕ)
      → n ≤ config.retry_policy.max_retries
      → ((k : ℕ) → k < n → retries http_crate (network (wire.attempts + k) height_request) ≡ true)
      → network (wire.attempts + n) height_request ≡ ok response
      → is_success response.status ≡ true
      → response.text ≡ ok (replicate before b'"' ++ (int_to_string height ++ replicate after b'"'))
      → IsI64 height
      → (get_block_height (http_provider http_crate parse network config) wire).0 ≡ ok height
  unfolding get_block_height get_text
  get_block_height-succeeds fits n response height before after allowed failing answered good read
        fits_i64 =
      let text = replicate before b'"' ++ (int_to_string height ++ replicate after b'"') in
      let got =
        request_text-succeeds http_crate parse network config get (api_base ++ codes "/blockHeight")
          [] none wire fits n response text allowed failing answered good read in
      let trimmed =
        trim_matches-replicate (int_to_string height) before after b'"'
          (int_to_string-Without height) in
      rw (got, trimmed, parse_i64-int_to_string height fits_i64)
