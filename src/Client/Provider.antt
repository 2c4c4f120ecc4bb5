-- ===== src/Client/Provider.antt =====
-- crates/aelf-client/src/provider.rs: `HttpProvider`. The network is the outcome of each attempt, numbered
-- from 0, and what the provider does is the list of its events.
pub mod Retries
pub mod Requests
use aelf_web3_rust.Base.{
  ℕ, zero, suc, ◌+◌, ◌++◌, List, [], ◌∷◌, Option, none, some, Bool, true, false, not, ◌&&◌, ◌||◌,
  ◌==◌, Result, ok, err, panic, ◌>>=◌, ◌>>◌, map_err, if◌then◌else◌,
}
use aelf_web3_rust.Base.Text.{Text, Bytes, codes}
use aelf_web3_rust.Base.Text.Trim.{trim_start_matches, trim_end_matches}
use aelf_web3_rust.Base.Json.{Value}
use aelf_web3_rust.Client.Crates.{HttpCrate}
use aelf_web3_rust.Client.Config.{Duration, saturating_mul, BasicAuth, ClientConfig}
use aelf_web3_rust.Client.Error.{
  AElfError, AElfResult, http, json, WebAppErrorResponse, from_response,
}

-- http::Method.
pub data Method : Type 0 where
  get post delete : Method

abbrev pub Query : Type 0
Query = List (Text × Text)

abbrev is_get : Method → Bool
is_get get = true
is_get post = false
is_get delete = false

module _ (http_crate : HttpCrate) where
  open http_crate use {
    HttpError, is_connect, is_timeout, is_request, is_body, StatusCode, is_success, is_server_error,
    HeaderName, HeaderValue, to_str, entries, accept, content_type, value_from_text, json_from_str,
  }

  -- reqwest::RequestBuilder: the calls that fill it.
  pub record RequestBuilder : Type 0 where
    pub method : Method
    pub url : Text
    pub headers : List (HeaderName × HeaderValue)
    pub auth : Option (Text × Text)
    pub query : Query
    pub body : Option Value

  -- An event of the loop: a request sent, or a sleep.
  pub data Event : Type 0 where
    sent : RequestBuilder → Event
    slept : Duration → Event

  -- reqwest::Response: reading its text can fail.
  pub record Response : Type 0 where
    pub status : StatusCode
    pub headers : Text → Option HeaderValue
    pub text : Result HttpError Text

  unfoldable pub make_url : Text → Text → Text
  make_url endpoint path =
      trim_end_matches endpoint b'/' ++ codes "/" ++ trim_start_matches path b'/'

  unfoldable pub versioned_content_type : Option Text → Text
  versioned_content_type (some version) = codes "application/json;v=" ++ version
  versioned_content_type none = codes "application/json"

  unfoldable pub build_request :
      ClientConfig http_crate → Method → Text → Query → Option Value → RequestBuilder
  unfolding versioned_content_type
  build_request config method url query body =
      let media_type = value_from_text (versioned_content_type config.api_version) in
      record {
        method = method;
        url = url;
        headers =
            (accept, media_type)
            ∷ ((if not (is_get method) then (content_type, media_type) ∷ [] else [])
                ++ entries config.headers);
        auth = elim config.basic_auth [
          | none ↦ none
          | some auth ↦ some (auth.username, auth.password)
        ];
        query = query;
        body = body;
      }

  unfoldable pub should_retry_status : StatusCode → Bool
  should_retry_status status = is_server_error status

  unfoldable pub should_retry_error : HttpError → Bool
  should_retry_error error =
      is_connect error || is_timeout error || is_request error || is_body error

  unfoldable pub sleep_before_retry : Duration → List Event
  sleep_before_retry backoff = if not (backoff == 0) then slept backoff ∷ [] else []

  -- `get("x-request-id").or_else(get("request-id")).and_then(to_str)`.
  unfoldable pub request_id : Response → Option Text
  request_id response = elim (response.headers (codes "x-request-id")) [
    | some value ↦ to_str value
    | none ↦ elim (response.headers (codes "request-id")) [
      | some value ↦ to_str value
      | none ↦ none
    ]
  ]

  -- What the body of the loop does with an outcome: to retry it, where a retry is left, or to return.
  unfoldable pub retries : Result HttpError Response → Bool
  unfolding should_retry_error should_retry_status
  retries (err error) = should_retry_error error
  retries panic = false
  retries (ok response) = elim response.text [
    | err error ↦ should_retry_error error
    | panic ↦ false
    | ok text ↦ not (is_success response.status) && should_retry_status response.status
  ]

  module _ (parse : Text → Option WebAppErrorResponse)
      (network : ℕ → RequestBuilder → Result HttpError Response) where
    unfoldable pub conclude : Text → Result HttpError Response → AElfResult HttpError Text
    unfolding from_response request_id
    conclude url (err error) = err (http error)
    conclude url panic = panic
    conclude url (ok response) = do
      text ← map_err http response.text
      (if is_success response.status
          then ok text
          else err (from_response http_crate parse url response.status (request_id response) text))

    -- The loop, from the attempt numbered `attempt`. Each round builds the same request.
    unfoldable pub request_loop :
        RequestBuilder → Text → ℕ → ℕ → Duration → AElfResult HttpError Text × List Event
    unfolding retries conclude sleep_before_retry
    request_loop request url attempt zero backoff =
        (conclude url (network attempt request), sent request ∷ [])
    request_loop request url attempt (suc max_retries) backoff =
        elim (retries (network attempt request)) [
          | true ↦
              let rest =
                request_loop request url (suc attempt) max_retries (saturating_mul backoff 2) in
              (rest.0, sent request ∷ (sleep_before_retry backoff ++ rest.1))
          | false ↦ (conclude url (network attempt request), sent request ∷ [])
        ]

    unfoldable pub request_text :
        ClientConfig http_crate
        → Method
        → Text
        → Query
        → Option Value
        → AElfResult HttpError Text × List Event
    unfolding make_url request_loop build_request
    request_text config method path query body =
        let url = make_url config.endpoint path in
        request_loop (build_request config method url query body) url 0
          config.retry_policy.max_retries config.retry_policy.initial_backoff

    unfoldable pub request_json :
        ClientConfig http_crate
        → Method
        → Text
        → Query
        → Option Value
        → AElfResult HttpError Value × List Event
    unfolding request_text
    request_json config method path query body =
        let (text, events) = request_text config method path query body in
        (text >>= (λ t. map_err json (json_from_str t)), events)
