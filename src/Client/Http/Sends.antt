-- ===== src/Client/Http/Sends.antt =====
-- crates/aelf-client/src/provider.rs: the requests that a call of `HttpProvider` sends, and when it succeeds.
use aelf_web3_rust.Base.{
  ◌≡◌, refl, sym, ap, ◌∙◌, ℕ, zero, suc, ◌+◌, ◌≤◌, ◌<◌, ◌==◌, ◌++◌, List, Option, true, false,
  Bool-cases, inl, inr, Result, ok, arith,
}
use native.Mathlib.Decide.{dec_lt}
use aelf_web3_rust.Base.Text.{Text}
use aelf_web3_rust.Base.Json.{Value}
use aelf_web3_rust.Client.Crates.{HttpCrate}
use aelf_web3_rust.Client.Config.{Duration, duration_max, ClientConfig}
use aelf_web3_rust.Client.Error.{WebAppErrorResponse}
use aelf_web3_rust.Client.Provider.{
  Method, Query, RequestBuilder, Response, Event, make_url, build_request, sleep_before_retry,
  retries, conclude,
}
use aelf_web3_rust.Client.Provider.Retries.{schedule, AllRetried, StopsAfter, request_text_lem}
use aelf_web3_rust.Client.Http.{Wire, count_sent, ahead, http_provider}

differ : ¬ (true ≡ false)
differ h = cc

module _ (http_crate : HttpCrate) where
  open http_crate use {HttpError, is_success}

  count_sent-sleep :
      (wait : Duration) (events : List (Event http_crate))
      → count_sent http_crate (sleep_before_retry http_crate wait ++ events)
        ≡ count_sent http_crate events
  unfolding sleep_before_retry
  count_sent-sleep wait events = elim (Bool-cases (wait == 0)) [
    | inl e ↦ rw (sleep_before_retry, e)
    | inr e ↦ rw (sleep_before_retry, e)
  ]

  count_sent-schedule :
      (request : RequestBuilder http_crate) (initial j n : ℕ)
      → count_sent http_crate (schedule http_crate request initial j n) ≡ suc n
  count_sent-schedule request initial j zero = refl
  count_sent-schedule request initial j (suc n) = ap suc (
      count_sent-sleep _ (schedule http_crate request initial (suc j) n)
      ∙ count_sent-schedule request initial (suc j) n)

  retried_at :
      (parse : Text → Option WebAppErrorResponse)
      (network : ℕ → RequestBuilder http_crate → Result HttpError (Response http_crate))
      (request : RequestBuilder http_crate) (j n k : ℕ)
      → AllRetried http_crate parse network request j n
      → k < n
      → retries http_crate (network (j + k) request) ≡ true
  retried_at parse network request j zero k all h = absurd (omega arith)
  retried_at parse network request j (suc n) zero (first, rest) h =
      let e : j + 0 ≡ j = omega arith in rw e first
  retried_at parse network request j (suc n) (suc k) (first, rest) h =
      let e : j + suc k ≡ suc j + k = omega arith in
      rw e (retried_at parse network request (suc j) n k rest (omega arith))

  module _ (parse : Text → Option WebAppErrorResponse)
      (network : ℕ → RequestBuilder http_crate → Result HttpError (Response http_crate)) where
    retries-success :
        (response : Response http_crate) (text : Text)
        → is_success response.status ≡ true
        → response.text ≡ ok text
        → retries http_crate (ok response) ≡ false
    unfolding retries
    retries-success response text good read = rw (retries, read, good)

    conclude-success :
        (url : Text) (response : Response http_crate) (text : Text)
        → is_success response.status ≡ true
        → response.text ≡ ok text
        → conclude http_crate parse network url (ok response) ≡ ok text
    unfolding conclude
    conclude-success url response text good read = rw (conclude, read, good)

    module _ (config : ClientConfig http_crate) (method : Method) (path : Text) (query : Query)
        (body : Option Value) (wire : Wire http_crate)
        (fits : config.retry_policy.initial_backoff ≤ duration_max) where
      open http_provider http_crate parse network config use {request_text as send_text}

      abbrev own_url : Text
      own_url = make_url http_crate config.endpoint path

      abbrev own_request : RequestBuilder http_crate
      own_request = build_request http_crate config method own_url query body

      -- Where the first wait of the policy is a duration, from every state of the wire and whatever the
      -- network does, a request for a text ends: after a number `n` of retries that the policy allows
      -- it has used `n` + 1 attempts, its events are those of the schedule, behind the earlier ones,
      -- and its result is what is concluded from the last attempt.
      pub request_text-sends :
          (n : ℕ) × (n ≤ config.retry_policy.max_retries)
          × (send_text method path query body wire ≡ (
            conclude http_crate parse network own_url (network (wire.attempts + n) own_request),
            record {
              attempts = wire.attempts + suc n;
              events =
                  wire.events
                  ++ schedule http_crate own_request config.retry_policy.initial_backoff 0 n;
            },
          ))
      unfolding conclude
      request_text-sends =
          let (n, (le, all, stop), e) =
            request_text_lem http_crate parse (ahead http_crate parse network wire) config method
              path query body fits in
          (n, le, rw (e, count_sent-schedule own_request config.retry_policy.initial_backoff 0 n))

      same_number :
          (m n : ℕ)
          → StopsAfter http_crate parse
              (ahead http_crate parse network wire)
              own_request
              config.retry_policy.max_retries
              0
              m
          → n ≤ config.retry_policy.max_retries
          → ((k : ℕ) → k < n → retries http_crate (network (wire.attempts + k) own_request) ≡ true)
          → retries http_crate (network (wire.attempts + n) own_request) ≡ false
          → m ≡ n
      same_number m n (le, all, stop) allowed before last = elim (dec_lt m n) [
        | yes h ↦ elim stop [
          | inl all_used ↦ absurd (omega arith)
          | inr ended ↦
              let here : 0 + m ≡ m = omega arith in
              absurd (differ (sym (before m h) ∙ (rw here at ended)))
        ]
        | no h ↦ elim (dec_lt n m) [
          | yes h' ↦
              let here : 0 + n ≡ n = omega arith in
              let again =
                retried_at parse (ahead http_crate parse network wire) own_request 0 m n all h' in
              absurd (differ (sym (rw here at again) ∙ last))
          | no h' ↦ omega arith
        ]
      ]

      -- Where the outcomes of the next `n` attempts are to be retried, `n` is not more than the retries of the
      -- policy, and the attempt after them is a success with a text, the request returns that text.
      pub request_text-succeeds :
          (n : ℕ) (response : Response http_crate) (text : Text)
          → n ≤ config.retry_policy.max_retries
          → ((k : ℕ) → k < n → retries http_crate (network (wire.attempts + k) own_request) ≡ true)
          → network (wire.attempts + n) own_request ≡ ok response
          → is_success response.status ≡ true
          → response.text ≡ ok text
          → (send_text method path query body wire).0 ≡ ok text
      unfolding conclude
      request_text-succeeds n response text allowed before answered good read =
          let stays : retries http_crate (network (wire.attempts + n) own_request) ≡ false =
            rw answered (retries-success response text good read) in
          let (m, stops, e) =
            request_text_lem http_crate parse (ahead http_crate parse network wire) config method
              path query body fits in
          let same : m ≡ n = same_number m n stops allowed before stays in
          rw (e, same, answered) (conclude-success own_url response text good read)
