-- ===== src/Client/Provider/Retries.antt =====
-- crates/aelf-client/src/provider.rs: what the retry loop does.
use aelf_web3_rust.Base.{
  ℕ, zero, suc, ◌+◌, ◌*◌, ◌^◌, ◌≤◌, ◌≡◌, ◌++◌, ◌⊎◌, inl, inr, refl, ap, List, [], ◌∷◌, Option, true,
  false, Result, arith, Bool-cases,
}
use Prim.Native.Nat.{min}
use aelf_web3_rust.Base.Text.{Text}
use aelf_web3_rust.Base.Json.{Value}
use aelf_web3_rust.Client.Crates.{HttpCrate}
use aelf_web3_rust.Client.Config.{Duration, duration_max, saturating_mul, ClientConfig}
use aelf_web3_rust.Client.Error.{WebAppErrorResponse}
use aelf_web3_rust.Client.Provider.{
  Method, Query, RequestBuilder, Response, Event, sent, make_url, build_request, sleep_before_retry,
  retries, conclude, request_loop, request_text,
}

-- The wait before the retry numbered `j`: the first wait, doubled `j` times, at most `Duration::MAX`.
abbrev pub backoff_of : Duration → ℕ → Duration
backoff_of initial j = min (initial * 2 ^ j) duration_max

doubled_min : (a b : ℕ) → b ≡ a * 2 → min (min a duration_max * 2) duration_max ≡ min b duration_max
doubled_min a b e = omega arith

power_step : (a j : ℕ) → a * 2 ^ suc j ≡ a * 2 ^ j * 2
power_step a j = let e : 2 ^ suc j ≡ 2 ^ j * 2 = omega arith in rw e (omega arith)

module _ (http_crate : HttpCrate) where
  open http_crate use {HttpError}

  -- The events of `n` retries from the one numbered `j`: a request before each wait, and a last one.
  abbrev pub schedule : RequestBuilder http_crate → Duration → ℕ → ℕ → List (Event http_crate)
  schedule request initial j zero = sent request ∷ []
  schedule request initial j (suc n) =
      sent request
      ∷ (sleep_before_retry http_crate (backoff_of initial j) ++ schedule request initial (suc j) n)

  module _ (parse : Text → Option WebAppErrorResponse)
      (network : ℕ → RequestBuilder http_crate → Result HttpError (Response http_crate)) where
    -- Each of the `n` outcomes from the attempt `j` on is to be retried.
    abbrev pub AllRetried : RequestBuilder http_crate → ℕ → ℕ → Type 0
    AllRetried request j zero = Unit
    AllRetried request j (suc n) =
        (retries http_crate (network j request) ≡ true) × AllRetried request (suc j) n

    -- `n` is the number of retries that a policy of `max_retries` makes, from the attempt `j` on.
    abbrev pub StopsAfter : RequestBuilder http_crate → ℕ → ℕ → ℕ → Type 0
    StopsAfter request max_retries j n =
        (n ≤ max_retries)
        × AllRetried request j n
        × ((n ≡ max_retries) ⊎ (retries http_crate (network (j + n) request) ≡ false))

    doubled : (initial j : ℕ) → saturating_mul (backoff_of initial j) 2 ≡ backoff_of initial (suc j)
    doubled initial j = doubled_min (initial * 2 ^ j) (initial * 2 ^ suc j) (power_step initial j)

    request_loop_lem :
        (request : RequestBuilder http_crate) (url : Text) (initial j max_retries : ℕ)
        → (n : ℕ) × StopsAfter request max_retries j n
          × (request_loop http_crate parse network request url j max_retries (backoff_of initial j)
              ≡ (
                conclude http_crate parse network url (network (j + n) request),
                schedule request initial j n,
              ))
    unfolding request_loop
    request_loop_lem request url initial j zero =
        let here : j + 0 ≡ j = omega arith in (0, (omega arith, tt, inl refl), rw here)
    request_loop_lem request url initial j (suc max_retries) =
        let here : j + 0 ≡ j = omega arith in
        elim (Bool-cases (retries http_crate (network j request))) [
          | inl again ↦
              let (n, (le, before, stop), e) =
                request_loop_lem request url initial (suc j) max_retries in
              let later : j + suc n ≡ suc j + n = omega arith in
              (
                suc n,
                (
                  omega arith,
                  (again, before),
                  elim stop [ inl s ↦ inl (ap suc s) | inr s ↦ inr (rw later s) ],
                ),
                rw (request_loop, again, doubled initial j, e, later),
              )
          | inr last ↦ (0, (omega arith, tt, inr (rw here last)), rw (request_loop, last, here))
        ]

    -- Where the first wait of the policy is a duration, whatever the network answers, the loop ends
    -- after a number `n` of retries with the result of the last attempt: every attempt before it had an
    -- outcome to retry, and it is the last one that the policy allows, or its outcome is not to be
    -- retried. It sends `n` + 1 copies of one request, and before the retry numbered `j` it waits for
    -- the first wait doubled `j` times, up to `Duration::MAX`, and not at all where that is zero.
    pub request_text_lem :
        (config : ClientConfig http_crate) (method : Method) (path : Text) (query : Query)
        (body : Option Value)
        → config.retry_policy.initial_backoff ≤ duration_max
        → let url = make_url http_crate config.endpoint path in
          let request = build_request http_crate config method url query body in
          (n : ℕ) × StopsAfter request config.retry_policy.max_retries 0 n
          × (request_text http_crate parse network config method path query body ≡ (
            conclude http_crate parse network url (network n request),
            schedule request config.retry_policy.initial_backoff 0 n,
          ))
    unfolding request_text
    request_text_lem config method path query body fits =
        let url = make_url http_crate config.endpoint path in
        let request = build_request http_crate config method url query body in
        let first : backoff_of config.retry_policy.initial_backoff 0
            ≡ config.retry_policy.initial_backoff =
          omega arith in
        let (n, stops, e) =
          request_loop_lem request url config.retry_policy.initial_backoff 0
            config.retry_policy.max_retries in
        let same : 0 + n ≡ n = omega arith in (n, stops, rw (first, same) at e)
