-- ===== src/Client/Http/Price.antt =====
-- crates/aelf-client/src/provider.rs: `HttpProvider` with the HTTP requests that a call sends as its price.
use aelf_web3_rust.Base.{ℕ, suc, ◌-◌, ◌≤◌, ap, Option, Result, arith}
use aelf_web3_rust.Base.Text.{Text}
use aelf_web3_rust.Base.Json.{Value}
use aelf_web3_rust.Client.Crates.{HttpCrate}
use aelf_web3_rust.Client.Config.{duration_max, ClientConfig}
use aelf_web3_rust.Client.Error.{WebAppErrorResponse}
use aelf_web3_rust.Client.Provider.{Method, Query, RequestBuilder, Response, request_json}
use aelf_web3_rust.Client.Counting.{Priced, Costs}
use aelf_web3_rust.Client.Http.{Wire, http_provider}
use aelf_web3_rust.Client.Http.Sends.{request_text-sends}

module _ (http_crate : HttpCrate) (parse : Text → Option WebAppErrorResponse)
    (network : ℕ → RequestBuilder http_crate → Result http_crate.HttpError (Response http_crate))
    (config : ClientConfig http_crate) where
  open http_crate use {HttpError}

  -- The attempts that a call adds to the wire.
  abbrev pub on_wire : Priced HttpError (Wire http_crate)
  on_wire = record {
    base = http_provider http_crate parse network config;
    price = λ before after. after.attempts - before.attempts;
  }

  module _ (fits : config.retry_policy.initial_backoff ≤ duration_max) where
    text-cost :
        (method : Method) (path : Text) (query : Query) (body : Option Value) (w : Wire http_crate)
        → on_wire.price w (on_wire.base.request_text method path query body w).1
          ≤ suc config.retry_policy.max_retries
    text-cost method path query body w =
        let (n, le, e) =
          request_text-sends http_crate parse network config method path query body w fits in
        let attempts = ap (λ r. r.1.attempts) e in omega arith

    pub on_wire-Costs : Costs 0 (suc config.retry_policy.max_retries) on_wire
    unfolding request_json
    on_wire-Costs = record {
      text = λ method path query body w. (omega arith, text-cost method path query body w);
      json = λ method path query body w. (omega arith, text-cost method path query body w);
    }
