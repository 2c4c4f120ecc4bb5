-- ===== src/Client/Http.antt =====
-- crates/aelf-client/src/provider.rs: `HttpProvider` as the provider of a client. The state is what the
-- provider has done on the network so far.
pub mod Sends
pub mod Height
pub mod Price
use aelf_web3_rust.Base.{ℕ, suc, ◌+◌, ◌++◌, List, [], ◌∷◌, Option, Result, ok, err, panic, map_err}
use aelf_web3_rust.Base.Text.{Text}
use aelf_web3_rust.Client.Crates.{HttpCrate}
use aelf_web3_rust.Client.Config.{Duration, ClientConfig}
use aelf_web3_rust.Client.Error.{AElfResult, WebAppErrorResponse, http}
use aelf_web3_rust.Client.Provider.{
  RequestBuilder, Response, Event, sent, slept, request_text, request_json,
}
use aelf_web3_rust.Client.Action.{Provider}

module _ (http_crate : HttpCrate) where
  open http_crate use {HttpError}

  -- How many attempts there were, and the events in their order.
  pub record Wire : Type 0 where
    pub attempts : ℕ
    pub events : List (Event http_crate)

  abbrev pub count_sent : List (Event http_crate) → ℕ
  count_sent [] = 0
  count_sent (sent request ∷ events) = suc (count_sent events)
  count_sent (slept wait ∷ events) = count_sent events

  abbrev pub record_events :
      {A : Type 0}
      → Wire
      → AElfResult HttpError A × List (Event http_crate)
      → AElfResult HttpError A × Wire
  record_events wire (result, events) = (
    result,
    record { attempts = wire.attempts + count_sent events; events = wire.events ++ events },
  )

  module _ (parse : Text → Option WebAppErrorResponse)
      (network : ℕ → RequestBuilder http_crate → Result HttpError (Response http_crate)) where
    -- The network from the attempts of `wire` on.
    abbrev pub ahead : Wire → ℕ → RequestBuilder http_crate → Result HttpError (Response http_crate)
    ahead wire k = network (wire.attempts + k)

    abbrev pub http_provider : ClientConfig http_crate → Provider HttpError Wire
    http_provider config = record {
      request_json = λ method path query body wire.
          record_events wire
            (request_json http_crate parse (ahead wire) config method path query body);
      request_text = λ method path query body wire.
          record_events wire
            (request_text http_crate parse (ahead wire) config method path query body);
    }
