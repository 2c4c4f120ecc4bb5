-- ===== src/Client/Mock.antt =====
-- crates/aelf-client/src/provider.rs, `test_support`: `MockProvider`, the double of a provider that answers
-- from a queue and records what it is asked. Its two mutexes are the state of the provider.
pub mod Order
use aelf_web3_rust.Base.{List, [], ◌∷◌, ◌++◌, Option, none, some, Result, ok, err, panic}
use aelf_web3_rust.Base.Text.{Text}
use aelf_web3_rust.Base.Json.{Value}
use aelf_web3_rust.Client.Error.{AElfError, AElfResult}
use aelf_web3_rust.Client.Provider.{Method, Query}
use aelf_web3_rust.Client.Action.{Action, Provider}

pub data MockCallKind : Type 0 where
  json text : MockCallKind

pub data MockResponse (H : Type 0) : Type 0 where
  json_response : AElfResult H Value → MockResponse H
  text_response : AElfResult H Text → MockResponse H

-- `MockResponse::json`, `json_error` and `text`.
abbrev pub mock_json : {H : Type 0} → Value → MockResponse H
mock_json value = json_response (ok value)

abbrev pub mock_json_error : {H : Type 0} → AElfError H → MockResponse H
mock_json_error error = json_response (err error)

abbrev pub mock_text : {H : Type 0} → Text → MockResponse H
mock_text value = text_response (ok value)

unfoldable pub kind : {H : Type 0} → MockResponse H → MockCallKind
kind (json_response _) = json
kind (text_response _) = text

pub record MockRecordedRequest : Type 0 where
  pub kind : MockCallKind
  pub method : Method
  pub path : Text
  pub query : Query
  pub body : Option Value

pub record MockProviderState (H : Type 0) : Type 0 where
  pub responses : List (MockResponse H)
  pub requests : List MockRecordedRequest

module _ {H : Type 0} where
  unfoldable pub new_mock : List (MockResponse H) → MockProviderState H
  new_mock responses = record { responses = responses; requests = [] }

  unfoldable pub record_request :
      MockCallKind
      → Method
      → Text
      → Query
      → Option Value
      → MockProviderState H
      → MockProviderState H
  record_request kind method path query body state = record state {
    requests =
        state.requests
        ++ record { kind = kind; method = method; path = path; query = query; body = body } ∷ [];
  }

  -- `pop_response` and the match on what it gives. An empty queue panics, and so does a response of the
  -- other kind, which is taken from the queue all the same.
  abbrev pub json_of : MockResponse H → AElfResult H Value
  json_of (json_response result) = result
  json_of (text_response _) = panic

  abbrev pub text_of : MockResponse H → AElfResult H Text
  text_of (text_response result) = result
  text_of (json_response _) = panic

  abbrev pub pop_response :
      {A : Type 0}
      → (MockResponse H → AElfResult H A)
      → List (MockResponse H)
      → List MockRecordedRequest
      → AElfResult H A × MockProviderState H
  pop_response read [] requests = (panic, record { responses = []; requests = requests })
  pop_response read (response ∷ responses) requests =
      (read response, record { responses = responses; requests = requests })

  unfoldable pub mock_request_json :
      Method → Text → Query → Option Value → Action H (MockProviderState H) Value
  unfolding record_request
  mock_request_json method path query body state =
      let state' = record_request json method path query body state in
      pop_response json_of state'.responses state'.requests

  unfoldable pub mock_request_text :
      Method → Text → Query → Option Value → Action H (MockProviderState H) Text
  unfolding record_request
  mock_request_text method path query body state =
      let state' = record_request text method path query body state in
      pop_response text_of state'.responses state'.requests

  abbrev pub mock_provider : Provider H (MockProviderState H)
  mock_provider = record { request_json = mock_request_json; request_text = mock_request_text }
