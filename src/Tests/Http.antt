-- ===== src/Tests/Http.antt =====
-- The transport and the mock provider at concrete inputs.
use aelf_web3_rust.Base.{
  ℕ, zero, suc, ◌+◌, ◌≡◌, ◌<◌, refl, List, [], ◌∷◌, ◌++◌, none, some, Bool, true, Result, ok, arith,
}
use aelf_web3_rust.Base.Text.{codes}
use aelf_web3_rust.Base.Word.{pos}
use aelf_web3_rust.Base.Decimal.{int_to_string}
use aelf_web3_rust.Base.Json.{null}
use aelf_web3_rust.Client.Config.{ClientConfig}
use aelf_web3_rust.Client.Provider.{RequestBuilder, Response, get, post, retries}
use aelf_web3_rust.Client.Service.{get_block_height}
use aelf_web3_rust.Client.Http.{Wire}
use aelf_web3_rust.Sdk.Facade.{AElfClient, new_facade, block}
use aelf_web3_rust.Sdk.Facade.Height.{new_facade-get_block_height}
use aelf_web3_rust.Client.Mock.{
  json, text, MockResponse, mock_json, mock_text, MockRecordedRequest, kind, mock_provider,
}
use aelf_web3_rust.Client.Mock.Order.{ask_all, ask_all-mock_provider}
use aelf_web3_rust.Stubs.Client.{toy_http}

abbrev config : ClientConfig toy_http
config = record {
  endpoint = codes "http://node/";
  api_version = none;
  basic_auth = none;
  timeout = 15;
  retry_policy = record { max_retries = 2; initial_backoff = 200 };
  headers = [];
}

abbrev silent : Wire toy_http
silent = record { attempts = 0; events = [] }

-- The first attempt is answered 503, and all later ones 200 with a height in quotes.
abbrev height_network : ℕ → RequestBuilder toy_http → Result Bool (Response toy_http)
height_network zero request =
    ok (record { status = 503; headers = λ _. none; text = ok (codes "busy") })
height_network (suc n) request =
    ok (record { status = 200; headers = λ _. none; text = ok (codes "\"42\"") })

fails_first :
    (request : RequestBuilder toy_http) (k : ℕ)
    → k < 1
    → retries toy_http (height_network (0 + k) request) ≡ true
unfolding retries
fails_first request zero h = refl
fails_first request (suc k) h = absurd (omega arith)

new_facade-get_block_height_example :
    (client : AElfClient Bool (Wire toy_http)) × (new_facade toy_http
        (λ _. none)
        height_network
        (λ timeout. ok tt)
        config
      ≡ ok client)
    × ((get_block_height (block client).client.provider silent).0 ≡ ok (pos 42))
unfolding int_to_string
new_facade-get_block_height_example =
    new_facade-get_block_height toy_http (λ _. none) height_network (λ timeout. ok tt) config silent
      refl (omega arith) 1
      (record { status = 200; headers = λ _. none; text = ok (codes "\"42\"") }) (pos 42) 1 1
      (omega arith) (fails_first _) refl refl refl (omega arith)

abbrev asked_json : MockRecordedRequest
asked_json = record { kind = json; method = get; path = codes "a"; query = []; body = none }

abbrev asked_text : MockRecordedRequest
asked_text = record { kind = text; method = post; path = codes "b"; query = []; body = some null }

abbrev answers : List (MockResponse Bool)
answers = mock_json null ∷ mock_text (codes "t") ∷ []

ask_all-mock_provider_example :
    ask_all mock_provider
      (asked_json ∷ asked_text ∷ [])
      (record { responses = answers ++ []; requests = [] })
    ≡ (answers, record { responses = []; requests = [] ++ asked_json ∷ asked_text ∷ [] })
unfolding kind
ask_all-mock_provider_example =
    ask_all-mock_provider (asked_json ∷ asked_text ∷ []) answers [] [] refl
