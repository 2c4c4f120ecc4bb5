-- ===== src/Client/Mock/Order.antt =====
-- crates/aelf-client/src/provider.rs, `test_support`: the order of the answers and of the records.
use aelf_web3_rust.Base.{◌≡◌, refl, List, [], ◌∷◌, ◌++◌, append-nil, append_assoc, map}
use aelf_web3_rust.Client.Action.{Provider}
use aelf_web3_rust.Client.Mock.{
  MockCallKind, json, text, MockResponse, json_response, text_response, kind, MockRecordedRequest,
  mock_provider, mock_request_json, mock_request_text,
}

module _ {H : Type 0} where
  -- Any provider asked for what a record says, its answer kept with its kind.
  abbrev pub ask_by :
      {W : Type 0} → Provider H W → MockCallKind → MockRecordedRequest → W → MockResponse H × W
  ask_by provider json r w =
      let (a, w') = provider.request_json r.method r.path r.query r.body w in (json_response a, w')
  ask_by provider text r w =
      let (a, w') = provider.request_text r.method r.path r.query r.body w in (text_response a, w')

  abbrev pub ask_all :
      {W : Type 0} → Provider H W → List MockRecordedRequest → W → List (MockResponse H) × W
  ask_all provider [] w = ([], w)
  ask_all provider (r ∷ rs) w =
      let (a, w') = ask_by provider r.kind r w in
      let (more, w'') = ask_all provider rs w' in (a ∷ more, w'')

  step :
      (k : MockCallKind) (r : MockRecordedRequest) (answer : MockResponse H)
      (rest : List (MockResponse H)) (asked : List MockRecordedRequest)
      → r.kind ≡ k
      → kind answer ≡ k
      → ask_by mock_provider k r (record { responses = answer ∷ rest; requests = asked })
        ≡ (answer, record { responses = rest; requests = asked ++ r ∷ [] })
  unfolding mock_request_json mock_request_text kind
  step json r (json_response a) rest asked e h = rw (← e) refl
  step json r (text_response a) rest asked e h = absurd (cc)
  step text r (json_response a) rest asked e h = absurd (cc)
  step text r (text_response a) rest asked e h = rw (← e) refl

  -- For requests and queued answers of the same kinds in the same order, the requests get the answers
  -- in the order of the queue, what stands behind them stays in the queue, and the requests are
  -- recorded in their order behind the earlier ones.
  pub ask_all-mock_provider :
      (requests : List MockRecordedRequest) (answers rest : List (MockResponse H))
      (asked : List MockRecordedRequest)
      → map kind answers ≡ map (λ (r : MockRecordedRequest). r.kind) requests
      → ask_all mock_provider requests (record { responses = answers ++ rest; requests = asked })
        ≡ (answers, record { responses = rest; requests = asked ++ requests })
  ask_all-mock_provider [] [] rest asked h = rw (append-nil asked)
  ask_all-mock_provider [] (a ∷ more) rest asked h = absurd (cc)
  ask_all-mock_provider (r ∷ rs) [] rest asked h = absurd (cc)
  ask_all-mock_provider (r ∷ rs) (a ∷ more) rest asked h =
      let same : kind a ≡ r.kind = cc in
      rw (step r.kind r a (more ++ rest) asked refl same) (
        rw (ask_all-mock_provider rs more rest (asked ++ r ∷ []) (cc))
          (rw (append_assoc asked (r ∷ []) rs) refl))
