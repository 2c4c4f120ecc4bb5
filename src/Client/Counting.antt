-- ===== src/Client/Counting.antt =====
-- Which requests of crates/aelf-client's services reach a provider: a provider that counts those of a kind
-- beside the state of another, and one rule for each way to build an action.
pub mod Services
use aelf_web3_rust.Base.{
  ◌≡◌, refl, ap, ℕ, zero, suc, ◌+◌, ◌≤◌, Bool, true, false, Option, Result, ok, err, panic, arith,
  if◌then◌else◌,
}
use aelf_web3_rust.Base.Text.{Text}
use aelf_web3_rust.Base.Json.{Value}
use aelf_web3_rust.Client.Error.{AElfResult}
use aelf_web3_rust.Client.Provider.{Method, Query}
use aelf_web3_rust.Client.Action.{Async, Action, continue, ◌>>=◌, lift, Provider}

-- An action that counts, of the client or of a contract.
abbrev pub Counted : Type 0 → Type 0 → Type 0 → Type 0
Counted E W A = Async E (ℕ × W) A

-- A provider whose requests have a price, by the states before and after them.
pub record Priced (H W : Type 0) : Type 0 where
  pub base : Provider H W
  pub price : W → W → ℕ

-- Every request counts as one.
abbrev pub by_call : {H W : Type 0} → Provider H W → Priced H W
by_call provider = record { base = provider; price = λ w w'. 1 }

module _ {H W : Type 0} where
  abbrev pub tally :
      {A : Type 0} → Bool → (W → W → ℕ) → (W → AElfResult H A × W) → Action H (ℕ × W) A
  tally hit price m (n, w) = let (r, w') = m w in (r, (if hit then n + price w w' else n, w'))

  -- The requests that `counts` accepts, by their path, are counted at their price.
  abbrev pub counting : (Text → Bool) → Priced H W → Provider H (ℕ × W)
  counting counts provider = record {
    request_json = λ method path query body.
        tally (counts path) provider.price (provider.base.request_json method path query body);
    request_text = λ method path query body.
        tally (counts path) provider.price (provider.base.request_text method path query body);
  }

  -- A request costs from `least` to `most`, whatever it is.
  pub record Costs (least most : ℕ) (provider : Priced H W) : Type 0 where
    pub json :
        (method : Method) (path : Text) (query : Query) (body : Option Value) (w : W)
        → (let cost = provider.price w (provider.base.request_json method path query body w).1 in
            (least ≤ cost) × (cost ≤ most))
    pub text :
        (method : Method) (path : Text) (query : Query) (body : Option Value) (w : W)
        → (let cost = provider.price w (provider.base.request_text method path query body w).1 in
            (least ≤ cost) × (cost ≤ most))

  -- Any price up to `most` is a cost from none on.
  pub Costs-weaken :
      {least most : ℕ} (provider : Priced H W) → Costs least most provider → Costs 0 most provider
  Costs-weaken provider costs = record {
    json = λ method path query body w.
        let (low, high) = costs.json method path query body w in (omega arith, high);
    text = λ method path query body w.
        let (low, high) = costs.text method path query body w in (omega arith, high);
  }

  pub by_call-Costs : (provider : Provider H W) → Costs 1 1 (by_call provider)
  by_call-Costs provider = record {
    json = λ method path query body w. omega arith;
    text = λ method path query body w. omega arith;
  }

-- The action counts `least` to `most` requests, whatever it returns.
pub record Counts {E W A : Type 0} (least most : ℕ) (m : Counted E W A) : Type 0 where
  pub at : (n : ℕ) (w : W) → (n + least ≤ (m (n, w)).1.0) × ((m (n, w)).1.0 ≤ n + most)

-- The action counts none.
abbrev pub IsQuiet : {E W A : Type 0} → Counted E W A → Type 0
IsQuiet = Counts 0 0

module _ {E W : Type 0} where
  pub lift-IsQuiet : {A : Type 0} (r : Result E A) → IsQuiet {W = W} (lift r)
  lift-IsQuiet r = record { at = λ n w. omega arith }

  continue-Counts :
      {A B : Type 0} (least most more n : ℕ) (r : Result E A × (ℕ × W)) (f : A → Async E (ℕ × W) B)
      → n + least ≤ r.1.0
      → r.1.0 ≤ n + most
      → ((a : A) → r.0 ≡ ok a → Counts 0 more (f a))
      → (n + least ≤ (continue r f).1.0) × ((continue r f).1.0 ≤ n + (most + more))
  continue-Counts least most more n (ok a, (n', w)) f low high rest =
      let (low', high') = (rest a refl).at n' w in (omega arith, omega arith)
  continue-Counts least most more n (err e, (n', w)) f low high rest = (omega arith, omega arith)
  continue-Counts least most more n (panic, (n', w)) f low high rest = (omega arith, omega arith)

  -- The first part is always run, and what follows only where it succeeds, with what `P` says of its value.
  pub bind_result-Counts :
      {A B : Type 0} {P : A → Type 0} (least most more : ℕ) (m : Async E (ℕ × W) A)
      (f : A → Async E (ℕ × W) B)
      → Counts least most m
      → ((s : ℕ × W) (a : A) → (m s).0 ≡ ok a → P a)
      → ((a : A) → P a → Counts 0 more (f a))
      → Counts least (most + more) (m >>= f)
  bind_result-Counts least most more m f first holds rest = record {
    at = λ n w.
        let (low, high) = first.at n w in
        continue-Counts least most more n (m (n, w)) f low high (λ a e. rest a (holds (n, w) a e));
  }

  pub bind-Counts :
      {A B : Type 0} (least most more : ℕ) (m : Async E (ℕ × W) A) (f : A → Async E (ℕ × W) B)
      → Counts least most m
      → ((a : A) → Counts 0 more (f a))
      → Counts least (most + more) (m >>= f)
  bind-Counts least most more m f first rest =
      bind_result-Counts {P = λ _. Unit} least most more m f first (λ s a e. tt) (λ a _. rest a)

  pub bind-IsQuiet :
      {A B : Type 0} (m : Async E (ℕ × W) A) (f : A → Async E (ℕ × W) B)
      → IsQuiet m
      → ((a : A) → IsQuiet (f a))
      → IsQuiet (m >>= f)
  bind-IsQuiet m f first rest = bind-Counts 0 0 0 m f first rest

  -- A part that counts none, before the rest.
  pub quiet_then :
      {A B : Type 0} (most : ℕ) (m : Async E (ℕ × W) A) (f : A → Async E (ℕ × W) B)
      → IsQuiet m
      → ((a : A) → Counts 0 most (f a))
      → Counts 0 most (m >>= f)
  quiet_then most m f first rest =
      let same : 0 + most ≡ most = omega arith in rw same at (bind-Counts 0 0 most m f first rest)

  -- The rest counts none.
  pub then_quiet :
      {A B : Type 0} (most : ℕ) (m : Async E (ℕ × W) A) (f : A → Async E (ℕ × W) B)
      → Counts 0 most m
      → ((a : A) → IsQuiet (f a))
      → Counts 0 most (m >>= f)
  then_quiet most m f first rest =
      let same : most + 0 ≡ most = omega arith in rw same at (bind-Counts 0 most 0 m f first rest)

  pub if-Counts :
      {A : Type 0} (most : ℕ) (b : Bool) (m n : Async E (ℕ × W) A)
      → (b ≡ true → Counts 0 most m)
      → (b ≡ false → Counts 0 most n)
      → Counts 0 most (if b then m else n)
  if-Counts most true m n km kn = km refl
  if-Counts most false m n km kn = kn refl

pub Counts-weaken :
    {E W A : Type 0} (least least' most most' : ℕ) (m : Counted E W A)
    → least' ≤ least
    → most ≤ most'
    → Counts least most m
    → Counts least' most' m
Counts-weaken least least' most most' m p q h = record {
  at = λ n w. let (low, high) = h.at n w in (omega arith, omega arith);
}

pub ruleset quiet_rules = (bind-IsQuiet, lift-IsQuiet)

module _ {H W : Type 0} (price : W → W → ℕ) where
  pub tally-Counts :
      {A : Type 0} (hit : Bool) (m : W → AElfResult H A × W) (least most : ℕ)
      → hit ≡ true
      → ((w : W) → (least ≤ price w (m w).1) × (price w (m w).1 ≤ most))
      → Counts least most (tally hit price m)
  tally-Counts hit m least most h cost = record {
    at = λ n w. let (low, high) = cost w in rw h (omega arith, omega arith);
  }

  pub tally-IsQuiet :
      {A : Type 0} (hit : Bool) (m : W → AElfResult H A × W)
      → hit ≡ false
      → IsQuiet (tally hit price m)
  tally-IsQuiet hit m h = record { at = λ n w. rw h (omega arith) }

module _ {H W : Type 0} (counts : Text → Bool) (provider : Priced H W) where
  open counting counts provider use {request_json, request_text}

  pub request_json-IsQuiet :
      (method : Method) (path : Text) (query : Query) (body : Option Value)
      → counts path ≡ false
      → IsQuiet (request_json method path query body)
  request_json-IsQuiet method path query body h =
      tally-IsQuiet provider.price (counts path) (provider.base.request_json method path query body)
        h

  pub request_text-IsQuiet :
      (method : Method) (path : Text) (query : Query) (body : Option Value)
      → counts path ≡ false
      → IsQuiet (request_text method path query body)
  request_text-IsQuiet method path query body h =
      tally-IsQuiet provider.price (counts path) (provider.base.request_text method path query body)
        h

  module _ (least most : ℕ) (costs : Costs least most provider) where
    pub request_text-Counts :
        (method : Method) (path : Text) (query : Query) (body : Option Value)
        → counts path ≡ true
        → Counts least most (request_text method path query body)
    request_text-Counts method path query body h =
        tally-Counts provider.price (counts path)
          (provider.base.request_text method path query body) least most h
          (costs.text method path query body)

    pub request_json-Counts :
        (method : Method) (path : Text) (query : Query) (body : Option Value)
        → counts path ≡ true
        → Counts least most (request_json method path query body)
    request_json-Counts method path query body h =
        tally-Counts provider.price (counts path)
          (provider.base.request_json method path query body) least most h
          (costs.json method path query body)
