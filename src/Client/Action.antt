-- ===== src/Client/Action.antt =====
-- The provider of crates/aelf-client/src/provider.rs as the client sees it. `W` is the state of the
-- provider and of all that it talks to; a request reads and changes it.
use aelf_web3_rust.Base.{Option, ok, err, panic, ◌≡◌, refl}
pub use aelf_web3_rust.Base.Async.{Async, continue, ◌>>=◌, lift}
use aelf_web3_rust.Base.Text.{Text}
use aelf_web3_rust.Base.Json.{Value}
use aelf_web3_rust.Client.Error.{AElfError, AElfResult}
use aelf_web3_rust.Client.Provider.{Method, Query}

-- An `async` function that returns `Result<A, AElfError>`.
abbrev pub Action : Type 0 → Type 0 → Type 0 → Type 0
Action H W A = Async (AElfError H) W A

pub record Provider (H W : Type 0) : Type 0 where
  pub request_json : Method → Text → Query → Option Value → Action H W Value
  pub request_text : Method → Text → Query → Option Value → Action H W Text

-- Inversion of a bind that succeeds, for a proof that goes on with the value and the state between.
continue_ok :
    {H W A B C : Type 0} (r : AElfResult H A × W) (f : A → Action H W B) {b : B} {w : W}
    → continue r f ≡ (ok b, w)
    → ((a : A) (w₁ : W) → r ≡ (ok a, w₁) → f a w₁ ≡ (ok b, w) → C)
    → C
continue_ok (ok a, w₁) f h k = k a w₁ refl h
continue_ok (err e, w₁) f h k = absurd (cc)
continue_ok (panic, w₁) f h k = absurd (cc)

pub run_ok :
    {H W A B C : Type 0} (m : Action H W A) (f : A → Action H W B) (w₀ : W) {b : B} {w : W}
    → (m >>= f) w₀ ≡ (ok b, w)
    → ((a : A) (w₁ : W) → m w₀ ≡ (ok a, w₁) → f a w₁ ≡ (ok b, w) → C)
    → C
run_ok m f w₀ h k = continue_ok (m w₀) f h k

-- The same where the first part makes no request.
pub lift_ok :
    {H W A B C : Type 0} (r : AElfResult H A) (f : A → Action H W B) (w₀ : W) {b : B} {w : W}
    → (lift r >>= f) w₀ ≡ (ok b, w)
    → ((a : A) → r ≡ ok a → f a w₀ ≡ (ok b, w) → C)
    → C
lift_ok (ok a) f w₀ h k = k a refl h
lift_ok (err e) f w₀ h k = absurd (cc)
lift_ok panic f w₀ h k = absurd (cc)
