-- ===== src/Sdk/Examples.antt =====
-- crates/aelf-sdk/examples: what the examples share. A program's state is that behind the provider, with the
-- standard output.
pub mod Polling
pub mod TokenTransfer
pub mod RawTransactionFlow
pub mod KeystoreRoundTrip
pub mod ReadOnly
pub mod Reading
pub mod Sending
pub mod Parts
pub mod Sent
use aelf_web3_rust.Base.{
  ℕ, List, [], ◌∷◌, ◌++◌, Bool, true, false, Option, none, some, Result, ok, err, panic, map_err,
  map_ok, list_eq, ◌||◌, if◌then◌else◌,
}
use aelf_web3_rust.Base.Async.{Async, ◌>>=◌, ◌>>◌, lift}
use aelf_web3_rust.Base.Text.{Text, Bytes, codes}
use aelf_web3_rust.Base.Word.{ℤ, pos}
use aelf_web3_rust.Base.Decimal.{ParseIntError, parse_i64, parse_int_error_text}
use aelf_web3_rust.Crypto.Error.{CryptoError}
use aelf_web3_rust.Crypto.Proto.{Address}
use aelf_web3_rust.Client.Error.{AElfError, AElfResult}
use aelf_web3_rust.Client.Action.{Action}
use aelf_web3_rust.Contract.Reflect.{ContractError}
use aelf_web3_rust.Contract.Dynamic.{ContractAction}
use aelf_web3_rust.Client.Dto.{HashMap, ChargedEvent}

-- `Box<dyn Error>`, by where the error comes from.
pub data ExampleError (H : Type 0) : Type 0 where
  client : AElfError H → ExampleError H
  crypto : CryptoError → ExampleError H
  contract : ContractError H → ExampleError H
  variable number json hex message : Text → ExampleError H

-- token::TransferInput.
pub record TransferInput : Type 0 where
  pub to : Option Address
  pub symbol : Text
  pub amount : ℤ
  pub memo : Text

-- The environment of a run and what the examples take from other crates. `F` is `f64`.
pub record Environment (H F : Type 0) : Type 0 where
  -- std::env::var
  pub var : Text → Result Text Text
  -- AElfClient::new for an endpoint, which only builds the transport
  pub connect : Text → AElfResult H (Unit {0})
  pub display_error : AElfError H → Text
  pub debug_fees : HashMap F → Text
  pub debug_charges : HashMap ℤ → Text
  pub display_f64 : F → Text
  pub parse_f64 : Text → Result Text F
  pub f64_gt : F → F → Bool
  pub f64_zero : F
  -- 0.01
  pub f64_cent : F
  pub decode_fee : Bytes → Result Text ChargedEvent
  pub decode_resource : Bytes → Result Text ChargedEvent
  pub encode_transfer : TransferInput → Bytes
  pub transfer_json : TransferInput → Result Text Text

-- What a run does besides its requests: a line of output, and a second of sleep.
pub record Effects (W : Type 0) : Type 0 where
  pub println : Text → W → W
  pub sleep_second : W → W

abbrev pub Run : Type 0 → Type 0 → Type 0 → Type 0
Run H W A = Async (ExampleError H) W A

-- `?` on a result of the client.
abbrev pub from_client : {H W A : Type 0} → Action H W A → Run H W A
from_client m w = let (r, w') = m w in (map_err client r, w')

-- `?` on a result of a contract.
abbrev pub from_contract : {H W A : Type 0} → ContractAction H W A → Run H W A
from_contract m w = let (r, w') = m w in (map_err contract r, w')

abbrev pub effect : {H W : Type 0} → (W → W) → Run H W (Unit {0})
effect f w = (ok tt, f w)

abbrev pub or_else : Result Text Text → Text → Text
or_else (ok value) default = value
or_else (err _) default = default
or_else panic default = default

-- `var(..).ok().map(parse).transpose()?.unwrap_or(default)`.
abbrev pub parsed_or :
    {H A : Type 0} → Result Text Text → (Text → Result Text A) → A → Result (ExampleError H) A
parsed_or (ok value) parse default = map_err number (parse value)
parsed_or (err _) parse default = ok default
parsed_or panic parse default = panic

-- `matches!(var("AELF_SEND").ok().as_deref(), Some("1" | "true" | "TRUE" | "yes" | "YES"))`.
abbrev pub is_confirmation : Result Text Text → Bool
is_confirmation (ok value) =
    list_eq value (codes "1")
    || list_eq value (codes "true")
    || list_eq value (codes "TRUE")
    || list_eq value (codes "yes")
    || list_eq value (codes "YES")
is_confirmation (err _) = false
is_confirmation panic = false

module _ {H F : Type 0} (environment : Environment H F) where
  open environment use {var}

  unfoldable pub should_send : Bool
  should_send = is_confirmation (var (codes "AELF_SEND"))

  abbrev pub endpoint : Text
  endpoint = or_else (var (codes "AELF_ENDPOINT")) (codes "http://127.0.0.1:8000")

  unfoldable pub amount : Result (ExampleError H) ℤ
  amount =
      parsed_or (var (codes "AELF_AMOUNT")) (λ t. map_err parse_int_error_text (parse_i64 t))
        (pos 1)
