-- ===== src/Client/Error.antt =====
-- crates/aelf-client/src/error.rs. An error of another crate is kept as its message, but reqwest's, which
-- the retries look at.
use aelf_web3_rust.Base.{ℕ, ◌++◌, Option, none, some, Result}
use aelf_web3_rust.Base.Text.{Text, codes}
use aelf_web3_rust.Crypto.Error.{CryptoError}
use aelf_web3_rust.Client.Crates.{HttpCrate}

pub record RequestError : Type 0 where
  pub message : Text
  pub request_id : Option Text
  pub endpoint : Option Text
  pub status : Option ℕ
  pub chain_code : Option Text
  pub details : Option Text

-- `H` is `reqwest::Error`.
pub data AElfError (H : Type 0) : Type 0 where
  request_error : RequestError → AElfError H
  unexpected_response invalid_config missing_field : Text → AElfError H
  crypto : CryptoError → AElfError H
  hex base64 json : Text → AElfError H
  http : H → AElfError H
  protobuf_encode protobuf_decode : Text → AElfError H

abbrev pub AElfResult : Type 0 → Type 0 → Type 0
AElfResult H A = Result (AElfError H) A

-- crates/aelf-client/src/dto/mod.rs.
pub record WebAppError : Type 0 where
  pub code : Text
  pub message : Text
  pub details : Option Text

pub record WebAppErrorResponse : Type 0 where
  pub error : WebAppError

unfoldable pub request : {H : Type 0} → Text → Option Text → AElfError H
request message endpoint = request_error (record {
  message = message;
  request_id = none;
  endpoint = endpoint;
  status = none;
  chain_code = none;
  details = none;
})

module _ (http : HttpCrate) (parse : Text → Option WebAppErrorResponse) where
  open http use {HttpError, StatusCode, as_u16, status_to_string}

  -- `parse` is the derived `from_str::<WebAppErrorResponse>(..).ok()`.
  unfoldable pub from_response : Text → StatusCode → Option Text → Text → AElfError HttpError
  from_response endpoint status request_id raw_body =
      let parsed = parse raw_body in
      request_error (elim parsed [
        | some error ↦ record {
          message = error.error.message;
          request_id = request_id;
          endpoint = some endpoint;
          status = some (as_u16 status);
          chain_code = some error.error.code;
          details = error.error.details;
        }
        | none ↦ record {
          message =
              codes "request failed with status "
              ++ status_to_string status
              ++ codes ": "
              ++ raw_body;
          request_id = request_id;
          endpoint = some endpoint;
          status = some (as_u16 status);
          chain_code = none;
          details = none;
        }
      ])

-- `Display` of `WebAppErrorResponse`.
unfoldable pub web_app_error_text : WebAppErrorResponse → Text
web_app_error_text self = self.error.message ++ codes " (" ++ self.error.code ++ codes ")"
