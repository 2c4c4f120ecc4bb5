-- ===== src/Client/Crates.antt =====
-- What aelf-client takes from reqwest and http for its transport: the error and status types with their
-- tests, header names and values, and serde_json's parser.
use aelf_web3_rust.Base.{ℕ, Bool, Option, Result, List}
use aelf_web3_rust.Base.Text.{Text, Bytes}
use aelf_web3_rust.Base.Json.{Value}

pub record HttpCrate : Type 1 where
  -- reqwest::Error
  pub HttpError : Type 0
  pub is_connect : HttpError → Bool
  pub is_timeout : HttpError → Bool
  pub is_request : HttpError → Bool
  pub is_body : HttpError → Bool
  -- reqwest::StatusCode
  pub StatusCode : Type 0
  pub is_success : StatusCode → Bool
  pub is_server_error : StatusCode → Bool
  pub as_u16 : StatusCode → ℕ
  pub status_to_string : StatusCode → Text
  -- http::HeaderName, http::HeaderValue and http::HeaderMap
  pub HeaderName : Type 0
  pub HeaderValue : Type 0
  pub HeaderMap : Type 0
  pub header_name_from_bytes : Bytes → Result Text HeaderName
  pub header_value_from_str : Text → Result Text HeaderValue
  pub to_str : HeaderValue → Option Text
  pub new_headers : HeaderMap
  pub insert : HeaderMap → HeaderName → HeaderValue → HeaderMap
  pub entries : HeaderMap → List (HeaderName × HeaderValue)
  pub accept : HeaderName
  pub content_type : HeaderName
  pub value_from_text : Text → HeaderValue
  -- serde_json::from_str::<Value>
  pub json_from_str : Text → Result Text Value
