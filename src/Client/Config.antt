-- ===== src/Client/Config.antt =====
-- crates/aelf-client/src/config.rs. A `Duration` is its nanoseconds.
use aelf_web3_rust.Base.{ℕ, ◌-◌, ◌*◌, ◌^◌, Option, none, some, Result, ok, ◌>>=◌}
use aelf_web3_rust.Base.Text.{Text, as_bytes}
use aelf_web3_rust.Client.Crates.{HttpCrate}
use Prim.Native.Nat.{min}

abbrev pub Duration : Type 0
Duration = ℕ

-- `Duration::MAX`: `u64::MAX` seconds and 999,999,999 nanoseconds.
abbrev pub duration_max : ℕ
duration_max = 2 ^ 64 * 1000000000 - 1

abbrev pub from_secs : ℕ → Duration
from_secs n = n * 1000000000

abbrev pub from_millis : ℕ → Duration
from_millis n = n * 1000000

-- `Duration::saturating_mul`.
abbrev pub saturating_mul : Duration → ℕ → Duration
saturating_mul d n = min (d * n) duration_max

pub record BasicAuth : Type 0 where
  pub username : Text
  pub password : Text

pub record RetryPolicy : Type 0 where
  pub max_retries : ℕ
  pub initial_backoff : Duration

unfoldable pub new_retry_policy : ℕ → Duration → RetryPolicy
new_retry_policy max_retries initial_backoff = record {
  max_retries = max_retries;
  initial_backoff = initial_backoff;
}

unfoldable pub default_retry_policy : RetryPolicy
default_retry_policy = record { max_retries = 2; initial_backoff = from_millis 200 }

module _ (http : HttpCrate) where
  open http use {HeaderMap, header_name_from_bytes, header_value_from_str, new_headers, insert}

  pub record ClientConfig : Type 0 where
    pub endpoint : Text
    pub api_version : Option Text
    pub basic_auth : Option BasicAuth
    pub timeout : Duration
    pub retry_policy : RetryPolicy
    pub headers : HeaderMap

  unfoldable pub new_config : Text → ClientConfig
  new_config endpoint = record {
    endpoint = endpoint;
    api_version = none;
    basic_auth = none;
    timeout = from_secs 15;
    retry_policy = default_retry_policy;
    headers = new_headers;
  }

  unfoldable pub with_api_version : ClientConfig → Text → ClientConfig
  with_api_version self version = record self { api_version = some version }

  unfoldable pub with_basic_auth : ClientConfig → Text → Text → ClientConfig
  with_basic_auth self username password = record self {
    basic_auth = some (record { username = username; password = password });
  }

  unfoldable pub with_timeout : ClientConfig → Duration → ClientConfig
  with_timeout self timeout = record self { timeout = timeout }

  unfoldable pub with_retry_policy : ClientConfig → RetryPolicy → ClientConfig
  with_retry_policy self retry_policy = record self { retry_policy = retry_policy }

  unfoldable pub without_retries : ClientConfig → ClientConfig
  unfolding new_retry_policy
  without_retries self = record self { retry_policy = new_retry_policy 0 0 }

  unfoldable pub with_header : ClientConfig → Text → Text → Result Text ClientConfig
  with_header self name value = do
    header_name ← header_name_from_bytes (as_bytes name)
    header_value ← header_value_from_str value
    ok (record self { headers = insert self.headers header_name header_value })
