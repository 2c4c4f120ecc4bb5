-- ===== src/Client/Provider/Requests.antt =====
-- crates/aelf-client/src/provider.rs: the URL of a request, and which texts are returned.
use aelf_web3_rust.Base.{ℕ, ◌≡◌, ◌++◌, replicate}
use aelf_web3_rust.Base.Text.{Text}
use aelf_web3_rust.Base.Text.Around.{trim_start_matches-replicate, trim_end_matches-replicate}
use aelf_web3_rust.Client.Crates.{HttpCrate}
use aelf_web3_rust.Client.Provider.{make_url}

abbrev pub slashes : ℕ → Text
slashes n = replicate n b'/'

module _ (http_crate : HttpCrate) where
  open http_crate use {HttpError, is_success}

  -- Slashes at the end of the endpoint and at the start of the path make no difference to the URL.
  pub make_url-slashes :
      (endpoint path : Text) (m n : ℕ)
      → make_url http_crate (endpoint ++ slashes m) (slashes n ++ path)
        ≡ make_url http_crate endpoint path
  unfolding make_url
  make_url-slashes endpoint path m n =
      rw (trim_end_matches-replicate endpoint m b'/', trim_start_matches-replicate n path b'/')
