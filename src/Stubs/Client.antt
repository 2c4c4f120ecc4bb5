-- ===== src/Stubs/Client.antt =====
-- The transport crates and the codecs of aelf-client, and a node that counts its requests.
use aelf_web3_rust.Base.{
  ℕ, zero, suc, [], ◌∷◌, List, none, some, Bool, true, false, ◌&&◌, ltb, leb, Result, ok, err,
  replicate,
}
use aelf_web3_rust.Base.Text.{Text, codes}
use aelf_web3_rust.Base.Word.{pos}
use aelf_web3_rust.Base.Json.{null}
use aelf_web3_rust.Client.Crates.{HttpCrate}
use aelf_web3_rust.Client.Provider.{RequestBuilder, Response}
use aelf_web3_rust.Client.Action.{Provider}
use aelf_web3_rust.Client.Codec.{Codec}
use aelf_web3_rust.Client.Dto.{ChainStatusDto}
use aelf_web3_rust.Stubs.Hex.{decode}

-- An error is whether it is one of connecting.
abbrev pub toy_http : HttpCrate
toy_http = record {
  HttpError = Bool;
  is_connect = λ e. e;
  is_timeout = λ _. false;
  is_request = λ _. false;
  is_body = λ _. false;
  StatusCode = ℕ;
  is_success = λ s. leb 200 s && ltb s 300;
  is_server_error = λ s. leb 500 s && ltb s 600;
  as_u16 = λ s. s;
  status_to_string = λ s. [];
  HeaderName = Text;
  HeaderValue = Text;
  HeaderMap = List (Text × Text);
  header_name_from_bytes = λ b. ok b;
  header_value_from_str = λ t. ok t;
  to_str = λ t. some t;
  new_headers = [];
  insert = λ m n v. (n, v) ∷ m;
  entries = λ m. m;
  accept = codes "accept";
  content_type = codes "content-type";
  value_from_text = λ t. t;
  json_from_str = λ t. ok null;
}

-- The first attempt does not connect, the second is answered 503, and all later ones 200.
abbrev pub toy_network : ℕ → RequestBuilder toy_http → Result Bool (Response toy_http)
toy_network zero request = err true
toy_network (suc zero) request =
    ok (record { status = 503; headers = λ _. none; text = ok (codes "busy") })
toy_network (suc (suc n)) request =
    ok (record { status = 200; headers = λ _. none; text = ok (codes "fine") })

-- The address of the bytes 1 and 2 in the crypto stand-in: the payload and its checksum.
abbrev pub toy_address : Text
toy_address = codes "010201020000"

abbrev pub toy_status : ChainStatusDto
toy_status = record {
  chain_id = codes "1b7a9800";
  branches = [];
  not_linked_blocks = [];
  longest_chain_height = pos 42;
  longest_chain_hash = codes "abc";
  genesis_block_hash = codes "genesis";
  genesis_contract_address = toy_address;
  last_irreversible_block_hash = codes "lib";
  last_irreversible_block_height = pos 40;
  best_chain_hash = codes "0x0a0b0c0d0e";
  best_chain_height = pos 42;
}

abbrev refuses : {A B : Type 0} → A → Result Text B
refuses _ = err (codes "refused")

abbrev pub toy_codec : Codec
toy_codec = record {
  Float = ℕ;
  chain_status = λ _. ok toy_status;
  block = refuses;
  pool_status = refuses;
  raw_transaction = refuses;
  raw_transaction_sent = refuses;
  texts = refuses;
  boolean = refuses;
  transaction_result = refuses;
  transaction_results = refuses;
  merkle_path = refuses;
  peers = refuses;
  network_info = refuses;
  task_queues = refuses;
  transaction_fee = refuses;
  create_raw_transaction_value = refuses;
  send_raw_transaction_value = refuses;
  calculate_fee_value = refuses;
  sent_from_str = refuses;
  text_from_str = refuses;
  boolean_from_str = refuses;
  base64_decode = decode;
  encode_hash = λ h. h.value;
  decode_address_message = λ b. ok (record { value = b });
  decode_string_value = λ b. ok b;
}

abbrev pub toy_provider : Provider Bool ℕ
toy_provider = record {
  request_json = λ method path query body n. (ok null, suc n);
  request_text = λ method path query body n. (ok (replicate 64 b'a'), suc n);
}
