-- ===== src/Client/Dto.antt =====
-- crates/aelf-client/src/dto/mod.rs: the payloads of the REST API. The derived readers and writers are
-- parameters of their users. A HashMap is a list of pairs with one pair for each key.
pub mod Heights
pub mod Fees
use aelf_web3_rust.Base.{
  ℕ, List, [], ◌∷◌, Bool, Option, none, some, Result, ok, err, panic, ◌>>=◌, ok_or, map_err, ◌++◌,
  if◌then◌else◌, list_eq,
}
use aelf_web3_rust.Base.Text.{Text, Bytes, codes, unwrap_or}
use aelf_web3_rust.Base.Word.{ℤ, pos}
use aelf_web3_rust.Base.Decimal.{parse_i64}
use aelf_web3_rust.Base.Json.{
  Value, Entries, JsonMap, null, bool, number, string, array, object, object_end, entry,
}

-- `HashMap<String, A>`.
abbrev pub HashMap : Type 0 → Type 0
HashMap A = List (Text × A)

-- `HashMap::get` and `HashMap::insert`, which replaces the value of a key that is there.
unfoldable pub lookup : {A : Type 0} → Text → HashMap A → Option A
unfolding list_eq
lookup key [] = none
lookup key ((k, a) ∷ m) = if list_eq key k then some a else lookup key m

unfoldable pub insert : {A : Type 0} → HashMap A → Text → A → HashMap A
unfolding list_eq
insert [] key a = (key, a) ∷ []
insert ((k, b) ∷ m) key a = if list_eq key k then (key, a) ∷ m else (k, b) ∷ insert m key a

pub record ChainStatusDto : Type 0 where
  pub chain_id : Text
  pub branches : HashMap ℤ
  pub not_linked_blocks : HashMap ℤ
  pub longest_chain_height : ℤ
  pub longest_chain_hash : Text
  pub genesis_block_hash : Text
  pub genesis_contract_address : Text
  pub last_irreversible_block_hash : Text
  pub last_irreversible_block_height : ℤ
  pub best_chain_hash : Text
  pub best_chain_height : ℤ

pub record BlockHeaderDto : Type 0 where
  pub height : ℤ
  pub previous_block_hash : Text

pub record BlockBodyDto : Type 0 where
  pub transactions : List Text

pub record BlockDto : Type 0 where
  pub block_hash : Text
  pub header : BlockHeaderDto
  pub body : BlockBodyDto

pub record TransactionPoolStatusOutput : Type 0 where
  pub queued : ℤ
  pub validated : ℤ

pub record CreateRawTransactionInput : Type 0 where
  pub from : Text
  pub to : Text
  pub ref_block_number : ℤ
  pub ref_block_hash : Text
  pub method_name : Text
  pub params : Text

pub record CreateRawTransactionOutput : Type 0 where
  pub raw_transaction : Text

pub record ExecuteRawTransactionDto : Type 0 where
  pub raw_transaction : Text
  pub signature : Text

pub record SendRawTransactionInput : Type 0 where
  pub transaction : Text
  pub signature : Text
  pub return_transaction : Bool

pub record TransactionDto : Type 0 where
  pub from : Text
  pub to : Text
  pub ref_block_number : ℤ
  pub ref_block_prefix : Text
  pub method_name : Text
  pub params : Text
  pub signature : Text

pub record SendRawTransactionOutput : Type 0 where
  pub transaction_id : Text
  pub transaction : TransactionDto

pub record SendTransactionOutput : Type 0 where
  pub transaction_id : Text

pub record LogEventDto : Type 0 where
  pub address : Text
  pub name : Text
  pub indexed : List Text
  pub non_indexed : Text

pub record TransactionResultDto : Type 0 where
  pub transaction_id : Text
  pub status : Text
  pub logs : List LogEventDto
  pub bloom : Text
  pub transaction : Value
  pub return_value : Text
  pub block_number : ℤ
  pub block_hash : Text
  pub error : Text

pub record MerklePathNodeDto : Type 0 where
  pub hash : Text
  pub is_left_child_node : Bool

pub record MerklePathDto : Type 0 where
  pub merkle_path_nodes : List MerklePathNodeDto

pub record PeerDto : Type 0 where
  pub ip_address : Text
  pub extra : HashMap Value

pub record NetworkInfoOutput : Type 0 where
  pub version : Text
  pub extra : HashMap Value

pub record TaskQueueInfoDto : Type 0 where
  pub extra : HashMap Value

pub record CalculateTransactionFeeInput : Type 0 where
  pub raw_transaction : Text

-- `F` is `f64`.
pub record CalculateTransactionFeeOutput (F : Type 0) : Type 0 where
  pub success : Bool
  pub transaction_fee : HashMap F

-- The field readers. Each is given what `Option::<..>::deserialize` answers for its field.
unfoldable pub null_string_as_default : Result Text (Option Text) → Result Text Text
null_string_as_default read = do value ← read; ok (unwrap_or value [])

unfoldable pub null_vec_as_default :
    {A : Type 0} → Result Text (Option (List A)) → Result Text (List A)
null_vec_as_default read = do value ← read; ok (unwrap_or value [])

unfoldable pub null_json_as_default : Result Text (Option Value) → Result Text Value
null_json_as_default read = do value ← read; ok (unwrap_or value null)

unfoldable pub null_i64_as_default : Result Text (Option ℤ) → Result Text ℤ
null_i64_as_default read = do value ← read; ok (unwrap_or value (pos 0))

-- `as_i64` is `serde_json::Number::as_i64`, and `display` writes a value.
module _ (as_i64 : Text → Option ℤ) (display : Value → Text) where
  abbrev bad_value : Text → Value → Result Text (Text × ℤ)
  bad_value key other =
      err (codes "invalid block height map value for '" ++ key ++ codes "': " ++ display other)

  -- The entry that the body of the loop adds: a number or a text of a number stands after its hash, and
  -- any other text is a hash after its height.
  unfoldable pub height_entry : Text → Value → Result Text (Text × ℤ)
  unfolding parse_i64
  height_entry key (number n) = do
    height ←
        ok_or (as_i64 n)
          (codes "block height value for '" ++ key ++ codes "' is not a signed integer")
    ok (key, height)
  height_entry key (string text) = elim (parse_i64 text) [
    | ok height ↦ ok (key, height)
    | err _ ↦ do
      inverted_height ←
          map_err
            (λ _.
              codes "invalid block height map entry '" ++ key ++ codes "': '" ++ text ++ codes "'")
            (parse_i64 key)
      ok (text, inverted_height)
    | panic ↦ panic
  ]
  height_entry key null = bad_value key null
  height_entry key (bool b) = bad_value key (bool b)
  height_entry key (array values) = bad_value key (array values)
  height_entry key (object entries) = bad_value key (object entries)

  unfoldable pub insert_heights : HashMap ℤ → Entries → Result Text (HashMap ℤ)
  unfolding height_entry insert
  insert_heights result object_end = ok result
  insert_heights result (entry key value rest) = do
    (hash, height) ← height_entry key value
    insert_heights (insert result hash height) rest

  unfoldable pub block_height_map_as_default :
      Result Text (Option JsonMap) → Result Text (HashMap ℤ)
  unfolding insert_heights
  block_height_map_as_default read = do
    value ← read
    insert_heights [] (elim value [ none ↦ object_end | some map ↦ map.entries ])

-- The charge of a log. The engine and the two messages' decoders are arguments; both carry a symbol and an
-- amount.
pub record ChargedEvent : Type 0 where
  pub symbol : Text
  pub amount : ℤ

module _ (base64_decode : Text → Result Text Bytes)
    (decode_fee decode_resource : Bytes → Result Text ChargedEvent) where
  -- `let Ok(..) = .. else { continue }`, twice.
  abbrev pub add_event : HashMap ℤ → Result Text ChargedEvent → HashMap ℤ
  add_event result (ok event) = insert result event.symbol event.amount
  add_event result (err _) = result
  add_event result panic = result

  abbrev pub add_bytes :
      HashMap ℤ → (Bytes → Result Text ChargedEvent) → Result Text Bytes → HashMap ℤ
  add_bytes result decode (ok bytes) = add_event result (decode bytes)
  add_bytes result decode (err _) = result
  add_bytes result decode panic = result

  unfoldable pub add_log : HashMap ℤ → LogEventDto → HashMap ℤ
  unfolding insert list_eq
  add_log result log =
      if list_eq log.name (codes "TransactionFeeCharged")
      then add_bytes result decode_fee (base64_decode log.non_indexed)
      else if list_eq log.name (codes "ResourceTokenCharged")
      then add_bytes result decode_resource (base64_decode log.non_indexed)
      else result

  unfoldable pub add_logs : HashMap ℤ → List LogEventDto → HashMap ℤ
  unfolding add_log
  add_logs result [] = result
  add_logs result (log ∷ logs) = add_logs (add_log result log) logs

  unfoldable pub get_transaction_fees : TransactionResultDto → HashMap ℤ
  unfolding add_logs
  get_transaction_fees self = add_logs [] self.logs
