-- ===== src/Stubs/Contract.antt =====
-- Descriptors by name: a message is its full name, a field the name of its message or empty, and a method
-- its name. The JSON of the two messages keeps their bytes as a text.
use aelf_web3_rust.Base.{
  ◌≡◌, refl, [], ◌∷◌, false, Option, none, some, list_eq, if◌then◌else◌, Result, ok, err, panic,
}
use aelf_web3_rust.Base.Text.{Text, Bytes, codes}
use aelf_web3_rust.Base.Json.{Value, string, object, entry, object_end, text_object}
use aelf_web3_rust.Crypto.Proto.{Address, Hash}
use aelf_web3_rust.Base.Word.{pos}
use aelf_web3_rust.Contract.Reflect.{Reflect}
use aelf_web3_rust.Contract.Typed.{Message, Messages}
use aelf_web3_rust.Contract.Normalize.Addresses.{JsonLaws}

abbrev bytes_of : Value → Result Text Bytes
bytes_of (object (entry key (string b) object_end)) = ok b
bytes_of _ = err (codes "bad message")

abbrev address_of : Result Text Bytes → Result Text Address
address_of (ok b) = ok (record { value = b })
address_of (err e) = err e
address_of panic = panic

abbrev hash_of : Result Text Bytes → Result Text Hash
hash_of (ok b) = ok (record { value = b })
hash_of (err e) = err e
hash_of panic = panic

-- The one message with fields has an owner, which is an address.
abbrev field_by_name : Text → Text → Option Text
field_by_name message key =
    if list_eq key (codes "owner") then some (codes "aelf.Address") else none

abbrev pub toy_reflect : Reflect
toy_reflect = record {
  DescriptorPool = Unit;
  MessageDescriptor = Text;
  FieldDescriptor = Text;
  MethodDescriptor = Text;
  decode_pool = λ b. ok tt;
  services = λ _. (codes "A" ∷ codes "B" ∷ []) ∷ (codes "B" ∷ codes "C" ∷ []) ∷ [];
  method_name = λ m. m;
  full_name = λ d. d;
  get_field_by_json_name = λ d k. none;
  get_field_by_name = field_by_name;
  is_list = λ f. false;
  is_map = λ f. false;
  message_kind = λ f. some f;
  map_entry_value_field = λ d. d;
  input_of = λ m. codes "token.GetBalanceInput";
  output_of = λ m. codes "token.GetBalanceOutput";
  DynamicMessage = Value;
  deserialize = λ d v. ok v;
  encode_message = λ v. [];
  decode_message = λ d b. ok (text_object (codes "value") b);
  message_value = λ v. ok v;
  address_value = λ a. ok (text_object (codes "value") a.value);
  value_address = λ v. address_of (bytes_of v);
  hash_value = λ h. ok (text_object (codes "value") h.value);
  value_hash = λ v. hash_of (bytes_of v);
}

ok-value : {v w : Value} → ◌≡◌ {A = Result Text Value} (ok v) (ok w) → w ≡ v
ok-value h = cc

pub toy-JsonLaws : JsonLaws toy_reflect
toy-JsonLaws = record {
  address_object = λ a v h.
      (entry (codes "value") (string a.value) object_end, ok-value h, rw (ok-value h) refl);
  hash_object = λ a v h.
      (entry (codes "value") (string a.value) object_end, ok-value h, rw (ok-value h) refl);
}

abbrev bytes_message : Message
bytes_message = record { Content = Bytes; encode = λ b. b; decode = λ b. ok b }

abbrev pub toy_messages : Messages
toy_messages = record {
  get_balance_input = bytes_message;
  get_balance_output = bytes_message;
  get_token_info_input = bytes_message;
  token_info = bytes_message;
  transfer_input = bytes_message;
  cross_chain_transfer_input = bytes_message;
  candidate_vote = bytes_message;
  elector_vote = bytes_message;
  get_voting_item_input = bytes_message;
  voting_item = bytes_message;
  voting_record = bytes_message;
  voting_result = bytes_message;
  chain_status = bytes_message;
  round = bytes_message;
  decode_pubkey_list = λ b. ok (b ∷ []);
  decode_miner_list = λ b. ok (b ∷ []);
  encode_string_value = λ t. t;
  encode_int32_value = λ n. [];
  decode_int32_value = λ b. ok (pos 0);
  decode_int64_value = λ b. ok (pos 0);
}
