-- ===== src/Contract/Normalize/Fields.antt =====
-- crates/aelf-contract/src/lib.rs: what normalization leaves as it is.
use aelf_web3_rust.Base.{
  ◌≡◌, refl, ap, ◌∙◌, List, [], ◌∷◌, false, inl, inr, none, some, Option-cases, ok, map_ok,
  map_ok-eq-ok, bind_ok, ok-injective, sym, subst, arith,
}
use aelf_web3_rust.Base.Text.{Text}
use aelf_web3_rust.Base.Json.{
  Value, Entries, null, bool, number, string, array, object, object_end, entry,
}
use aelf_web3_rust.Crypto.Crates.{Crates}
use aelf_web3_rust.Contract.Reflect.{ContractResult, Reflect}
use aelf_web3_rust.Contract.Normalize.{
  JsonDirection, input, output, is_address, is_hash, field_of, normalize_object, normalize_string,
  normalize_json_message, normalize_entries, normalize_json_field,
}

abbrev pub keys : Entries → List Text
keys object_end = []
keys (entry key value rest) = key ∷ keys rest

module _ (crates : Crates) (reflect : Reflect) {H : Type 0} where
  open reflect use {MessageDescriptor, FieldDescriptor, message_kind}

  -- The value behind a key, as the loop normalizes it.
  abbrev normalized_value :
      MessageDescriptor → JsonDirection → Text → Value → ContractResult H Value
  normalized_value desc direction key value = elim (field_of reflect desc key) [
    | some field ↦ normalize_json_field crates reflect {H = H} field direction value
    | none ↦ ok value
  ]

  keys-normalize_entries :
      (desc : MessageDescriptor) (direction : JsonDirection) (entries normalized : Entries)
      → normalize_entries crates reflect {H = H} desc direction entries ≡ ok normalized
      → keys normalized ≡ keys entries
  unfolding normalize_json_message
  keys-normalize_entries desc direction object_end normalized h = ap keys (sym (ok-injective h))
  keys-normalize_entries desc direction (entry key value rest) normalized h =
      bind_ok (normalized_value desc direction key value) _ h λ value' _ h₁.
        bind_ok (normalize_entries crates reflect {H = H} desc direction rest) _ h₁
          λ rest' others made.
            subst (λ (e : Entries). keys e ≡ key ∷ keys rest) (ok-injective made)
              (ap (λ (ks : List Text). key ∷ ks)
                (keys-normalize_entries desc direction rest rest' others))

  plain_object :
      (desc : MessageDescriptor) (direction : JsonDirection) (entries : Entries)
      (r : ContractResult H Entries)
      → is_address reflect desc ≡ false
      → is_hash reflect desc ≡ false
      → normalize_object crates reflect {H = H} desc direction entries r ≡ map_ok object r
  plain_object desc input entries r a b = rw (normalize_object, a, b)
  plain_object desc output entries r a b = rw (normalize_object, a, b)

  -- For a message that is neither an address nor a hash, in both directions, an object that is
  -- normalized successfully gives an object with the same keys in the same order.
  pub normalize_json_message-keys :
      (desc : MessageDescriptor) (direction : JsonDirection) (entries : Entries) (v : Value)
      → is_address reflect desc ≡ false
      → is_hash reflect desc ≡ false
      → normalize_json_message crates reflect {H = H} desc direction (object entries) ≡ ok v
      → (normalized : Entries) × (v ≡ object normalized) × (keys normalized ≡ keys entries)
  unfolding normalize_json_message
  normalize_json_message-keys desc direction entries v a b h =
      let r = normalize_entries crates reflect {H = H} desc direction entries in
      let (normalized, e, made) =
        map_ok-eq-ok object r (sym (plain_object desc direction entries r a b) ∙ h) in
      (normalized, sym made, keys-normalize_entries desc direction entries normalized e)

  scalar_field :
      (field : FieldDescriptor) (direction : JsonDirection) (value : Value)
      → message_kind field ≡ none
      → normalize_json_field crates reflect {H = H} field direction value ≡ ok value
  unfolding normalize_json_message
  scalar_field field direction null h = refl
  scalar_field field direction (bool b) h = refl
  scalar_field field direction (number n) h = refl
  scalar_field field direction (string t) h = rw h (ground arith)
  scalar_field field direction (array items) h = rw h (ground arith)
  scalar_field field direction (object fields) h = rw h (ground arith)

  scalar_entries :
      ((field : FieldDescriptor) → message_kind field ≡ none)
      → (desc : MessageDescriptor) (direction : JsonDirection) (fields : Entries)
      → normalize_entries crates reflect {H = H} desc direction fields ≡ ok fields
  unfolding normalize_json_message
  scalar_entries scalar desc direction object_end = refl
  scalar_entries scalar desc direction (entry key value rest) =
      elim (Option-cases (field_of reflect desc key)) [
        | inl e ↦ rw (normalize_entries, e, scalar_entries scalar desc direction rest)
        | inr (field, e) ↦ rw (
          normalize_entries,
          e,
          scalar_field field direction value (scalar field),
          scalar_entries scalar desc direction rest,
        )
      ]

  plain_string :
      (desc : MessageDescriptor) (direction : JsonDirection) (t : Text)
      → is_address reflect desc ≡ false
      → is_hash reflect desc ≡ false
      → normalize_string crates reflect {H = H} desc direction t ≡ ok (string t)
  plain_string desc input t a b = rw (normalize_string, a, b)
  plain_string desc output t a b = refl

  -- Where no field holds a message, a value for a message that is neither an address nor a hash is left
  -- as it is, in both directions.
  pub normalize_json_message-scalar :
      ((field : FieldDescriptor) → message_kind field ≡ none)
      → (desc : MessageDescriptor) (direction : JsonDirection) (value : Value)
      → is_address reflect desc ≡ false
      → is_hash reflect desc ≡ false
      → normalize_json_message crates reflect {H = H} desc direction value ≡ ok value
  unfolding normalize_json_message
  normalize_json_message-scalar scalar desc direction null a b = refl
  normalize_json_message-scalar scalar desc direction (bool t) a b = refl
  normalize_json_message-scalar scalar desc direction (number n) a b = refl
  normalize_json_message-scalar scalar desc direction (array items) a b = refl
  normalize_json_message-scalar scalar desc direction (string t) a b =
      plain_string desc direction t a b
  normalize_json_message-scalar scalar desc direction (object fields) a b =
      plain_object desc direction fields _ a b
      ∙ ap (map_ok object) (scalar_entries scalar desc direction fields)
