-- ===== src/Base/Json.antt =====
-- `serde_json::Value`, with an object as the list of its entries in order. A number is kept as its text.
use aelf_web3_rust.Base.Text.{Text}
use aelf_web3_rust.Base.{Bool, true, false, ◌||◌, ◌&&◌, [], ◌∷◌, ◌≡◌, refl, ltb, ◌==◌, arith}

mutual
  pub data Value : Type 0 where
    null : Value
    bool : Bool → Value
    number : Text → Value
    string : Text → Value
    array : Values → Value
    object : Entries → Value

  pub data Values : Type 0 where
    array_end : Values
    one_more : Value → Values → Values

  pub data Entries : Type 0 where
    object_end : Entries
    entry : Text → Value → Entries → Entries

-- `json!({ key: text })`.
abbrev pub text_object : Text → Text → Value
text_object key text = object (entry key (string text) object_end)

-- `str::cmp`, below: by bytes, which is by scalar values.
unfoldable pub text_ltb : Text → Text → Bool
text_ltb s [] = false
text_ltb [] (d ∷ t) = true
text_ltb (c ∷ s) (d ∷ t) = ltb c d || (c == d && text_ltb s t)

pub text_ltb_irrefl : (s : Text) → text_ltb s s ≡ false
unfolding text_ltb
text_ltb_irrefl [] = refl
text_ltb_irrefl (c ∷ s) = ground (arith, text_ltb_irrefl s)

abbrev pub Below : Text → Entries → Type 0
Below key object_end = Unit
Below key (entry k value rest) = (text_ltb key k ≡ true) × Below key rest

abbrev pub Ascending : Entries → Type 0
Ascending object_end = Unit
Ascending (entry key value rest) = Below key rest × Ascending rest

-- `serde_json::Map`: the entries by ascending keys, so that no key stands twice.
pub record JsonMap : Type 0 where
  pub entries : Entries
  pub ascending : Ascending entries
