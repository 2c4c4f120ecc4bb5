-- ===== src/Keystore/Cipher/Names.antt =====
-- The names of the ciphers.
use aelf_web3_rust.Base.{◌≡◌, refl, sym, ◌∙◌, ◌⊎◌, ◌↔◌, inl, inr, arith, ok, list_eq→eq}
use aelf_web3_rust.Base.Text.{Text, codes}
use aelf_web3_rust.Base.Text.Ascii.{to_ascii_lowercase}
use aelf_web3_rust.Keystore.Cipher.{
  CipherSpec, aes128_ctr, aes192_ctr, aes256_ctr, aes128_cbc, aes192_cbc, aes256_cbc, spec_of_name,
  parse, as_str,
}

-- The second name of a CBC cipher; a CTR cipher has the one name.
abbrev pub short_name : CipherSpec → Text
short_name aes128_cbc = codes "aes128"
short_name aes192_cbc = codes "aes192"
short_name aes256_cbc = codes "aes256"
short_name spec = as_str spec

-- The name that a keystore stores is parsed back, in any case of letters, and so is the short name of a CBC cipher.
pub parse-as_str :
    (spec : CipherSpec) (value : Text)
    → (to_ascii_lowercase value ≡ as_str spec) ⊎ (to_ascii_lowercase value ≡ short_name spec)
    → parse value ≡ ok spec
unfolding parse
parse-as_str aes128_ctr value (inl e) = rw e
parse-as_str aes192_ctr value (inl e) = rw e
parse-as_str aes256_ctr value (inl e) = rw e
parse-as_str aes128_cbc value (inl e) = rw e
parse-as_str aes192_cbc value (inl e) = rw e
parse-as_str aes256_cbc value (inl e) = rw e
parse-as_str aes128_ctr value (inr e) = rw e
parse-as_str aes192_ctr value (inr e) = rw e
parse-as_str aes256_ctr value (inr e) = rw e
parse-as_str aes128_cbc value (inr e) = rw e
parse-as_str aes192_cbc value (inr e) = rw e
parse-as_str aes256_cbc value (inr e) = rw e

spec_of_name-eq-ok :
    (spec : CipherSpec) (name : Text)
    → spec_of_name name ≡ ok spec
    → (name ≡ as_str spec) ⊎ (name ≡ short_name spec)
unfolding spec_of_name
spec_of_name-eq-ok aes128_ctr name h = ground (arith, list_eq→eq name (codes "aes-128-ctr"))
spec_of_name-eq-ok aes192_ctr name h = ground (arith, list_eq→eq name (codes "aes-192-ctr"))
spec_of_name-eq-ok aes256_ctr name h = ground (arith, list_eq→eq name (codes "aes-256-ctr"))
spec_of_name-eq-ok aes128_cbc name h =
    ground (arith, list_eq→eq name (codes "aes-128-cbc"), list_eq→eq name (codes "aes128"))
spec_of_name-eq-ok aes192_cbc name h =
    ground (arith, list_eq→eq name (codes "aes-192-cbc"), list_eq→eq name (codes "aes192"))
spec_of_name-eq-ok aes256_cbc name h =
    ground (arith, list_eq→eq name (codes "aes-256-cbc"), list_eq→eq name (codes "aes256"))

pub parse-spec_of_name : (value : Text) → parse value ≡ spec_of_name (to_ascii_lowercase value)
unfolding parse
parse-spec_of_name value = refl

-- A text is parsed to a cipher exactly when it is, in any case of letters, the name that a keystore
-- stores for the cipher or, for a CBC cipher, its short name.
pub parse_iff :
    (spec : CipherSpec) (value : Text)
    → (parse value ≡ ok spec)
      ↔ ((to_ascii_lowercase value ≡ as_str spec) ⊎ (to_ascii_lowercase value ≡ short_name spec))
parse_iff spec value =
    ((λ h. spec_of_name-eq-ok spec _ (sym (parse-spec_of_name value) ∙ h)), parse-as_str spec value)

pub parse-own_name : (spec : CipherSpec) → parse (as_str spec) ≡ ok spec
unfolding parse
parse-own_name aes128_ctr = refl
parse-own_name _ = refl
