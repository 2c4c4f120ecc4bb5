-- ===== src/Crypto/Address/Formatted.antt =====
-- `parse_aelf_address`: which texts are formatted addresses, and what is taken from them.
use mathlib.Core.List.{cons-ne-nil}
use aelf_web3_rust.Base.{
  ◌≡◌, refl, ap, subst, ◌≢◌, ◌⊎◌, inl, inr, List, [], ◌∷◌, ◌++◌, some, arith, All, Option-cases,
}
use aelf_web3_rust.Base.Text.{Text}
use aelf_web3_rust.Base.Text.Split.{
  split, split-append, split-Lacks, split-All-Lacks, join, join-split, Lacks,
}
use aelf_web3_rust.Crypto.Address.{middle_part, parse_aelf_address}

-- `value` is `<prefix>_<address>_<chain id>`, with exactly two underscores and an address that is not empty.
pub record Formatted (value address : Text) : Type 0 where
  pub prefix : Text
  pub chain_id : Text
  pub spelled : value ≡ prefix ++ b'_' ∷ (address ++ b'_' ∷ chain_id)
  pub prefix_plain : Lacks b'_' prefix
  pub address_plain : Lacks b'_' address
  pub chain_id_plain : Lacks b'_' chain_id
  pub not_empty : address ≢ []

middle_part_three : (p a c : Text) → a ≢ [] → middle_part (p ∷ a ∷ c ∷ []) ≡ some a
unfolding middle_part
middle_part_three p [] c h = absurd (h refl)
middle_part_three p (x ∷ a) c h = refl

Formatted-middle_part :
    (value address : Text) → Formatted value address → middle_part (split value b'_') ≡ some address
Formatted-middle_part value address f =
    rw
      (
        f.spelled,
        split-append f.prefix _ b'_' f.prefix_plain,
        split-append address f.chain_id b'_' f.address_plain,
        split-Lacks f.chain_id b'_' f.chain_id_plain,
      )
      (middle_part_three f.prefix address f.chain_id f.not_empty)

middle_part-Formatted :
    (ps : List Text) (address : Text)
    → All (Lacks b'_') ps
    → middle_part ps ≡ some address
    → Formatted (join ps b'_') address
unfolding middle_part
middle_part-Formatted (p ∷ [] ∷ c ∷ []) address hs h = cc
middle_part-Formatted (p ∷ (x ∷ a) ∷ c ∷ []) address (hp, (ha, (hc, _))) h =
    subst (Formatted (p ++ b'_' ∷ ((x ∷ a) ++ b'_' ∷ c))) (ground arith) (record {
      prefix = p;
      chain_id = c;
      spelled = refl;
      prefix_plain = hp;
      address_plain = ha;
      chain_id_plain = hc;
      not_empty = cons-ne-nil x a;
    })
middle_part-Formatted _ address hs h = cc

-- A formatted address gives its middle part.
pub parse_aelf_address-Formatted :
    (value address : Text) → Formatted value address → parse_aelf_address value ≡ address
unfolding parse_aelf_address
parse_aelf_address-Formatted value address f = rw (Formatted-middle_part value address f)

-- Either the text is a formatted address, `<prefix>_<address>_<chain id>` with exactly two underscores
-- and an address that is not empty, and its address is returned, or it is not one, and it is returned
-- whole.
pub parse_aelf_address_cases :
    (value : Text)
    → ((address : Text) × Formatted value address × (parse_aelf_address value ≡ address))
      ⊎ (((address : Text) → ¬ Formatted value address) × (parse_aelf_address value ≡ value))
unfolding parse_aelf_address
parse_aelf_address_cases value = elim (Option-cases (middle_part (split value b'_'))) [
  | inl e ↦ inr ((λ a f. ground (arith, Formatted-middle_part value a f)), rw e)
  | inr (a, e) ↦ inl (
    a,
    subst (λ v. Formatted v a) (join-split value b'_')
        (middle_part-Formatted (split value b'_') a (split-All-Lacks value b'_') e),
    rw e,
  )
]

pub parse_aelf_address-Lacks : (value : Text) → Lacks b'_' value → parse_aelf_address value ≡ value
unfolding parse_aelf_address middle_part
parse_aelf_address-Lacks value h = rw (split-Lacks value b'_' h)

-- Parsing what was parsed changes nothing.
pub parse_aelf_address_idem :
    (value : Text) → parse_aelf_address (parse_aelf_address value) ≡ parse_aelf_address value
parse_aelf_address_idem value = elim (parse_aelf_address_cases value) [
  | inl (a, f, e) ↦ rw e (parse_aelf_address-Lacks a f.address_plain)
  | inr (_, e) ↦ ap parse_aelf_address e
]
