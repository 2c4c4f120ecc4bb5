-- ===== src/Client/Dto/Heights.antt =====
-- crates/aelf-client/src/dto/mod.rs: the maps of block hashes and heights, in both of their spellings.
use aelf_web3_rust.Base.{
  ◌≡◌, refl, sym, ap, subst, ◌∙◌, List, [], ◌∷◌, Option, some, Result, ok, err, All, true,
  Bool-cases, inl, inr, ◌⊎◌, ◌↔◌, list_eq, list_eq_refl, list_eq→eq,
}
use aelf_web3_rust.Base.Text.{Text}
use aelf_web3_rust.Base.Word.{ℤ, IsI64}
use aelf_web3_rust.Base.Json.{
  Value, Entries, JsonMap, Below, Ascending, text_ltb, text_ltb_irrefl, number, string, object_end,
  entry,
}
use aelf_web3_rust.Base.Decimal.{ParseIntError, parse_i64, int_to_string}
use aelf_web3_rust.Base.Decimal.RoundTrip.{parse_i64-int_to_string}
use aelf_web3_rust.Client.Dto.Fees.{lookup-insert}
use aelf_web3_rust.Client.Dto.{
  HashMap, lookup, insert, height_entry, insert_heights, block_height_map_as_default,
}

-- The hashes with their heights as text, and the heights as text with their hashes.
abbrev pub hash_to_height : List (Text × ℤ) → Entries
hash_to_height [] = object_end
hash_to_height ((hash, height) ∷ rest) =
    entry hash (string (int_to_string height)) (hash_to_height rest)

abbrev pub height_to_hash : List (Text × ℤ) → Entries
height_to_hash [] = object_end
height_to_hash ((hash, height) ∷ rest) =
    entry (int_to_string height) (string hash) (height_to_hash rest)

-- The hashes with their heights as numbers, as `to_number` writes them.
abbrev pub hash_to_number : (ℤ → Text) → List (Text × ℤ) → Entries
hash_to_number to_number [] = object_end
hash_to_number to_number ((hash, height) ∷ rest) =
    entry hash (number (to_number height)) (hash_to_number to_number rest)

abbrev pub inserted : HashMap ℤ → List (Text × ℤ) → HashMap ℤ
inserted m [] = m
inserted m ((hash, height) ∷ rest) = inserted (insert m hash height) rest

-- A hash that is not itself the text of an `i64`, and a height that is an `i64`.
abbrev pub IsBranch : Text × ℤ → Type 0
IsBranch (hash, height) = ((e : ParseIntError) × (parse_i64 hash ≡ err e)) × IsI64 height

-- The height of a hash among branches.
abbrev pub Has : Text → ℤ → List (Text × ℤ) → Type 0
Has hash height [] = ⊥
Has hash height ((hash', height') ∷ rest) =
    ((hash ≡ hash') × (height ≡ height')) ⊎ Has hash height rest

abbrev pub SameBranches : List (Text × ℤ) → List (Text × ℤ) → Type 0
SameBranches a b = (hash : Text) (height : ℤ) → Has hash height a ↔ Has hash height b

abbrev IsFunctional : List (Text × ℤ) → Type 0
IsFunctional b = (hash : Text) (x y : ℤ) → Has hash x b → Has hash y b → x ≡ y

Below-absent :
    (hash : Text) (x : ℤ) (rest : List (Text × ℤ))
    → Below hash (hash_to_height rest)
    → ¬ Has hash x rest
Below-absent hash x [] below has = has
Below-absent hash x ((hash', x') ∷ rest) (less, below) (inl (e, _)) =
    let not_less = text_ltb_irrefl hash in
    let less' = subst (λ k. text_ltb hash k ≡ true) (sym e) less in cc
Below-absent hash x ((hash', x') ∷ rest) (less, below) (inr has) =
    Below-absent hash x rest below has

-- Keys that ascend do not repeat.
ascending-IsFunctional : (b : List (Text × ℤ)) → Ascending (hash_to_height b) → IsFunctional b
ascending-IsFunctional [] a hash x y has has' = absurd has
ascending-IsFunctional ((h, z) ∷ b) (below, rest) hash x y (inl (e, ex)) (inl (e', ey)) =
    ex ∙ sym ey
ascending-IsFunctional ((h, z) ∷ b) (below, rest) hash x y (inl (e, ex)) (inr has) =
    absurd (Below-absent h y b below (subst (λ k. Has k y b) e has))
ascending-IsFunctional ((h, z) ∷ b) (below, rest) hash x y (inr has) (inl (e, ey)) =
    absurd (Below-absent h x b below (subst (λ k. Has k x b) e has))
ascending-IsFunctional ((h, z) ∷ b) (below, rest) hash x y (inr has) (inr has') =
    ascending-IsFunctional b rest hash x y has has'

-- A hash is found with a height that it has, or has none and is what it was before.
lookup-inserted :
    (hash : Text) (m : HashMap ℤ) (b : List (Text × ℤ))
    → ((x : ℤ) × Has hash x b × (lookup hash (inserted m b) ≡ some x))
      ⊎ (((x : ℤ) → ¬ Has hash x b) × (lookup hash (inserted m b) ≡ lookup hash m))
lookup-inserted hash m [] = inr (λ x h. h, refl)
lookup-inserted hash m ((h, z) ∷ b) = elim (lookup-inserted hash (insert m h z) b) [
  | inl (x, has, e) ↦ inl (x, inr has, e)
  | inr (absent, e) ↦ elim (Bool-cases (list_eq hash h)) [
    | inl same ↦
        inl (z, inl (list_eq→eq hash h same, refl), e ∙ lookup-insert m hash h z ∙ rw same refl)
    | inr other ↦ inr (
      λ x has. elim has [
        | inl (equal, _) ↦ let loop : list_eq hash h ≡ true = rw (← equal) (list_eq_refl hash) in cc
        | inr later ↦ absent x later
      ],
      e ∙ lookup-insert m hash h z ∙ rw other refl,
    )
  ]
]

Has-lookup :
    (hash : Text) (x : ℤ) (b : List (Text × ℤ))
    → IsFunctional b
    → Has hash x b
    → lookup hash (inserted [] b) ≡ some x
Has-lookup hash x b functional has = elim (lookup-inserted hash [] b) [
  | inl (y, has', e) ↦ e ∙ ap some (functional hash y x has' has)
  | inr (absent, _) ↦ absurd (absent x has)
]

same-lookup :
    (a b : List (Text × ℤ))
    → IsFunctional a
    → SameBranches a b
    → (hash : Text) → lookup hash (inserted [] a) ≡ lookup hash (inserted [] b)
same-lookup a b functional same hash = elim (lookup-inserted hash [] b) [
  | inl (y, has, e) ↦ Has-lookup hash y a functional ((same hash y).1 has) ∙ sym e
  | inr (absent, e) ↦ elim (lookup-inserted hash [] a) [
    | inl (x, has, _) ↦ absurd (absent x ((same hash x).0 has))
    | inr (_, e') ↦ e' ∙ sym e
  ]
]

module _ (as_i64 : Text → Option ℤ) (display : Value → Text) where
  abbrev pub reading : JsonMap → Result Text (HashMap ℤ)
  reading map = block_height_map_as_default as_i64 display (ok (some map))

  insert_hash_to_height :
      (m : HashMap ℤ) (branches : List (Text × ℤ))
      → All IsBranch branches
      → insert_heights as_i64 display m (hash_to_height branches) ≡ ok (inserted m branches)
  unfolding insert_heights height_entry
  insert_hash_to_height m [] h = refl
  insert_hash_to_height m ((hash, height) ∷ rest) ((not_height, fits), h) =
      rw (insert_heights, height_entry, parse_i64-int_to_string height fits)
        (insert_hash_to_height (insert m hash height) rest h)

  insert_height_to_hash :
      (m : HashMap ℤ) (branches : List (Text × ℤ))
      → All IsBranch branches
      → insert_heights as_i64 display m (height_to_hash branches) ≡ ok (inserted m branches)
  unfolding insert_heights height_entry
  insert_height_to_hash m [] h = refl
  insert_height_to_hash m ((hash, height) ∷ rest) (((e, not_height), fits), h) =
      rw (insert_heights, height_entry, not_height, parse_i64-int_to_string height fits)
        (insert_height_to_hash (insert m hash height) rest h)

  insert_hash_to_number :
      (to_number : ℤ → Text) (m : HashMap ℤ) (branches : List (Text × ℤ))
      → ((n : ℤ) → IsI64 n → as_i64 (to_number n) ≡ some n)
      → All IsBranch branches
      → insert_heights as_i64 display m (hash_to_number to_number branches)
        ≡ ok (inserted m branches)
  unfolding insert_heights height_entry
  insert_hash_to_number to_number m [] reads h = refl
  insert_hash_to_number to_number m ((hash, height) ∷ rest) reads ((not_height, fits), h) =
      rw (reads height fits) (insert_hash_to_number to_number (insert m hash height) rest reads h)

  -- For branches whose hashes are not texts of an `i64` and whose heights are `i64`s, written as three
  -- JSON maps with ascending keys: the heights as text after their hashes, the heights as numbers after
  -- their hashes, and the hashes after their heights as text. Where the last map has the same branches
  -- as the first two, and the JSON crate reads the written numbers back, all three are read, the first
  -- two to the same map and the third to one with the same height for every hash, and every branch has
  -- its height in it.
  pub block_height_map_as_default-spellings :
      (to_number : ℤ → Text) (by_hash by_height : List (Text × ℤ))
      → ((n : ℤ) → IsI64 n → as_i64 (to_number n) ≡ some n)
      → All IsBranch by_hash
      → All IsBranch by_height
      → SameBranches by_hash by_height
      → (texts : Ascending (hash_to_height by_hash))
        (numbers : Ascending (hash_to_number to_number by_hash))
        (inverted : Ascending (height_to_hash by_height))
      → (m m' : HashMap ℤ) × (reading
            (record { entries = hash_to_height by_hash; ascending = texts })
          ≡ ok m)
        × (reading (record { entries = hash_to_number to_number by_hash; ascending = numbers })
            ≡ ok m)
        × (reading (record { entries = height_to_hash by_height; ascending = inverted }) ≡ ok m')
        × ((hash : Text) → lookup hash m ≡ lookup hash m')
        × ((hash : Text) (height : ℤ) → Has hash height by_hash → lookup hash m ≡ some height)
  unfolding block_height_map_as_default
  block_height_map_as_default-spellings to_number by_hash by_height reads h h' same texts numbers
        inverted =
      let functional = ascending-IsFunctional by_hash texts in
      (
        inserted [] by_hash,
        inserted [] by_height,
        insert_hash_to_height [] by_hash h,
        insert_hash_to_number to_number [] by_hash reads h,
        insert_height_to_hash [] by_height h',
        same-lookup by_hash by_height functional same,
        λ hash height has. Has-lookup hash height by_hash functional has,
      )
