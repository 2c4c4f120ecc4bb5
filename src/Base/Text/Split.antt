-- ===== src/Base/Text/Split.antt =====
-- `str::split` at a character.
use Prim.Native.Nat.{ℕ}
use mathlib.Core.Path.{◌≡◌, refl}
use mathlib.Core.Logic.{◌≢◌, inl, inr}
use mathlib.Core.List.{List, [], ◌∷◌, ◌++◌}
use native.Mathlib.Omega.{arith}
use aelf_web3_rust.Base.Tests.{◌==◌, ==_iff, Bool-cases, if◌then◌else◌}
use aelf_web3_rust.Base.Lists.{All}
use aelf_web3_rust.Base.Text.{Text}

-- One more character of the first part.
abbrev extend : ℕ → List Text → List Text
extend c [] = (c ∷ []) ∷ []
extend c (p ∷ ps) = (c ∷ p) ∷ ps

-- Always at least one part.
unfoldable pub split : Text → ℕ → List Text
split [] sep = [] ∷ []
split (c ∷ s) sep = let rest = split s sep in if c == sep then [] ∷ rest else extend c rest

abbrev pub Lacks : ℕ → Text → Type 0
Lacks sep = All (λ c. c ≢ sep)

pub split-Lacks : (s : Text) (sep : ℕ) → Lacks sep s → split s sep ≡ s ∷ []
unfolding split
split-Lacks [] sep h = refl
split-Lacks (c ∷ s) sep h = ground (arith, split-Lacks s sep h.1)

pub split-append : (s t : Text) (sep : ℕ) → Lacks sep s → split (s ++ sep ∷ t) sep ≡ s ∷ split t sep
unfolding split
split-append [] t sep h = ground arith
split-append (c ∷ s) t sep h = ground (arith, split-append s t sep h.1)

-- The parts with `sep` between them.
abbrev pub join : List Text → ℕ → Text
join [] sep = []
join (p ∷ []) sep = p
join (p ∷ q ∷ ps) sep = p ++ sep ∷ join (q ∷ ps) sep

join-nil-cons : (ps : List Text) (sep : ℕ) → ps ≢ [] → join ([] ∷ ps) sep ≡ sep ∷ join ps sep
join-nil-cons [] sep h = absurd (h refl)
join-nil-cons (p ∷ ps) sep h = refl

join-extend :
    (c : ℕ) (ps : List Text) (sep : ℕ) → ps ≢ [] → join (extend c ps) sep ≡ c ∷ join ps sep
join-extend c [] sep h = absurd (h refl)
join-extend c (p ∷ []) sep h = refl
join-extend c (p ∷ q ∷ ps) sep h = refl

extend-ne-nil : (c : ℕ) (ps : List Text) → extend c ps ≢ []
extend-ne-nil c [] h = cc
extend-ne-nil c (p ∷ ps) h = cc

split-ne-nil : (s : Text) (sep : ℕ) → split s sep ≢ []
unfolding split
split-ne-nil [] sep h = cc
split-ne-nil (c ∷ s) sep h = ground (arith, extend-ne-nil c (split s sep))

-- The parts of a split, joined, are the text.
pub join-split : (s : Text) (sep : ℕ) → join (split s sep) sep ≡ s
unfolding split
join-split [] sep = refl
join-split (c ∷ s) sep = ground (
  arith,
  join-split s sep,
  ==_iff c sep,
  split-ne-nil s sep,
  join-nil-cons (split s sep) sep (split-ne-nil s sep),
  join-extend c (split s sep) sep (split-ne-nil s sep),
)

extend-Lacks :
    (c : ℕ) (ps : List Text) (sep : ℕ)
    → c ≢ sep
    → All (Lacks sep) ps
    → All (Lacks sep) (extend c ps)
extend-Lacks c [] sep h hs = ((h, tt), tt)
extend-Lacks c (p ∷ ps) sep h (hp, hs) = ((h, hp), hs)

-- No part holds the separator.
pub split-All-Lacks : (s : Text) (sep : ℕ) → All (Lacks sep) (split s sep)
unfolding split
split-All-Lacks [] sep = (tt, tt)
split-All-Lacks (c ∷ s) sep = elim (Bool-cases (c == sep)) [
  | inl e ↦ rw e (tt, split-All-Lacks s sep)
  | inr e ↦ rw e (extend-Lacks c (split s sep) sep (λ q. ground arith) (split-All-Lacks s sep))
]
