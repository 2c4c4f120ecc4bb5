-- ===== src/Base/Outcome.antt =====
-- Rust's `Result`, with the panic of a failed index or `unreachable!` as a third outcome. `?` is the
-- bind: an error or a panic ends the function.
use Prim.Native.Nat.{ℕ, ◌≤◌}
use mathlib.Core.List.{List}
use aelf_web3_rust.Base.Lists.{get_elem?, length, take, drop}
use aelf_web3_rust.Base.Tests.{leb, if◌then◌else◌}
use mathlib.Core.Path.{◌≡◌, refl}
use mathlib.Core.Logic.{◌≢◌}
use mathlib.Core.Bool.{Bool, true, false}
use mathlib.Core.Option.{Option, none, some}
use native.Mathlib.Omega.{arith}

pub data Result {ℓ κ} (E : Type ℓ) (A : Type κ) : Type (ℓ ⊔ κ) where
  ok : A → Result E A
  err : E → Result E A
  panic : Result E A

infixl 5 ◌>>=◌ ◌>>◌
abbrev pub ◌>>=◌ {ℓ κ μ} :
    {E : Type ℓ} {A : Type κ} {B : Type μ} → Result E A → (A → Result E B) → Result E B
ok a >>= f = f a
err e >>= f = err e
panic >>= f = panic

abbrev pub ◌>>◌ {ℓ μ} : {E : Type ℓ} {B : Type μ} → Result E (Unit {0}) → Result E B → Result E B
m >> k = m >>= λ _. k

-- `.map_err(f)`.
abbrev pub map_err {ℓ κ μ} :
    {D : Type ℓ} {E : Type κ} {A : Type μ} → (D → E) → Result D A → Result E A
map_err f (ok a) = ok a
map_err f (err e) = err (f e)
map_err f panic = panic

-- `.ok_or(e)`.
abbrev pub ok_or {ℓ κ} : {E : Type ℓ} {A : Type κ} → Option A → E → Result E A
ok_or none e = err e
ok_or (some a) e = ok a

-- `if !test { return Err(e); }`.
abbrev pub guard {ℓ} : {E : Type ℓ} → Bool → E → Result E (Unit {0})
guard true e = ok tt
guard false e = err e

-- `xs[i]`, which panics out of range.
abbrev pub index {ℓ κ} : {E : Type ℓ} {A : Type κ} → List A → ℕ → Result E A
index xs i = elim (get_elem? xs i) [ none ↦ panic | some a ↦ ok a ]

-- `&xs[..n]` and `&xs[n..]`, which panic out of range.
abbrev pub slice_to {ℓ κ} : {E : Type ℓ} {A : Type κ} → List A → ℕ → Result E (List A)
slice_to xs n = if leb n (length xs) then ok (take n xs) else panic

abbrev pub slice_from {ℓ κ} : {E : Type ℓ} {A : Type κ} → List A → ℕ → Result E (List A)
slice_from xs n = if leb n (length xs) then ok (drop n xs) else panic

-- `.is_ok()`.
abbrev pub is_ok {ℓ κ} : {E : Type ℓ} {A : Type κ} → Result E A → Bool
is_ok (ok a) = true
is_ok (err e) = false
is_ok panic = false

pub map_err-eq-ok {ℓ κ μ} :
    {D : Type ℓ} {E : Type κ} {A : Type μ} (f : D → E) (m : Result D A) {a : A}
    → map_err f m ≡ ok a
    → m ≡ ok a
map_err-eq-ok f (ok a) h = cc
map_err-eq-ok f (err e) h = cc
map_err-eq-ok f panic h = cc

pub ok-injective {ℓ κ} :
    {E : Type ℓ} {A : Type κ} {a b : A} → ◌≡◌ {A = Result E A} (ok a) (ok b) → a ≡ b
ok-injective h = cc

-- Inversion of a successful bind, for a proof that goes on with the value.
pub bind_ok {ℓ κ μ ν} :
    {E : Type ℓ} {A : Type κ} {B : Type μ} {C : Type ν} (m : Result E A) (f : A → Result E B)
    {b : B}
    → (m >>= f) ≡ ok b
    → ((a : A) → m ≡ ok a → f a ≡ ok b → C)
    → C
bind_ok (ok a) f h k = k a refl h
bind_ok (err e) f h k = absurd (cc)
bind_ok panic f h k = absurd (cc)

-- Inversion of a successful bind, where a proof wants the value and the two equations at hand.
pub >>=-eq-ok {ℓ κ μ} :
    {E : Type ℓ} {A : Type κ} {B : Type μ} (m : Result E A) (f : A → Result E B) {b : B}
    → (m >>= f) ≡ ok b
    → (a : A) × (m ≡ ok a) × (f a ≡ ok b)
>>=-eq-ok m f h = bind_ok m f h λ a first second. (a, first, second)

-- A bind panics only where one of its parts does.
pub bind-ne-panic {ℓ κ μ} :
    {E : Type ℓ} {A : Type κ} {B : Type μ} (m : Result E A) (f : A → Result E B)
    → m ≢ panic
    → ((a : A) → m ≡ ok a → f a ≢ panic)
    → (m >>= f) ≢ panic
bind-ne-panic (ok a) f p q h = q a refl h
bind-ne-panic (err e) f p q h = cc
bind-ne-panic panic f p q h = p refl

pub map_err-ne-panic {ℓ κ μ} :
    {D : Type ℓ} {E : Type κ} {A : Type μ} (f : D → E) (m : Result D A)
    → m ≢ panic
    → map_err f m ≢ panic
map_err-ne-panic f (ok a) p h = cc
map_err-ne-panic f (err e) p h = cc
map_err-ne-panic f panic p h = p refl

pub guard-ne-panic {ℓ} : {E : Type ℓ} (b : Bool) (e : E) → guard b e ≢ panic
guard-ne-panic true e h = cc
guard-ne-panic false e h = cc

pub slice_to-ne-panic {ℓ κ} :
    {E : Type ℓ} {A : Type κ} (xs : List A) (n : ℕ)
    → n ≤ length xs
    → ◌≢◌ {A = Result E (List A)} (slice_to xs n) panic
slice_to-ne-panic xs n le h = ground arith

pub slice_from-ne-panic {ℓ κ} :
    {E : Type ℓ} {A : Type κ} (xs : List A) (n : ℕ)
    → n ≤ length xs
    → ◌≢◌ {A = Result E (List A)} (slice_from xs n) panic
slice_from-ne-panic xs n le h = ground arith

-- `.map(f)`.
abbrev pub map_ok {ℓ κ μ} :
    {E : Type ℓ} {A : Type κ} {B : Type μ} → (A → B) → Result E A → Result E B
map_ok f (ok a) = ok (f a)
map_ok f (err e) = err e
map_ok f panic = panic

pub map_ok-eq-ok {ℓ κ μ} :
    {E : Type ℓ} {A : Type κ} {B : Type μ} (f : A → B) (r : Result E A) {b : B}
    → map_ok f r ≡ ok b
    → (a : A) × (r ≡ ok a) × (f a ≡ b)
map_ok-eq-ok f (ok a) h = (a, refl, ok-injective h)
map_ok-eq-ok f (err e) h = cc
map_ok-eq-ok f panic h = cc
