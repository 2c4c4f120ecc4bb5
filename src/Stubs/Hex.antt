-- ===== src/Stubs/Hex.antt =====
-- Lower-case hexadecimal.
use aelf_web3_rust.Base.{
  ℕ, ◌+◌, ◌-◌, ◌*◌, ◌/◌, ◌%◌, ◌<◌, ◌≡◌, refl, ◌∙◌, sym, [], ◌∷◌, Option, none, some, ltb, leb, ◌&&◌,
  if◌then◌else◌, Result, ok, err, panic, ◌>>=◌, ok_or, Option-cases, subst, ◌≢◌, bind-ne-panic,
  ok-injective, bind_ok, length, All, arith, inl, inr,
}
use aelf_web3_rust.Base.Text.{Text, Bytes, IsBytes, codes, len}
use aelf_web3_rust.Base.Text.Ascii.{IsHexDigit, IsAlphanumeric, IsAscii, len_ascii}

abbrev digit : ℕ → ℕ
digit n = if ltb n 10 then b'0' + n else b'a' + (n - 10)

abbrev value : ℕ → Option ℕ
value c =
    if leb b'0' c && leb c b'9'
    then some (c - b'0')
    else if leb b'a' c && leb c b'f'
    then some (c - b'a' + 10)
    else none

abbrev pub encode : Bytes → Text
encode [] = []
encode (b ∷ bs) = digit (b / 16 % 16) ∷ digit (b % 16) ∷ encode bs

abbrev pair : Option ℕ → Option ℕ → Option ℕ
pair (some h) (some l) = some (h * 16 + l)
pair (some h) none = none
pair none l = none

abbrev pub decode : Text → Result Text Bytes
decode [] = ok []
decode (c ∷ []) = err (codes "odd length")
decode (c ∷ d ∷ s) = do
  rest ← decode s
  b ← ok_or (pair (value c) (value d)) (codes "invalid character")
  ok (b ∷ rest)

value-digit : (n : ℕ) → n < 16 → value (digit n) ≡ some n
value-digit n h = ground arith

pub decode-encode : (b : Bytes) → IsBytes b → decode (encode b) ≡ ok b
decode-encode [] h = refl
decode-encode (b ∷ bs) (hb, hs) =
    let whole : b / 16 % 16 * 16 + b % 16 ≡ b = omega arith in
    rw (
      decode-encode bs hs,
      value-digit (b / 16 % 16) (omega arith),
      value-digit (b % 16) (omega arith),
      whole,
    )

digit-value : (c n : ℕ) → value c ≡ some n → (digit n ≡ c) × (n < 16)
digit-value c n h = (ground arith, ground arith)

-- What a pair of digits that is read says of the digits.
record Pair (c d b : ℕ) : Type 0 where
  high : digit (b / 16 % 16) ≡ c
  low : digit (b % 16) ≡ d
  small : b < 256
  ascii : (c < 128) × (d < 128)

pair-some : {x y : Option ℕ} {m n : ℕ} → x ≡ some m → y ≡ some n → pair x y ≡ some (m * 16 + n)
pair-some ex ey = rw (ex, ey)

some-injective : {a b : ℕ} → ◌≡◌ {A = Option ℕ} (some a) (some b) → a ≡ b
some-injective h = cc

pair_lem : (c d b : ℕ) → pair (value c) (value d) ≡ some b → Pair c d b
pair_lem c d b h = elim (Option-cases (value c)) [
  | inl none_high ↦ absurd (ground arith)
  | inr (m, em) ↦ elim (Option-cases (value d)) [
    | inl none_low ↦ absurd (ground arith)
    | inr (n, en) ↦
        let (dm, m_small) = digit-value c m em in
        let (dn, n_small) = digit-value d n en in
        let e : b ≡ m * 16 + n = some-injective (sym h ∙ pair-some em en) in
        let high_of : b / 16 % 16 ≡ m = omega arith in
        let low_of : b % 16 ≡ n = omega arith in
        record {
          high = rw high_of dm;
          low = rw low_of dn;
          small = omega arith;
          ascii = (ground arith, ground arith);
        }
  ]
]

ok_or-eq-ok : {A : Type 0} (o : Option A) (e : Text) {a : A} → ok_or o e ≡ ok a → o ≡ some a
ok_or-eq-ok none e h = cc
ok_or-eq-ok (some a) e h = cc

-- A text that is read.
record Read (t : Text) (b : Bytes) : Type 0 where
  written : encode b ≡ t
  bytes : IsBytes b
  size : length t ≡ 2 * length b
  ascii : IsAscii t

read : (t : Text) (b : Bytes) → decode t ≡ ok b → Read t b
read [] b h =
    let e : [] ≡ b = ok-injective h in
    subst (Read []) e (record { written = refl; bytes = tt; size = refl; ascii = tt })
read (c ∷ []) b h = absurd (cc)
read (c ∷ d ∷ t) b h = bind_ok (decode t) _ h λ rest decoded h₁.
    bind_ok (ok_or (pair (value c) (value d)) (codes "invalid character")) _ h₁ λ x paired made.
      let ih = read t rest decoded in
      let p = pair_lem c d x (ok_or-eq-ok _ _ paired) in
      subst (Read (c ∷ d ∷ t)) (ok-injective made) (record {
        written = rw (p.high, p.low, ih.written);
        bytes = (p.small, ih.bytes);
        size = omega (arith, ih.size);
        ascii = (p.ascii.0, (p.ascii.1, ih.ascii));
      })

pub encode-decode : (t : Text) (b : Bytes) → decode t ≡ ok b → encode b ≡ t
encode-decode t b h = (read t b h).written

pub decode-IsBytes : (t : Text) (b : Bytes) → decode t ≡ ok b → IsBytes b
decode-IsBytes t b h = (read t b h).bytes

pub len-decode : (t : Text) (b : Bytes) → decode t ≡ ok b → len t ≡ 2 * length b
len-decode t b h = len_ascii t (read t b h).ascii ∙ (read t b h).size

digit-IsHexDigit : (n : ℕ) → n < 16 → IsHexDigit (digit n)
digit-IsHexDigit n h = ground arith

pub encode-IsHexDigit : (b : Bytes) → All IsHexDigit (encode b)
encode-IsHexDigit [] = tt
encode-IsHexDigit (b ∷ bs) = (
  digit-IsHexDigit (b / 16 % 16) (omega arith),
  (digit-IsHexDigit (b % 16) (omega arith), encode-IsHexDigit bs),
)

pub alphanumeric : (t : Text) → All IsHexDigit t → All IsAlphanumeric t
alphanumeric [] h = tt
alphanumeric (c ∷ t) h = (ground arith, alphanumeric t h.1)

ok_or-ne-panic : {A : Type 0} (o : Option A) (e : Text) → ok_or o e ≢ panic
ok_or-ne-panic none e h = cc
ok_or-ne-panic (some a) e h = cc

pub decode-ne-panic : (t : Text) → decode t ≢ panic
decode-ne-panic [] = λ h. cc
decode-ne-panic (c ∷ []) = λ h. cc
decode-ne-panic (c ∷ d ∷ t) = bind-ne-panic (decode t) _ (decode-ne-panic t) λ rest _.
    bind-ne-panic (ok_or (pair (value c) (value d)) (codes "invalid character")) _
      (ok_or-ne-panic _ _) λ x _ h. cc
