-- ===== src/Base/Text/Utf8.antt =====
-- `String::from_utf8_lossy`: a decoder that reads one byte at a time. A sequence that is cut short, by a byte
-- that cannot follow or by the end, becomes one replacement character, and that byte starts anew.
use Prim.Native.Nat.{ℕ, zero, suc, ◌+◌, ◌-◌, ◌*◌, ◌≤◌, ◌<◌}
use mathlib.Core.Path.{◌≡◌, refl, ap, ◌∙◌}
use mathlib.Core.Logic.{◌⊎◌}
use mathlib.Core.Bool.{Bool, ◌&&◌}
use mathlib.Core.List.{[], ◌∷◌, ◌++◌}
use native.Mathlib.Omega.{arith}
use aelf_web3_rust.Base.Tests.{ltb, leb, ◌==◌, if◌then◌else◌}
use aelf_web3_rust.Base.Lists.{All, All-append}
use aelf_web3_rust.Base.Text.{Text, Bytes, IsBytes, encode_utf8, as_bytes}

-- Between characters, or `more + 1` bytes short of one, of which the next must lie in `lo..=hi`.
pub data Utf8State : Type 0 where
  idle : Utf8State
  need : (more lo hi value : ℕ) → Utf8State

abbrev pub replacement : ℕ
replacement = 0xfffd

unfoldable pub in_range : ℕ → ℕ → ℕ → Bool
in_range lo hi b = leb lo b && leb b hi

-- The first byte of a character: what it emits, and the state after it.
unfoldable pub start : ℕ → Text × Utf8State
unfolding in_range
start b =
    if ltb b 0x80
    then (b ∷ [], idle)
    else if in_range 0xc2 0xdf b
    then ([], need 0 0x80 0xbf (b - 0xc0))
    else if b == 0xe0
    then ([], need 1 0xa0 0xbf 0)
    else if b == 0xed
    then ([], need 1 0x80 0x9f 13)
    else if in_range 0xe1 0xef b
    then ([], need 1 0x80 0xbf (b - 0xe0))
    else if b == 0xf0
    then ([], need 2 0x90 0xbf 0)
    else if b == 0xf4
    then ([], need 2 0x80 0x8f 4)
    else if in_range 0xf1 0xf3 b
    then ([], need 2 0x80 0xbf (b - 0xf0))
    else (replacement ∷ [], idle)

abbrev after_broken : Text × Utf8State → Text × Utf8State
after_broken (out, next) = (replacement ∷ out, next)

unfoldable pub feed : Utf8State → ℕ → Text × Utf8State
unfolding start
feed idle b = start b
feed (need zero lo hi value) b =
    if in_range lo hi b then ((value * 64 + (b - 0x80)) ∷ [], idle) else after_broken (start b)
feed (need (suc more) lo hi value) b =
    if in_range lo hi b
    then ([], need more 0x80 0xbf (value * 64 + (b - 0x80)))
    else after_broken (start b)

unfoldable pub decode_from : Utf8State → Bytes → Text
unfolding feed
decode_from idle [] = []
decode_from (need more lo hi value) [] = replacement ∷ []
decode_from state (b ∷ bs) = let (out, next) = feed state b in out ++ decode_from next bs

unfoldable pub from_utf8_lossy : Bytes → Text
unfolding decode_from
from_utf8_lossy bs = decode_from idle bs

-- What a `char` can be.
abbrev pub IsScalar : ℕ → Type 0
IsScalar c = (c < 0x110000) × ((c < 0xd800) ⊎ (0xe000 ≤ c))

decode_char :
    (c : ℕ) (bs : Bytes)
    → IsScalar c
    → decode_from idle (encode_utf8 c ++ bs) ≡ c ∷ decode_from idle bs
unfolding decode_from encode_utf8
decode_char c bs h = ground arith

-- A text is read back from its UTF-8 bytes.
pub from_utf8_lossy-as_bytes : (t : Text) → All IsScalar t → from_utf8_lossy (as_bytes t) ≡ t
unfolding from_utf8_lossy as_bytes
from_utf8_lossy-as_bytes [] h = refl
from_utf8_lossy-as_bytes (c ∷ t) (hc, ht) =
    decode_char c (as_bytes t) hc ∙ ap (λ (u : Text). c ∷ u) (from_utf8_lossy-as_bytes t ht)

encode_utf8-IsBytes : (c : ℕ) → IsScalar c → IsBytes (encode_utf8 c)
unfolding encode_utf8
encode_utf8-IsBytes c h = ground arith

pub as_bytes-IsBytes : (t : Text) → All IsScalar t → IsBytes (as_bytes t)
unfolding as_bytes
as_bytes-IsBytes [] h = tt
as_bytes-IsBytes (c ∷ t) (hc, ht) =
    All-append _ (encode_utf8 c) (as_bytes t) (encode_utf8-IsBytes c hc) (as_bytes-IsBytes t ht)
