-- ===== src/Utf8.antt =====
-- The UTF-8 functions of the standard library that the proxy calls: `str::from_utf8` accepts the
-- byte sequences of Unicode scalar values, and `String::from_utf8_lossy` puts U+FFFD for each
-- longest piece that cannot be a part of one. Both walk the bytes with the automaton of RFC 3629.
pub mod Laws
use Prim.Native.Nat.{◌-◌}
use red_monkey.Common.{
  ℕ, Bytes, Text, Bool, true, false, ◌&&◌, Option, none, some, List, [], ◌∷◌, ◌++◌, leb, ltb, eqb,
  if◌then◌else◌,
}

-- What the next byte may be: the start of a character, or a byte from `lo` to `hi` and then `rest`
-- continuation bytes.
pub data Expect : Type 0 where
  start : Expect
  tail : ℕ → ℕ → ℕ → Expect

abbrev between : ℕ → ℕ → ℕ → Bool
between lo hi b = leb lo b && leb b hi

unfoldable pub first_byte : ℕ → Option Expect
first_byte b =
    if ltb b 0x80
    then some start
    else if between 0xc2 0xdf b
    then some (tail 0x80 0xbf 0)
    else if eqb b 0xe0
    then some (tail 0xa0 0xbf 1)
    else if eqb b 0xed
    then some (tail 0x80 0x9f 1)
    else if between 0xe1 0xef b
    then some (tail 0x80 0xbf 1)
    else if eqb b 0xf0
    then some (tail 0x90 0xbf 2)
    else if between 0xf1 0xf3 b
    then some (tail 0x80 0xbf 2)
    else if eqb b 0xf4
    then some (tail 0x80 0x8f 2)
    else none

abbrev after_tail : ℕ → Expect
after_tail rest = if eqb rest 0 then start else tail 0x80 0xbf (rest - 1)

unfoldable pub next : Expect → ℕ → Option Expect
unfolding first_byte
next start b = first_byte b
next (tail lo hi rest) b = if between lo hi b then some (after_tail rest) else none

abbrev pub is_start : Expect → Bool
is_start start = true
is_start (tail lo hi rest) = false

unfoldable pub is_utf8_from : Expect → Bytes → Bool
is_utf8_from e [] = is_start e
is_utf8_from e (b ∷ s) = elim (next e b) [ none ↦ false | some e' ↦ is_utf8_from e' s ]

unfoldable pub is_utf8 : Bytes → Bool
unfolding is_utf8_from next
is_utf8 s = is_utf8_from start s

-- `str::from_utf8`: the same bytes, as a text.
unfoldable pub from_utf8 : Bytes → Option Text
unfolding is_utf8
from_utf8 s = if is_utf8 s then some s else none

abbrev pub replacement : Bytes
replacement = 0xef ∷ 0xbf ∷ 0xbd ∷ []

-- `pending` are the bytes of a character that is not complete: none at the start of one. What is
-- pending when a byte cannot follow is replaced, and the byte is read again as a first byte.
unfoldable pub lossy_from : Expect → Bytes → Bytes → Text
lossy_from e pending [] = if is_start e then pending else replacement
lossy_from e pending (b ∷ s) = elim (next e b) [
  | some start ↦ pending ++ b ∷ lossy_from start [] s
  | some (tail lo hi rest) ↦ lossy_from (tail lo hi rest) (pending ++ b ∷ []) s
  | none ↦ replacement ++ elim (if is_start e then none else next start b) [
    | none ↦ (if is_start e then [] else replacement) ++ lossy_from start [] s
    | some start ↦ b ∷ lossy_from start [] s
    | some (tail lo hi rest) ↦ lossy_from (tail lo hi rest) (b ∷ []) s
  ]
]

-- `String::from_utf8_lossy`
unfoldable pub from_utf8_lossy : Bytes → Text
unfolding lossy_from next
from_utf8_lossy s = lossy_from start [] s
