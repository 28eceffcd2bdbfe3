-- ===== src/Tests/Crates.antt =====
-- Small stand-ins for the crates `resp` and `url`: a RESP decoder and a URL parser.
use Prim.Native.Nat.{◌-◌}
use red_monkey.Common.{
  ℕ, zero, suc, ◌+◌, ◌*◌, Text, Bytes, codes, refl, Option, none, some, ◌&&◌, List, [], ◌∷◌, ◌++◌,
  ◌==◌, eqb, ltb, leb, if◌then◌else◌, Result, ok, err, take, drop,
}
use red_monkey.Proxy.RespUtil.{Resp, UrlCrate, ValueView, array, bulk, string, other, crlf}

-- The values of RESP that the tests use.
pub data RespValue : Type 0 where
  null : RespValue
  bulk_value string_value error_value : Text → RespValue
  array_value : List Text → RespValue

abbrev pub bulks : List Text → List RespValue
bulks [] = []
bulks (s ∷ l) = bulk_value s ∷ bulks l

abbrev pub view : RespValue → ValueView RespValue
view null = other
view (error_value s) = other
view (bulk_value s) = bulk s
view (string_value s) = string s
view (array_value l) = array (bulks l)

-- A decimal number and the rest behind its line end.
read_number : ℕ → Bytes → Option (ℕ × Bytes)
read_number n [] = none
read_number n (c ∷ []) = none
read_number n (c ∷ d ∷ s) =
    let more = read_number (n * 10 + (c - 48)) (d ∷ s) in
    if leb 48 c && leb c 57 then more else if eqb c 13 && eqb d 10 then some (n, s) else none

abbrev cut_bulk : Option (ℕ × Bytes) → Option (Text × Bytes)
cut_bulk none = none
cut_bulk (some (n, s)) =
    if take 2 (drop n s) == crlf then some (take n s, drop 2 (drop n s)) else none

read_bulk : Bytes → Option (Text × Bytes)
unfolding read_number
read_bulk [] = none
read_bulk (c ∷ s) = if eqb c b'$' then cut_bulk (read_number 0 s) else none

read_bulks : ℕ → Bytes → Option (List Text)
unfolding read_bulk
read_bulks zero s = some []
read_bulks (suc n) s = elim (read_bulk s) [
  | none ↦ none
  | some (t, rest) ↦ elim (read_bulks n rest) [ none ↦ none | some l ↦ some (t ∷ l) ]
]

abbrev read_array : Option (ℕ × Bytes) → Option RespValue
read_array none = none
read_array (some (n, s)) = elim (read_bulks n s) [ none ↦ none | some l ↦ some (array_value l) ]

unfoldable pub read_value : Bytes → Option RespValue
unfolding read_bulks
read_value [] = none
read_value (c ∷ s) =
    if eqb c b'*'
    then read_array (read_number 0 s)
    else if (c ∷ s) == codes "$-1" ++ crlf
    then some null
    else none

abbrev pub encode : RespValue → Bytes
encode (error_value s) = codes "-" ++ s ++ crlf
encode _ = []

abbrev pub resp : Resp
resp = record {
  Value = RespValue;
  view = view;
  error_value = error_value;
  encode = encode;
  Decoder = Bytes;
  new_decoder = [];
  feed = λ decoder bytes. ok (decoder ++ bytes);
  read = read_value;
  encode-error_value = λ message. refl;
}

-- A text has a host behind `://`, up to a colon; before a colon there is a scheme that begins with
-- a letter; any other text does not parse.
find_host : Bytes → Option Bytes
find_host [] = none
find_host (a ∷ []) = none
find_host (a ∷ b ∷ []) = none
find_host (a ∷ b ∷ c ∷ s) =
    let later = find_host (b ∷ c ∷ s) in if (a ∷ b ∷ c ∷ []) == codes "://" then some s else later

until_colon : Bytes → Bytes
until_colon [] = []
until_colon (c ∷ s) = let rest = c ∷ until_colon s in if eqb c b':' then [] else rest

parse_url : Text → Result Text (Option Text)
unfolding find_host until_colon
parse_url [] = err (codes "relative URL without a base")
parse_url (c ∷ s) =
    if ltb c b'a'
    then err (codes "relative URL without a base")
    else ok (elim (find_host (c ∷ s)) [ none ↦ none | some host ↦ some (until_colon host) ])

unfoldable pub url : UrlCrate
unfolding parse_url
url = record { Url = Option Text; parse = parse_url; host_str = λ u. u }
