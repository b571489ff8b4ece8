-- ===== src/Cbor/Json/Print.antt =====
-- `to_json` (src/cbor.cpp): the JSON text of what stands in a buffer. What the standard library tells
-- of a double is a parameter.
use thespian.Prelude.{
  ℕ, zero, suc, ◌+◌, ◌/◌, ◌%◌, Bool, false, ◌||◌, [], ◌∷◌, ◌++◌, ltb, ◌==◌, if◌then◌else◌, length,
}
use thespian.Prelude.Int.{ℤ, pos, negsuc}
use thespian.Prelude.Text.{codes}
use thespian.Cbor.Result.{
  Bytes, unsupported_type_tag, unsupported_type_unknown, unsupported_simple_value, Result, ok, err,
  out_of_fuel, ◌>>=◌, Decoder,
}
use thespian.Cbor.Decode.{
  Head, decode_pint, decode_nint, decode_string, decode_bytes, decode_type, is_float_type,
}
use thespian.Cbor.Scalar.{Floating, decode_float}
use thespian.Cbor.Json.Number.{decimal}

-- `std::isfinite`, and the text that `std::to_chars` gives.
pub record Floats : Type 0 where
  pub is_finite : Floating → Bool
  pub to_chars : Floating → Bytes

-- A digit of a number in base 16.
abbrev hex_digit : ℕ → ℕ
hex_digit d = if ltb d 10 then 48 + d else 87 + d

unfoldable pub tohex : ℕ → Bytes
tohex v = hex_digit (v / 16) ∷ hex_digit (v % 16) ∷ []

-- A character within quotes. A `char` above 127 is negative in the source, and is written as it is.
unfoldable pub escaped : ℕ → Bytes
unfolding tohex
escaped c =
    if c == 8
    then codes "\\b"
    else if c == 12
    then codes "\\f"
    else if c == 10
    then codes "\\n"
    else if c == 13
    then codes "\\r"
    else if c == 9
    then codes "\\t"
    else if c == 92
    then 92 ∷ 92 ∷ []
    else if c == 34
    then 92 ∷ 34 ∷ []
    else if ltb c 32
    then codes "\\u00" ++ tohex c
    else c ∷ []

unfoldable pub all_escaped : Bytes → Bytes
unfolding escaped
all_escaped [] = []
all_escaped (c ∷ s) = escaped c ++ all_escaped s

unfoldable pub string_to_json : Bytes → Bytes
unfolding all_escaped
string_to_json s = 34 ∷ (all_escaped s ++ (34 ∷ []))

unfoldable pub int_to_json : ℤ → Bytes
int_to_json (pos n) = decimal n
int_to_json (negsuc n) = 45 ∷ decimal (suc n)

-- `str.find_first_of(".e")`
unfoldable pub has_point : Bytes → Bool
has_point [] = false
has_point (c ∷ cs) = c == 46 || (c == 101 || has_point cs)

unfoldable pub float_to_json : Floats → Floating → Bytes
unfolding has_point
float_to_json floats x =
    let s = floats.to_chars x in
    if floats.is_finite x then (if has_point s then s else s ++ codes ".0") else codes "null"

-- What stands behind a part when there are `i` more.
abbrev pub comma : ℕ → Bytes
comma zero = []
comma (suc i) = 44 ∷ []

unfoldable pub array_to_json : Decoder Bytes → ℕ → Decoder Bytes
array_to_json part zero bs = ok ([], bs)
array_to_json part (suc i) bs = do
  (s, rest) ← part bs
  (t, rest') ← array_to_json part i rest
  ok (s ++ (comma i ++ t), rest')

unfoldable pub map_to_json : Decoder Bytes → ℕ → Decoder Bytes
map_to_json part zero bs = ok ([], bs)
map_to_json part (suc i) bs = do
  (k, rest) ← part bs
  (v, rest') ← part rest
  (t, rest'') ← map_to_json part i rest'
  ok (k ++ (58 ∷ (v ++ (comma i ++ t))), rest'')

-- A value of major type 7.
unfoldable pub special_to_json : Floats → Head → Decoder Bytes
unfolding float_to_json
special_to_json floats h bs =
    let floating = (do (x, rest) ← decode_float h.type bs; ok (float_to_json floats x, rest)) in
    if h.type == 0xf4
    then ok (codes "false", bs)
    else if h.type == 0xf5
    then ok (codes "true", bs)
    else if h.type == 0xf6
    then ok (codes "null", bs)
    else if is_float_type h.type
    then floating
    else err unsupported_simple_value

-- The cases of `to_json_stream`; `part` is its calls on the parts.
unfoldable pub value_to_json : Floats → Decoder Bytes → Head → Decoder Bytes
unfolding string_to_json int_to_json array_to_json map_to_json special_to_json
value_to_json floats part h bs =
    let uint = (do (n, rest) ← decode_pint h.minor bs; ok (decimal n, rest)) in
    let nint = (do (i, rest) ← decode_nint h.minor bs; ok (int_to_json i, rest)) in
    let bytes = (do (s, rest) ← decode_bytes h.minor bs; ok (string_to_json s, rest)) in
    let text = (do (s, rest) ← decode_string h.minor bs; ok (string_to_json s, rest)) in
    let array = (do
      (n, rest) ← decode_pint h.minor bs
      (s, rest') ← array_to_json part n rest
      ok (91 ∷ (s ++ (93 ∷ [])), rest')) in
    let map = (do
      (n, rest) ← decode_pint h.minor bs
      (s, rest') ← map_to_json part n rest
      ok (123 ∷ (s ++ (125 ∷ [])), rest')) in
    if h.major == 0
    then uint
    else if h.major == 1
    then nint
    else if h.major == 2
    then bytes
    else if h.major == 3
    then text
    else if h.major == 4
    then array
    else if h.major == 5
    then map
    else if h.major == 6
    then err unsupported_type_tag
    else if h.major == 7
    then special_to_json floats h bs
    else err unsupported_type_unknown

-- A unit of fuel for each level of nesting.
unfoldable pub to_json_stream : Floats → ℕ → Decoder Bytes
unfolding value_to_json
to_json_stream floats zero bs = out_of_fuel
to_json_stream floats (suc f) bs = do
  (h, rest) ← decode_type bs
  value_to_json floats (to_json_stream floats f) h rest

-- Each level takes a byte, so the number of bytes and one more is enough. The text of an exception,
-- which has what was written until then, is left out.
unfoldable pub to_json : Floats → Bytes → Result Bytes
unfolding to_json_stream
to_json floats bs = do (s, rest) ← to_json_stream floats (suc (length bs)) bs; ok s
