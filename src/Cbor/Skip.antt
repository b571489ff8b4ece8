-- ===== src/Cbor/Skip.antt =====
-- `skip_value` and its helpers, and `match_type` (src/cbor.cpp). The nesting of `skip_value` is
-- given by fuel, a unit for each level; each loop over a count recurs on the count.
use thespian.Prelude.{
  ℕ, zero, suc, ◌*◌, ◌%◌, ◌^◌, ◌||◌, leb, ◌==◌, if◌then◌else◌, length, Option, none, some,
}
use thespian.Cbor.Result.{
  Bytes, unsupported_type_tag, unsupported_type_unknown, Result, ok, err, out_of_fuel, ◌>>=◌,
  Decoder,
}
use thespian.Cbor.Buffer.{cbor_magic_null, cbor_magic_true, cbor_magic_false}
use thespian.Cbor.Kind.{Kind}
use thespian.Cbor.Decode.{Head, decode_pint, decode_nint, is_float_type, advance, decode_type}

-- From the place of the iterator to its new place.
abbrev pub Skipper : Type 0
Skipper = Bytes → Result Bytes

unfoldable pub skip_string : ℕ → Skipper
skip_string type bs = do (len, rest) ← decode_pint type bs; (_, rest') ← advance len rest; ok rest'

unfoldable pub skip_bytes : ℕ → Skipper
unfolding skip_string
skip_bytes type bs = skip_string type bs

-- `while (len) { skip_value(b, e); --len; }`
unfoldable pub skip_loop : Skipper → ℕ → Skipper
skip_loop skip zero bs = ok bs
skip_loop skip (suc len) bs = do rest ← skip bs; skip_loop skip len rest

-- The first argument is the call of `skip_value` on an element.
unfoldable pub skip_array : Skipper → ℕ → Skipper
unfolding skip_loop
skip_array skip type bs = do (len, rest) ← decode_pint type bs; skip_loop skip len rest

unfoldable pub skip_map : Skipper → ℕ → Skipper
unfolding skip_loop
skip_map skip type bs = do (len, rest) ← decode_pint type bs; skip_loop skip (len * 2 % 2 ^ 64) rest

-- Where a number is read for its place only.
unfoldable pub skip_pint : ℕ → Skipper
skip_pint minor bs = do (_, rest) ← decode_pint minor bs; ok rest

unfoldable pub skip_nint : ℕ → Skipper
skip_nint minor bs = do (_, rest) ← decode_nint minor bs; ok rest

unfoldable pub skip_value_type : Skipper → ℕ → ℕ → Skipper
unfolding skip_pint skip_nint skip_bytes skip_array skip_map
skip_value_type skip major minor bs =
    if major == 0
    then skip_pint minor bs
    else if major == 1
    then skip_nint minor bs
    else if major == 2
    then skip_bytes minor bs
    else if major == 3
    then skip_string minor bs
    else if major == 4
    then skip_array skip minor bs
    else if major == 5
    then skip_map skip minor bs
    else if major == 6
    then err unsupported_type_tag
    else if major == 7
    then (if leb 24 minor then skip_pint minor bs else ok bs)
    else err unsupported_type_unknown

unfoldable pub skip_value : ℕ → Skipper
skip_value zero bs = out_of_fuel
skip_value (suc f) bs = do
  (h, rest) ← decode_type bs
  skip_value_type (skip_value f) h.major h.minor rest

-- What `match_type` stores in its result, and `none` where it returns false.
unfoldable pub kind_of : Head → Option Kind
unfolding is_float_type
kind_of h =
    if h.major == 0 || h.major == 1
    then some Kind.number
    else if h.major == 2
    then some Kind.bytes
    else if h.major == 3
    then some Kind.string
    else if h.major == 4
    then some Kind.array
    else if h.major == 5
    then some Kind.map
    else if h.major == 7
    then (if h.type == cbor_magic_null
        then some Kind.null
        else if h.type == cbor_magic_false || h.type == cbor_magic_true
        then some Kind.boolean
        else if is_float_type h.type
        then some Kind.floating
        else some Kind.unknown)
    else none

-- Each level of nesting takes a byte, so a unit of fuel for each byte that is left and one more is
-- enough.
unfoldable pub match_type : Decoder (Option Kind)
unfolding kind_of
match_type bs = do
  (h, rest) ← decode_type bs
  rest' ← skip_value_type (skip_value (suc (length rest))) h.major h.minor rest
  ok (kind_of h, rest')
