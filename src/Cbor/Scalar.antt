-- ===== src/Cbor/Scalar.antt =====
-- The matchers of single values in src/cbor.cpp: `match_uint`, `match_int`, `match_bool`,
-- `match_string` and `match_float`. Where one returns false the result is `none`, with the place
-- where it left the iterator.
use thespian.Prelude.{ℕ, Bool, true, false, ◌==◌, if◌then◌else◌, Option, none, some}
use thespian.Prelude.Int.{ℤ, pos, negsuc, to_int64}
use thespian.Cbor.Result.{Bytes, invalid_float_type, ok, err, ◌>>=◌, Decoder}
use thespian.Cbor.Buffer.{cbor_magic_float16, cbor_magic_float32, cbor_magic_float64}
use thespian.Cbor.Decode.{
  decode_type, decode_pint, decode_nint, decode_int_length, decode_string, decode_bytes,
  is_float_type,
}

-- A number as `match_float` finds it: the conversion to double rounds and is left to the reader.
pub data Floating : Type 0 where
  of_uint : ℕ → Floating
  of_int : ℤ → Floating
  half : ℕ → Floating
  single : ℕ → Floating
  double : ℕ → Floating

unfoldable pub decode_float : ℕ → Decoder Floating
decode_float type bs =
    let wide = (do (n, rest) ← decode_int_length 8 bs; ok (double n, rest)) in
    let narrow = (do (n, rest) ← decode_int_length 4 bs; ok (single n, rest)) in
    let short = (do (n, rest) ← decode_int_length 2 bs; ok (half n, rest)) in
    if type == cbor_magic_float16
    then short
    else if type == cbor_magic_float32
    then narrow
    else if type == cbor_magic_float64
    then wide
    else err invalid_float_type

unfoldable pub match_uint : Decoder (Option ℕ)
match_uint bs = do
  (h, rest) ← decode_type bs
  let read = (do (n, rest') ← decode_pint h.minor rest; ok (some n, rest'))
  if h.major == 0 then read else ok (none, rest)

-- `val < 0` after the conversion to a signed number.
unfoldable pub non_negative : ℤ → Option ℤ
non_negative (pos n) = some (pos n)
non_negative (negsuc n) = none

unfoldable pub match_int : Decoder (Option ℤ)
unfolding non_negative
match_int bs = do
  (h, rest) ← decode_type bs
  let plus = (do (n, rest') ← decode_pint h.minor rest; ok (non_negative (to_int64 n), rest'))
  let minus = (do (z, rest') ← decode_nint h.minor rest; ok (some z, rest'))
  if h.major == 0 then plus else if h.major == 1 then minus else ok (none, rest)

unfoldable pub match_bool : Decoder (Option Bool)
match_bool bs = do
  (h, rest) ← decode_type bs
  if h.major == 7
      then (if h.type == 0xf4
          then ok (some false, rest)
          else if h.type == 0xf5
          then ok (some true, rest)
          else ok (none, rest))
      else ok (none, rest)

unfoldable pub match_string : Decoder (Option Bytes)
match_string bs = do
  (h, rest) ← decode_type bs
  let as_bytes = (do (s, rest') ← decode_bytes h.minor rest; ok (some s, rest'))
  let as_string = (do (s, rest') ← decode_string h.minor rest; ok (some s, rest'))
  if h.major == 2 then as_bytes else if h.major == 3 then as_string else ok (none, rest)

unfoldable pub match_float : Decoder (Option Floating)
unfolding decode_float
match_float bs = do
  (h, rest) ← decode_type bs
  let plus = (do (n, rest') ← decode_pint h.minor rest; ok (some (of_uint n), rest'))
  let minus = (do (z, rest') ← decode_nint h.minor rest; ok (some (of_int z), rest'))
  let floating = (do (x, rest') ← decode_float h.type rest; ok (some x, rest'))
  if h.major == 0
      then plus
      else if h.major == 1
      then minus
      else if h.major == 7
      then (if is_float_type h.type then floating else ok (none, rest))
      else ok (none, rest)
