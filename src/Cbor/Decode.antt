-- ===== src/Cbor/Decode.antt =====
-- The decoders of the heads and scalars of src/cbor.cpp.
use thespian.Prelude.{
  ℕ, zero, suc, ◌+◌, ◌-◌, ◌*◌, ◌%◌, ◌^◌, bit_or, bit_and, Bool, ◌||◌, [], ◌∷◌, ltb, ◌==◌,
  if◌then◌else◌,
}
use thespian.Prelude.Int.{ℤ, to_int64}
use thespian.Cbor.Result.{
  Bytes, too_short, invalid_integer_type, expected_array_or_map, expected_array, expected_map, ok,
  err, ◌>>=◌, Decoder,
}
use thespian.Cbor.Buffer.{shr, cbor_magic_float16, cbor_magic_float32, cbor_magic_float64}

-- `more` is `length - 1`: the callers pass a length of at least 1. The accumulator is the bit
-- pattern of the source's int64_t, and `i <<= 8` drops what leaves it.
unfoldable pub decode_int_length_recurse : ℕ → ℕ → Decoder ℕ
decode_int_length_recurse more i [] = err too_short
decode_int_length_recurse zero i (b ∷ bs) = ok (bit_or i b, bs)
decode_int_length_recurse (suc more) i (b ∷ bs) =
    decode_int_length_recurse more (bit_or i b * 2 ^ 8 % 2 ^ 64) bs

unfoldable pub decode_int_length : ℕ → Decoder ℕ
unfolding decode_int_length_recurse
decode_int_length length bs = decode_int_length_recurse (length - 1) 0 bs

unfoldable pub decode_pint : ℕ → Decoder ℕ
decode_pint type bs =
    if ltb type 24
    then ok (type, bs)
    else if type == 24
    then decode_int_length 1 bs
    else if type == 25
    then decode_int_length 2 bs
    else if type == 26
    then decode_int_length 4 bs
    else if type == 27
    then decode_int_length 8 bs
    else err invalid_integer_type

-- `-(n + 1)` in uint64_t.
unfoldable pub negate_plus_one : ℕ → ℕ
negate_plus_one n = (2 ^ 64 - (n + 1) % 2 ^ 64) % 2 ^ 64

-- The negation is one of uint64_t, and its bits are then read as an int64_t.
unfoldable pub decode_nint : ℕ → Decoder ℤ
unfolding negate_plus_one
decode_nint type bs = do (n, rest) ← decode_pint type bs; ok (to_int64 (negate_plus_one n), rest)

unfoldable pub is_float_type : ℕ → Bool
is_float_type type =
    type == cbor_magic_float16 || (type == cbor_magic_float32 || type == cbor_magic_float64)

-- The loop `while (len) { if (b == e) throw; ++b; --len; }`, with the bytes that it passes.
unfoldable pub advance : ℕ → Decoder Bytes
advance zero bs = ok ([], bs)
advance (suc len) [] = err too_short
advance (suc len) (b ∷ bs) = do (s, rest) ← advance len bs; ok (b ∷ s, rest)

unfoldable pub decode_string : ℕ → Decoder Bytes
decode_string type bs = do (len, rest) ← decode_pint type bs; advance len rest

unfoldable pub decode_bytes : ℕ → Decoder Bytes
unfolding decode_string
decode_bytes type bs = decode_string type bs

pub record Head : Type 0 where
  pub major : ℕ
  pub minor : ℕ
  pub type : ℕ

unfoldable pub decode_type : Decoder Head
decode_type [] = err too_short
decode_type (type ∷ bs) =
    ok (record { major = shr type 5; minor = bit_and type 31; type = type }, bs)

unfoldable pub decode_range_header : Decoder ℕ
decode_range_header bs = do
  (h, bs₁) ← decode_type bs
  let sized = do
    (sz, bs₂) ← decode_pint h.minor bs₁
    if h.major == 4
        then ok (sz, bs₂)
        else if h.major == 5
        then ok (sz * 2 % 2 ^ 64, bs₂)
        else err expected_array_or_map
  if h.type == 0xf6 then ok (0, bs₁) else sized

unfoldable pub decode_array_header : Decoder ℕ
decode_array_header bs = do
  (h, bs₁) ← decode_type bs
  if h.type == 0xf6
      then ok (0, bs₁)
      else if h.major == 4
      then decode_pint h.minor bs₁
      else err expected_array

unfoldable pub decode_map_header : Decoder ℕ
decode_map_header bs = do
  (h, bs₁) ← decode_type bs
  if h.type == 0xf6
      then ok (0, bs₁)
      else if h.major == 5
      then decode_pint h.minor bs₁
      else err expected_map
