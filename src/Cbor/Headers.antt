-- ===== src/Cbor/Headers.antt =====
-- The array and map headers (`decode_array_header`, `decode_map_header`) on a pushed value.
use thespian.Prelude.{
  ℕ, ◌+◌, ◌*◌, ◌/◌, ◌<◌, ◌≡◌, true, false, ◌++◌, append_assoc, arith, ◌==◌, length,
}
use thespian.Cbor.Result.{Bytes, ok, ◌>>=◌}
use thespian.Cbor.Head.{decode_pint-argument, minor_of, minor_of-lt}
use thespian.Cbor.PushSkip.{head_of, body_of, decode_type-push_value}
use thespian.Cbor.Decode.{decode_array_header, decode_map_header}
use thespian.Cbor.Value.{
  Value, uint, nint, text, bool, array, map, count, push_value, push_values, IsValid,
}
use thespian.Cbor.Accepts.{elements, pairs}

-- No head of a number, a string, an array or a map is the byte of null.
not_null : (t n : ℕ) → t < 7 → (t * 32 + minor_of n == 0xf6) ≡ false
not_null t n h = ground (arith, minor_of-lt n)

-- The header of a pushed value: the elements that follow, or what is thrown.
pub decode_array_header-push :
    (v : Value) (rest : Bytes)
    → IsValid v
    → decode_array_header (push_value v ++ rest)
      ≡ (elements v >>= λ vs. ok (count vs, push_values vs ++ rest))
unfolding decode_array_header elements head_of body_of push_value
decode_array_header-push (uint n) rest h =
    rw (decode_type-push_value (uint n) rest h, not_null 0 n (omega arith))
decode_array_header-push (nint n) rest h =
    rw (decode_type-push_value (nint n) rest h, not_null 1 n (omega arith))
decode_array_header-push (text s) rest h =
    rw (decode_type-push_value (text s) rest h, not_null 3 (length s) (omega arith))
decode_array_header-push (map vs) rest h =
    rw (decode_type-push_value (map vs) rest h, not_null 5 (count vs / 2) (omega arith))
decode_array_header-push (array vs) rest h = rw (
  decode_type-push_value (array vs) rest h,
  not_null 4 (count vs) (omega arith),
  append_assoc,
  decode_pint-argument (count vs) (push_values vs ++ rest) h.0,
)
decode_array_header-push (bool true) rest h = rw (decode_type-push_value (bool true) rest h)
decode_array_header-push (bool false) rest h = rw (decode_type-push_value (bool false) rest h)
decode_array_header-push v rest h = rw (decode_type-push_value v rest h)

pub decode_map_header-push :
    (v : Value) (rest : Bytes)
    → IsValid v
    → decode_map_header (push_value v ++ rest)
      ≡ (pairs v >>= λ vs. ok (count vs / 2, push_values vs ++ rest))
unfolding decode_map_header pairs head_of body_of push_value
decode_map_header-push (uint n) rest h =
    rw (decode_type-push_value (uint n) rest h, not_null 0 n (omega arith))
decode_map_header-push (nint n) rest h =
    rw (decode_type-push_value (nint n) rest h, not_null 1 n (omega arith))
decode_map_header-push (text s) rest h =
    rw (decode_type-push_value (text s) rest h, not_null 3 (length s) (omega arith))
decode_map_header-push (map vs) rest h = rw (
  decode_type-push_value (map vs) rest h,
  not_null 5 (count vs / 2) (omega arith),
  append_assoc,
  decode_pint-argument (count vs / 2) (push_values vs ++ rest) (omega arith),
)
decode_map_header-push (array vs) rest h =
    rw (decode_type-push_value (array vs) rest h, not_null 4 (count vs) (omega arith))
decode_map_header-push (bool true) rest h = rw (decode_type-push_value (bool true) rest h)
decode_map_header-push (bool false) rest h = rw (decode_type-push_value (bool false) rest h)
decode_map_header-push v rest h = rw (decode_type-push_value v rest h)
