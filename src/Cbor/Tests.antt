-- ===== src/Cbor/Tests.antt =====
-- The codec at concrete messages: runs of its operations, and its theorems at these.
use thespian.Prelude.{◌-◌, ◌^◌, ◌≡◌, ◌≢◌, refl, true, [], ◌∷◌, ◌++◌, some, length, arith}
use thespian.Prelude.Int.{to_int64, pos, negsuc}
use thespian.Prelude.Text.{codes}
use thespian.Cbor.Result.{Bytes, ok, out_of_fuel}
use thespian.Cbor.Buffer.{
  array_header, push_typed_val, push_string, push_int, map_header, push_uint, push_bool, push_null,
}
use thespian.Cbor.Kind.{Kind, kind_eq}
use thespian.Cbor.Skip.{
  skip_value, match_type, skip_value_type, skip_pint, kind_of, skip_array, skip_loop,
}
use thespian.Prelude.Tests.{bytes_eq}
use thespian.Cbor.Decode.{
  decode_array_header, decode_type, decode_pint, decode_string, advance, decode_nint,
  decode_map_header, decode_int_length, decode_range_header, is_float_type, negate_plus_one,
}
use thespian.Cbor.Scalar.{match_int, match_string}
use thespian.Cbor.Value.{
  Value, uint, nint, text, bool, null, array, map, nil, cons, push_value, IsValid, kind,
}
use thespian.Cbor.PushSkip.{match_type-push_value, push_value-prefix_free}
use thespian.Cbor.Match.{
  Extracted, Patterns, A, M, is, str, extract_int, last, next, match_message, match_value,
  match_scalar, is_more, fits_int,
}
use thespian.Cbor.Accepts.{accepts}
use thespian.Cbor.Refinement.{match_message-push_value}
use thespian.Cbor.ScalarFinds.{match_int_wraps}
use thespian.Cbor.TotalMatch.{match_message-ne-out_of_fuel}

-- ["ok", -7, {1: [true, null]}]
abbrev nested : Value
nested = array (
    cons (text (codes "ok")) (
      cons (nint 6)
        (cons (map (cons (uint 1) (cons (array (cons (bool true) (cons null nil))) nil))) nil)))

nested-IsValid : IsValid nested
nested-IsValid = omega arith

abbrev request : Patterns
request =
    next (str (codes "ok"))
      (next (extract_int 8) (last (M (next (is Kind.number) (last (is Kind.array))))))

encode_nested : push_value nested ≡ 131 ∷ 98 ∷ 111 ∷ 107 ∷ 38 ∷ 161 ∷ 1 ∷ 130 ∷ 245 ∷ 246 ∷ []
unfolding push_value array_header push_typed_val push_string push_int map_header push_uint push_bool
    push_null
encode_nested = refl

match_nested : match_message request (push_value nested) ≡ ok (some (Extracted.int (negsuc 6) ∷ []))
unfolding match_message match_value decode_array_header decode_type decode_pint match_scalar
    match_string decode_string advance bytes_eq match_int decode_nint decode_map_header match_type
    skip_value_type skip_value skip_pint kind_of skip_array skip_loop is_more kind_eq
    decode_int_length decode_range_header is_float_type fits_int negate_plus_one to_int64 push_value
    array_header push_typed_val push_string push_int map_header push_uint push_bool push_null
match_nested = refl

match_message-push_value_example :
    match_message request (push_value nested) ≡ accepts (A request) nested
match_message-push_value_example = match_message-push_value request nested nested-IsValid

match_type-push_value_example :
    match_type (push_value nested ++ (7 ∷ [])) ≡ ok (some (kind nested), 7 ∷ [])
match_type-push_value_example = match_type-push_value nested (7 ∷ []) nested-IsValid

match_message-ne-out_of_fuel_example : match_message request (131 ∷ 159 ∷ []) ≢ out_of_fuel
match_message-ne-out_of_fuel_example = match_message-ne-out_of_fuel request (131 ∷ 159 ∷ [])

abbrev following : Bytes
following = 9 ∷ []

push_value-prefix_free_example :
    (following ≡ following) × (length (push_value nested) ≡ length (push_value nested))
push_value-prefix_free_example =
    push_value-prefix_free nested nested following following nested-IsValid nested-IsValid refl

-- -(2 ^ 63) - 1 comes out as 2 ^ 63 - 1.
match_int_wraps_example :
    match_int (push_typed_val 1 (2 ^ 63) ++ []) ≡ ok (some (pos (2 ^ 64 - 1 - 2 ^ 63)), [])
match_int_wraps_example = match_int_wraps (2 ^ 63) [] (omega arith) (omega arith)

-- "a\n" and a comma
