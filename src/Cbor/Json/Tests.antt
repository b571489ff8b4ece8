-- ===== src/Cbor/Json/Tests.antt =====
-- JSON at concrete texts and values.
use thespian.Prelude.{ℕ, ◌≡◌, ◌≢◌, refl, true, false, [], ◌∷◌, Option, none, inl, inr, arith}
use thespian.Prelude.Text.{codes}
use thespian.Cbor.Result.{Bytes, ok}
use thespian.Cbor.Buffer.{
  push_int, push_uint, push_string, push_typed_val, array_header, map_header, push_bool, push_null,
}
use thespian.Cbor.Value.{Value, uint, nint, text, bool, null, array, map, nil, cons, push_value}
use thespian.Cbor.Json.{skip_wsp, push_json_qstring, push_json_qstring_slow}
use thespian.Cbor.Json.Paths.{fast_stop, slow_stop, qstring_paths}
use thespian.Prelude.{◌⊎◌}
use thespian.Cbor.Json.Parse.{pushes, invalid, out_of_fuel, push_json}
use thespian.Cbor.Json.Print.{Floats, to_json, string_to_json}
use thespian.Cbor.Json.RoundTrip.{push_json-to_json}
use thespian.Cbor.Json.Total.{push_json-ne-out_of_fuel}
use thespian.Cbor.Json.PrintTotal.{to_json-ne-out_of_fuel}
use thespian.Prelude.Int.{to_int64}
use thespian.Cbor.Decode.{decode_type, decode_pint, decode_string, advance, decode_nint}
use thespian.Cbor.Json.Number.{decimal}

-- A library that knows no doubles.
abbrev floats : Floats
floats = record { is_finite = λ x. false; to_chars = λ x. [] }

abbrev from_chars : Bytes → Option ℕ
from_chars s = none

-- ["a\n", -7, {1: [true, null]}]
abbrev nested : Value
nested = array (
    cons (text (97 ∷ 10 ∷ [])) (
      cons (nint 6)
        (cons (map (cons (uint 1) (cons (array (cons (bool true) (cons null nil))) nil))) nil)))

abbrev nested_text : Bytes
nested_text = codes "[\"a\\n\",-7,{1:[true,null]}]"

push_json-to_json_example :
    (s : Bytes) × (to_json floats (push_value nested) ≡ ok s)
    × (push_json from_chars s ≡ pushes (push_value nested) [])
push_json-to_json_example =
    push_json-to_json floats from_chars nested
      (
        omega arith,
        (
          (omega arith, (omega arith, (omega arith, tt))),
          (
            omega arith,
            ((omega arith, refl, (omega arith, ((omega arith, (tt, (tt, tt))), tt))), tt),
          ),
        ),
      )
      (
        (inl (omega arith), (inr (inr (inr (inl refl))), tt)),
        (omega arith, ((refl, (omega arith, ((tt, (tt, tt)), tt))), tt)),
      )

push_json-ne-out_of_fuel_example : push_json from_chars (codes "[[1,") ≢ out_of_fuel
push_json-ne-out_of_fuel_example = push_json-ne-out_of_fuel from_chars (codes "[[1,")

to_json-ne-out_of_fuel_example :
    to_json floats (130 ∷ 130 ∷ 1 ∷ []) ≢ thespian.Cbor.Result.out_of_fuel
to_json-ne-out_of_fuel_example = to_json-ne-out_of_fuel floats (130 ∷ 130 ∷ 1 ∷ [])

to_json_run : to_json floats (push_value nested) ≡ ok nested_text
unfolding to_json push_value decode_type array_header push_typed_val decode_pint push_string
    decode_string advance push_int decode_nint map_header push_uint push_bool push_null to_int64
    decimal
to_json_run = refl

-- Separators may be left out, or be too many, and what follows the value is not looked at.
push_json_lenient :
    push_json from_chars (codes "[1 2,,3] 4") ≡ pushes (131 ∷ 1 ∷ 2 ∷ 3 ∷ []) (codes " 4")
unfolding push_json push_uint push_int push_typed_val skip_wsp array_header
push_json_lenient = refl

-- A number of pairs that does not come out is refused.
push_json_odd_map : push_json from_chars (codes "{1:2,3}") ≡ invalid
unfolding push_json skip_wsp
push_json_odd_map = refl

-- A control character without a letter of its own is not read back: `push_json` does not know `\u`.
push_json_control :
    push_json from_chars (string_to_json (1 ∷ [])) ≡ pushes (push_string (codes "u0001")) []
unfolding push_json string_to_json skip_wsp push_json_qstring_slow
push_json_control = refl

-- A string without its end.
qstring_paths_example :
    (push_json_qstring (34 ∷ 97 ∷ []) ≡ push_json_qstring_slow (34 ∷ 97 ∷ []))
    × ((fast_stop (34 ∷ 97 ∷ []) ≡ slow_stop (34 ∷ 97 ∷ []))
        ⊎ ((fast_stop (34 ∷ 97 ∷ []) ≡ 34 ∷ 97 ∷ []) × (slow_stop (34 ∷ 97 ∷ []) ≡ [])))
qstring_paths_example = qstring_paths (34 ∷ 97 ∷ [])
