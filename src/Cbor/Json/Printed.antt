-- ===== src/Cbor/Json/Printed.antt =====
-- The JSON text of a value, and that `to_json` gives it of the bytes that a push wrote.
use thespian.Prelude.{
  ℕ, zero, suc, ◌/◌, ◌%◌, ◌≤◌, ◌≡◌, refl, true, false, [], ◌∷◌, ◌++◌, length, length-append,
  append_assoc, append-nil, ap, subst, arith,
}
use thespian.Prelude.Int.{negsuc}
use thespian.Prelude.Text.{codes}
use thespian.Cbor.Result.{Bytes, ok, ◌>>=◌}
use thespian.Cbor.Head.{argument, decode_pint-argument}
use thespian.Cbor.Decode.{decode_string, is_float_type}
use thespian.Cbor.Scalar.{Floating}
use thespian.Cbor.SkipValue.{advance-append}
use thespian.Cbor.ScalarFinds.{decode_nint-argument, decode_float-single, decode_float-double}
use thespian.Cbor.PushSkip.{head_of, body_of, decode_type-push_value, length-push_value}
use thespian.Cbor.Value.{
  Value, Values, uint, nint, text, bool, null, float, double, array, map, nil, cons, count,
  push_value, push_values, IsValid, AreValid,
}
use thespian.Cbor.Json.Number.{decimal}
use thespian.Cbor.Json.Print.{
  Floats, string_to_json, int_to_json, float_to_json, comma, array_to_json, map_to_json,
  special_to_json, value_to_json, to_json_stream, to_json,
}

-- The text of a value. The parts of a map are read in pairs.
unfoldable mutual
  unfolding int_to_json

  pub json : Floats → Value → Bytes
  json floats (uint n) = decimal n
  json floats (nint n) = int_to_json (negsuc n)
  json floats (text s) = string_to_json s
  json floats (bool true) = codes "true"
  json floats (bool false) = codes "false"
  json floats null = codes "null"
  json floats (float bits) = float_to_json floats (Floating.single bits)
  json floats (double bits) = float_to_json floats (Floating.double bits)
  json floats (array vs) = 91 ∷ (parts_json floats vs ++ (93 ∷ []))
  json floats (map vs) = 123 ∷ (pairs_json floats vs ++ (125 ∷ []))

  pub parts_json : Floats → Values → Bytes
  parts_json floats nil = []
  parts_json floats (cons v vs) = json floats v ++ (comma (count vs) ++ parts_json floats vs)

  pub pairs_json : Floats → Values → Bytes
  pairs_json floats nil = []
  pairs_json floats (cons k nil) = []
  pairs_json floats (cons k (cons v vs)) =
      json floats k ++ (58 ∷ (json floats v ++ (comma (count vs / 2) ++ pairs_json floats vs)))

-- A unit of fuel for each byte of the value; only the nesting uses it up.
module _ (floats : Floats) where
  part_lem :
      (v : Value) (f : ℕ) (rest : Bytes)
      → IsValid v
      → value_to_json floats (to_json_stream floats f) (head_of v) (body_of v ++ rest)
        ≡ ok (json floats v, rest)
      → to_json_stream floats (suc f) (push_value v ++ rest) ≡ ok (json floats v, rest)
  unfolding to_json_stream
  part_lem v f rest h e = rw (decode_type-push_value v rest h) e

  mutual
    unfolding value_to_json to_json_stream array_to_json map_to_json special_to_json decode_string
        is_float_type head_of body_of push_value json

    value_to_json-push :
        (v : Value) (f : ℕ) (rest : Bytes)
        → IsValid v
        → length (body_of v) ≤ f
        → value_to_json floats (to_json_stream floats f) (head_of v) (body_of v ++ rest)
          ≡ ok (json floats v, rest)
    value_to_json-push (uint n) f rest h hf = rw (decode_pint-argument n rest h)
    value_to_json-push (nint n) f rest h hf = rw (decode_nint-argument n rest h)
    value_to_json-push (text s) f rest h hf =
        rw (append_assoc, decode_pint-argument (length s) (s ++ rest) h.0, advance-append s rest)
    value_to_json-push (bool true) f rest h hf = refl
    value_to_json-push (bool false) f rest h hf = refl
    value_to_json-push null f rest h hf = refl
    value_to_json-push (float bits) f rest h hf = rw (decode_float-single bits rest h)
    value_to_json-push (double bits) f rest h hf = rw (decode_float-double bits rest h)
    value_to_json-push (array vs) f rest h hf = rw (
      append_assoc,
      decode_pint-argument (count vs) (push_values vs ++ rest) h.0,
      array_to_json-push vs f rest h.1
          (omega (arith, length-append (argument (count vs)) (push_values vs))),
    )
    value_to_json-push (map vs) f rest h hf = rw (
      append_assoc,
      decode_pint-argument (count vs / 2) (push_values vs ++ rest) (omega arith),
      map_to_json-push vs f rest h.1 h.2
          (omega (arith, length-append (argument (count vs / 2)) (push_values vs))),
    )

    array_to_json-push :
        (vs : Values) (f : ℕ) (rest : Bytes)
        → AreValid vs
        → length (push_values vs) ≤ f
        → array_to_json (to_json_stream floats f) (count vs) (push_values vs ++ rest)
          ≡ ok (parts_json floats vs, rest)
    array_to_json-push nil f rest h hf = refl
    array_to_json-push (cons v vs) zero rest h hf =
        absurd
          (omega (arith, length-append (push_value v) (push_values vs), length-push_value v h.0))
    array_to_json-push (cons v vs) (suc f) rest h hf =
        let sizes = length-append (push_value v) (push_values vs) in
        let less = length-push_value v h.0 in
        let more = push_values vs ++ rest in
        rw (
          append_assoc,
          part_lem v f more h.0 (value_to_json-push v f more h.0 (omega (arith, sizes, less))),
          array_to_json-push vs (suc f) rest h.1 (omega (arith, sizes)),
        )

    map_to_json-push :
        (vs : Values) (f : ℕ) (rest : Bytes)
        → count vs % 2 ≡ 0
        → AreValid vs
        → length (push_values vs) ≤ f
        → map_to_json (to_json_stream floats f) (count vs / 2) (push_values vs ++ rest)
          ≡ ok (pairs_json floats vs, rest)
    map_to_json-push nil f rest e h hf = refl
    map_to_json-push (cons k nil) f rest e h hf = absurd (omega arith)
    map_to_json-push (cons k (cons v vs)) zero rest e h hf = absurd (
        omega (
          arith,
          length-append (push_value k) (push_value v ++ push_values vs),
          length-push_value k h.0,
        ))
    map_to_json-push (cons k (cons v vs)) (suc f) rest e h hf =
        let sizes = length-append (push_value k) (push_value v ++ push_values vs) in
        let sizes' = length-append (push_value v) (push_values vs) in
        let less = length-push_value k h.0 in
        let less' = length-push_value v h.1.0 in
        let more = push_values vs ++ rest in
        let half : suc (suc (count vs)) / 2 ≡ suc (count vs / 2) = omega arith in
        rw (
          half,
          append_assoc,
          append_assoc,
          part_lem k f (push_value v ++ more) h.0
              (value_to_json-push k f (push_value v ++ more) h.0 (omega (arith, sizes, less))),
          part_lem v f more h.1.0
              (value_to_json-push v f more h.1.0 (omega (arith, sizes, sizes', less'))),
          map_to_json-push vs (suc f) rest (omega arith) h.1.1 (omega (arith, sizes, sizes')),
        )

-- `to_json` of the bytes that a push wrote for a valid value is the text of the value.
pub to_json-push_value :
    (floats : Floats) (v : Value) → IsValid v → to_json floats (push_value v) ≡ ok (json floats v)
unfolding to_json
to_json-push_value floats v h =
    let n = length (push_value v) in
    let read =
      part_lem floats v n [] h
        (value_to_json-push floats v n [] h (omega (arith, length-push_value v h))) in
    ap (λ r. r >>= λ (s, rest). ok s)
      (subst (λ bs. to_json_stream floats (suc n) bs ≡ ok (json floats v, []))
        (append-nil (push_value v)) read)
