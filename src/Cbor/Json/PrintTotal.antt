-- ===== src/Cbor/Json/PrintTotal.antt =====
-- `to_json` on any bytes, well formed or not.
use thespian.Prelude.{ℕ, zero, suc, ◌-◌, ◌<◌, ◌≤◌, ◌≢◌, [], ◌∷◌, ◌==◌, length, bit_and, arith}
use thespian.Cbor.Result.{Bytes, Decoder, Result, ok, err, out_of_fuel, ◌>>=◌}
use thespian.Cbor.Buffer.{shr}
use thespian.Cbor.Decode.{
  Head, decode_pint, decode_nint, decode_string, decode_bytes, decode_type, is_float_type,
}
use thespian.Cbor.Scalar.{decode_float}
use thespian.Cbor.Total.{
  Leaves, Leaves-mono, Leaves-if, Leaves-bind, decode_pint-Leaves, decode_nint-Leaves,
  decode_string-Leaves,
}
use thespian.Cbor.TotalMatch.{decode_float-Leaves}
use thespian.Cbor.Json.Print.{
  Floats, array_to_json, map_to_json, special_to_json, value_to_json, to_json_stream, to_json,
}

-- Each call of the printer on at most `n` bytes keeps within them.
abbrev Keeps : ℕ → Decoder Bytes → Type 0
Keeps n part = (cs : Bytes) → length cs ≤ n → Leaves n (part cs)

array_to_json-Leaves :
    (part : Decoder Bytes) (n i : ℕ) (bs : Bytes)
    → Keeps n part
    → length bs ≤ n
    → Leaves n (array_to_json part i bs)
unfolding array_to_json
array_to_json-Leaves part n zero bs keeps h = h
array_to_json-Leaves part n (suc i) bs keeps h =
    Leaves-bind n n (part bs) _ (keeps bs h) λ s rest l.
      Leaves-bind n n (array_to_json part i rest) _ (array_to_json-Leaves part n i rest keeps l)
        λ t rest' l'. l'

map_to_json-Leaves :
    (part : Decoder Bytes) (n i : ℕ) (bs : Bytes)
    → Keeps n part
    → length bs ≤ n
    → Leaves n (map_to_json part i bs)
unfolding map_to_json
map_to_json-Leaves part n zero bs keeps h = h
map_to_json-Leaves part n (suc i) bs keeps h = Leaves-bind n n (part bs) _ (keeps bs h) λ k rest l.
    Leaves-bind n n (part rest) _ (keeps rest l) λ v rest' l'.
      Leaves-bind n n (map_to_json part i rest') _ (map_to_json-Leaves part n i rest' keeps l')
        λ t rest'' l''. l''

special_to_json-Leaves :
    (floats : Floats) (h : Head) (bs : Bytes) → Leaves (length bs) (special_to_json floats h bs)
unfolding special_to_json
special_to_json-Leaves floats h bs =
    let n = length bs in
    Leaves-if (h.type == 0xf4) n _ _ (omega arith) (
      Leaves-if (h.type == 0xf5) n _ _ (omega arith) (
        Leaves-if (h.type == 0xf6) n _ _ (omega arith) (
          Leaves-if (is_float_type h.type) n _ _
            (Leaves-bind n n (decode_float h.type bs) _ (decode_float-Leaves h.type bs)
              λ x rest l. l)
            tt)))

value_to_json-Leaves :
    (floats : Floats) (part : Decoder Bytes) (h : Head) (n : ℕ) (bs : Bytes)
    → Keeps n part
    → length bs ≤ n
    → Leaves n (value_to_json floats part h bs)
unfolding value_to_json decode_bytes
value_to_json-Leaves floats part h n bs keeps l =
    Leaves-if (h.major == 0) n _ _
      (Leaves-bind _ _ (decode_pint h.minor bs) _ pint λ _ rest l'. omega arith)
      (Leaves-if (h.major == 1) n _ _
        (Leaves-bind _ _ (decode_nint h.minor bs) _ (decode_nint-Leaves h.minor bs)
          λ _ rest l'. omega arith)
        (Leaves-if (h.major == 2) n _ _
          (Leaves-bind _ _ (decode_string h.minor bs) _ string λ _ rest l'. omega arith)
          (Leaves-if (h.major == 3) n _ _
            (Leaves-bind _ _ (decode_string h.minor bs) _ string λ _ rest l'. omega arith)
            (Leaves-if (h.major == 4) n _ _
              (Leaves-bind _ _ (decode_pint h.minor bs) _ pint λ i rest l'.
                Leaves-bind n n (array_to_json part i rest) _
                  (array_to_json-Leaves part n i rest keeps (omega arith)) λ s rest' l''. l'')
              (Leaves-if (h.major == 5) n _ _
                (Leaves-bind _ _ (decode_pint h.minor bs) _ pint λ i rest l'.
                  Leaves-bind n n (map_to_json part i rest) _
                    (map_to_json-Leaves part n i rest keeps (omega arith)) λ s rest' l''. l'')
                (Leaves-if (h.major == 6) n _ _ tt (
                  Leaves-if (h.major == 7) n _ _
                    (Leaves-mono (special_to_json floats h bs) l
                      (special_to_json-Leaves floats h bs))
                    tt)))))))
  where
    pint : Leaves (length bs) (decode_pint h.minor bs)
    pint = decode_pint-Leaves h.minor bs

    string : Leaves (length bs) (decode_string h.minor bs)
    string = decode_string-Leaves h.minor bs

pub to_json_stream-Leaves :
    (floats : Floats) (f n : ℕ) (bs : Bytes)
    → length bs ≤ n
    → n < f
    → Leaves (n - 1) (to_json_stream floats f bs)
unfolding to_json_stream decode_type
to_json_stream-Leaves floats zero n bs h hf = absurd (omega arith)
to_json_stream-Leaves floats (suc f) n [] h hf = tt
to_json_stream-Leaves floats (suc f) n (b ∷ bs) h hf =
    value_to_json-Leaves floats (to_json_stream floats f)
      (record { major = shr b 5; minor = bit_and b 31; type = b }) (n - 1) bs
      (λ cs l.
        Leaves-mono (to_json_stream floats f cs) (omega arith)
          (to_json_stream-Leaves floats f (n - 1) cs l (omega arith)))
      (omega arith)

-- `to_json` of any bytes ends: it gives a text, or throws.
pub to_json-ne-out_of_fuel : (floats : Floats) (bs : Bytes) → to_json floats bs ≢ out_of_fuel
unfolding to_json
to_json-ne-out_of_fuel floats bs e =
    ended (to_json_stream floats (suc (length bs)) bs)
      (to_json_stream-Leaves floats (suc (length bs)) (length bs) bs (omega arith) (omega arith)) e
  where
    ended :
        (r : Result (Bytes × Bytes))
        → Leaves (length bs - 1) r
        → (r >>= λ (s, rest). ok s) ≢ out_of_fuel
    ended (ok (s, rest)) l e' = cc
    ended (err x) l e' = cc
    ended out_of_fuel l e' = l
