-- ===== src/Cbor/Json/RoundTrip.antt =====
-- The JSON text of a value, read back by `push_json`: the bytes of the value.
use thespian.Prelude.{
  ℕ, zero, suc, ◌+◌, ◌-◌, ◌/◌, ◌%◌, ◌<◌, ◌≤◌, ◌≡◌, refl, ap, ◌∙◌, subst, true, false, [], ◌∷◌, ◌++◌,
  Option, ◌==◌, length, length-append, append_assoc, append-nil, inr, arith,
}
use thespian.Cbor.Result.{Bytes, ok}
use thespian.Cbor.Buffer.{array_header, map_header}
use thespian.Cbor.Value.{
  Value, Values, uint, nint, text, bool, null, float, double, array, map, nil, cons, count,
  push_value, push_values, IsValid,
}
use thespian.Cbor.Json.{match_char, match_literal, skip_wsp, push_json_keyword}
use thespian.Cbor.Json.Parse.{
  Outcome, pushes, round, rounds, container, array_shape, map_shape, push_json_array, push_json_map,
  by_first, push_json, scalar,
}
use thespian.Cbor.Json.Print.{Floats, comma, string_to_json, to_json}
use thespian.Cbor.Json.Printed.{json, parts_json, pairs_json, to_json-push_value}
use thespian.Cbor.Json.Decimals.{EndsNumber}
use thespian.Cbor.Json.ReadNumber.{push_json_number-negative}
use thespian.Cbor.Json.ReadString.{push_json_qstring-string_to_json}
use thespian.Cbor.Json.ReadParts.{
  IsReadBack, AreReadBack, json-Begins, array-Suits, map-Suits, value, round_lem, container_lem,
  array_text, map_text, first_lem, uint_lem, array_tail, map_tail, array_tail-cons,
  array_tail-EndsNumber, map_tail-cons, map_tail-EndsNumber,
}

module _ (floats : Floats) (from_chars : Bytes → Option ℕ) where
  abbrev val : ℕ → Bytes → Outcome
  val f = value floats from_chars f

  abbrev text_of : Value → Bytes
  text_of v = json floats v

  filled : (v : Value) → IsReadBack v → 0 < length (text_of v)
  filled v h = let (c, cs, is, begins) = json-Begins floats v h in omega (arith, ap length is)

  one_part : (v : Value) (vs : Values) → IsReadBack v → 0 < length (parts_json floats (cons v vs))
  unfolding json
  one_part v vs h =
      omega
        (arith, filled v h, length-append (text_of v) (comma (count vs) ++ parts_json floats vs))

  array_closes :
      (f fv k : ℕ) (inner more : Bytes)
      → rounds array_shape (val fv) (suc f) k inner (93 ∷ more)
        ≡ pushes (array_header (k + 0) ++ (inner ++ [])) more
  unfolding rounds skip_wsp round
  array_closes f fv k inner more = let e : k + 0 ≡ k = omega arith in rw (e, append-nil inner) refl

  map_closes :
      (f fv k : ℕ) (inner more : Bytes)
      → k % 2 ≡ 0
      → rounds map_shape (val fv) (suc f) k inner (125 ∷ more)
        ≡ pushes (map_header ((k + 0) / 2) ++ (inner ++ [])) more
  unfolding rounds skip_wsp round
  map_closes f fv k inner more e =
      let n : k + 0 ≡ k = omega arith in
      let even : (k % 2 == 0) ≡ true = ground arith in rw (n, append-nil inner, even) refl

  pair_sizes :
      (k v : Value) (vs : Values)
      → (length (text_of k) ≤ length (pairs_json floats (cons k (cons v vs))))
        × (length (text_of v) < length (pairs_json floats (cons k (cons v vs))))
        × (length (pairs_json floats vs) < length (pairs_json floats (cons k (cons v vs))))
  unfolding json
  pair_sizes k v vs =
      let behind = comma (count vs / 2) ++ pairs_json floats vs in
      let a = length-append (text_of k) (58 ∷ (text_of v ++ behind)) in
      let b = length-append (text_of v) behind in
      let c = length-append (comma (count vs / 2)) (pairs_json floats vs) in
      (omega (arith, a), omega (arith, a, b), omega (arith, a, b, c))

  one_pair : (k v : Value) (vs : Values) → 0 < length (pairs_json floats (cons k (cons v vs)))
  one_pair k v vs = let (a, b, c) = pair_sizes k v vs in omega arith

  two_more : (n : ℕ) → 2 + n ≡ suc (suc n)
  two_more n = omega arith

  later : (k n : ℕ) → suc (suc k) + n ≡ k + suc (suc n)
  later k n = omega arith

  mutual
    unfolding json push_value by_first push_json_array push_json_map container push_json_keyword
        match_literal string_to_json skip_wsp match_char

    by_first-json :
        (v : Value) (f : ℕ) (rest : Bytes)
        → IsReadBack v
        → EndsNumber rest
        → length (text_of v) ≤ suc f
        → by_first from_chars (val f) (text_of v ++ rest) ≡ pushes (push_value v) rest
    by_first-json (uint n) f rest h ends hf = uint_lem floats from_chars (val f) n rest h ends
    by_first-json (nint n) f rest h ends hf =
        ap scalar (push_json_number-negative from_chars n rest h ends)
    by_first-json (text s) f rest h ends hf = ap scalar (push_json_qstring-string_to_json s rest h)
    by_first-json (bool true) f rest h ends hf = refl
    by_first-json (bool false) f rest h ends hf = refl
    by_first-json null f rest h ends hf = refl
    by_first-json (float bits) f rest h ends hf = absurd h
    by_first-json (double bits) f rest h ends hf = absurd h
    by_first-json (array nil) f rest h ends hf = refl
    by_first-json (array (cons v vs)) zero rest h ends hf =
        absurd (
          omega (arith, length-append (parts_json floats (cons v vs)) (93 ∷ []), one_part v vs h.0))
    by_first-json (array (cons v vs)) (suc f) rest h ends hf =
        let tail = array_tail floats from_chars vs rest in
        let sizes = length-append (parts_json floats (cons v vs)) (93 ∷ []) in
        let sizes' = length-append (text_of v) (comma (count vs) ++ parts_json floats vs) in
        let sizes'' = length-append (comma (count vs)) (parts_json floats vs) in
        let read =
          by_first-json v f tail h.0 (array_tail-EndsNumber floats from_chars vs rest)
            (omega (arith, sizes, sizes')) in
        let one : 1 + count vs ≡ suc (count vs) = omega arith in
        ap (by_first from_chars (val (suc f))) (array_text floats from_chars v vs rest)
        ∙ container_lem floats from_chars array_shape 91 v (suc f) tail array-Suits h.0
            (first_lem floats from_chars v f tail h.0 read)
        ∙ array_rounds vs (suc f) (suc (length tail)) 1 (push_value v) rest h.1
            (omega (arith, sizes, sizes', sizes'')) (omega arith)
        ∙ ap (λ n. pushes (array_header n ++ (push_value v ++ push_values vs)) rest) one
    by_first-json (map nil) f rest h ends hf = refl
    by_first-json (map (cons k nil)) f rest h ends hf = absurd (omega arith)
    by_first-json (map (cons k (cons v vs))) zero rest h ends hf = absurd (
        omega (
          arith,
          length-append (pairs_json floats (cons k (cons v vs))) (125 ∷ []),
          one_pair k v vs,
        ))
    by_first-json (map (cons k (cons v vs))) (suc f) rest h ends hf =
        let tail = map_tail floats from_chars vs rest in
        let tail' = text_of v ++ tail in
        let sizes = length-append (pairs_json floats (cons k (cons v vs))) (125 ∷ []) in
        let (short, short', short'') = pair_sizes k v vs in
        let even : count vs % 2 ≡ 0 = omega arith in
        let ends_value = map_tail-EndsNumber floats from_chars vs rest even in
        let key =
          by_first-json k f (58 ∷ tail') h.1.0
            (inr (omega arith), omega arith, omega arith, omega arith) (omega arith) in
        let part = by_first-json v f tail h.1.1.0 ends_value (omega arith) in
        ap (by_first from_chars (val (suc f))) (map_text floats from_chars k v vs rest)
        ∙ container_lem floats from_chars map_shape 123 k (suc f) (58 ∷ tail') map-Suits h.1.0
            (first_lem floats from_chars k f (58 ∷ tail') h.1.0 key)
        ∙ round_lem floats from_chars map_shape v 58 (suc f) (length tail') 1 (push_value k) tail
            map-Suits refl (omega arith) h.1.1.0 (first_lem floats from_chars v f tail h.1.1.0 part)
        ∙ map_rounds vs (suc f) (length tail') 2 (push_value k ++ push_value v) rest refl even
            h.1.1.1 (omega arith) (omega (arith, length-append (text_of v) tail, filled v h.1.1.0))
        ∙ ap (λ b. pushes (map_header ((2 + count vs) / 2) ++ b) rest)
            (append_assoc (push_value k) (push_value v) (push_values vs))
        ∙ ap
            (λ n.
              pushes (map_header (n / 2) ++ (push_value k ++ (push_value v ++ push_values vs)))
                rest)
            (two_more (count vs))

    map_rounds :
        (vs : Values) (fv f k : ℕ) (inner more : Bytes)
        → k % 2 ≡ 0
        → count vs % 2 ≡ 0
        → AreReadBack vs
        → length (pairs_json floats vs) ≤ fv
        → length (map_tail floats from_chars vs more) < f
        → rounds map_shape (val fv) f k inner (map_tail floats from_chars vs more)
          ≡ pushes (map_header ((k + count vs) / 2) ++ (inner ++ push_values vs)) more
    map_rounds nil fv zero k inner more e even h hv hf = absurd (omega arith)
    map_rounds nil fv (suc f) k inner more e even h hv hf = map_closes f fv k inner more e
    map_rounds (cons a nil) fv f k inner more e even h hv hf = absurd (omega arith)
    map_rounds (cons a (cons v vs)) zero f k inner more e even h hv hf =
        absurd (omega (arith, one_pair a v vs))
    map_rounds (cons a (cons v vs)) (suc fv) f k inner more e even h hv hf =
        let tail = map_tail floats from_chars vs more in
        let tail' = text_of v ++ tail in
        let (short, short', short'') = pair_sizes a v vs in
        let even' : count vs % 2 ≡ 0 = omega arith in
        let ends_value = map_tail-EndsNumber floats from_chars vs more even' in
        let whole = map_tail-cons floats from_chars a v vs more in
        let key =
          by_first-json a fv (58 ∷ tail') h.0
            (inr (omega arith), omega arith, omega arith, omega arith) (omega arith) in
        let part = by_first-json v fv tail h.1.0 ends_value (omega arith) in
        let room : f ≡ suc (suc (suc (suc (f - 4)))) = omega (
          arith,
          ap length whole,
          length-append (text_of a) (58 ∷ tail'),
          length-append (text_of v) tail,
          filled a h.0,
          filled v h.1.0,
        ) in
        ap (rounds map_shape (val (suc fv)) f k inner) whole
        ∙ ap (λ g. rounds map_shape (val (suc fv)) g k inner (44 ∷ (text_of a ++ (58 ∷ tail'))))
            room
        ∙ round_lem floats from_chars map_shape a 44 (suc fv) (suc (suc (f - 4))) k inner
            (58 ∷ tail') map-Suits refl (omega arith) h.0
            (first_lem floats from_chars a fv (58 ∷ tail') h.0 key)
        ∙ round_lem floats from_chars map_shape v 58 (suc fv) (f - 4) (suc k)
            (inner ++ push_value a) tail map-Suits refl (omega arith) h.1.0
            (first_lem floats from_chars v fv tail h.1.0 part)
        ∙ map_rounds vs (suc fv) (f - 4) (suc (suc k)) ((inner ++ push_value a) ++ push_value v)
            more (omega arith) even' h.1.1 (omega arith)
            (omega (
              arith,
              ap length whole,
              length-append (text_of a) (58 ∷ tail'),
              length-append (text_of v) tail,
              filled a h.0,
              filled v h.1.0,
            ))
        ∙ ap (λ b. pushes (map_header ((suc (suc k) + count vs) / 2) ++ b) more)
            (rw (append_assoc, append_assoc) refl)
        ∙ ap
            (λ n.
              pushes
                (map_header (n / 2)
                  ++ (inner ++ (push_value a ++ (push_value v ++ push_values vs))))
                more)
            (later k (count vs))

    array_rounds :
        (vs : Values) (fv f k : ℕ) (inner more : Bytes)
        → AreReadBack vs
        → length (parts_json floats vs) ≤ fv
        → length (array_tail floats from_chars vs more) < f
        → rounds array_shape (val fv) f k inner (array_tail floats from_chars vs more)
          ≡ pushes (array_header (k + count vs) ++ (inner ++ push_values vs)) more
    array_rounds nil fv zero k inner more h hv hf = absurd (omega arith)
    array_rounds nil fv (suc f) k inner more h hv hf = array_closes f fv k inner more
    array_rounds (cons v vs) zero f k inner more h hv hf = absurd (omega (arith, one_part v vs h.0))
    array_rounds (cons v vs) fv zero k inner more h hv hf = absurd (omega arith)
    array_rounds (cons v vs) (suc fv) (suc zero) k inner more h hv hf =
        absurd (omega (arith, ap length (array_tail-cons floats from_chars v vs more)))
    array_rounds (cons v vs) (suc fv) (suc (suc f)) k inner more h hv hf =
        let tail = array_tail floats from_chars vs more in
        let sizes = length-append (text_of v) (comma (count vs) ++ parts_json floats vs) in
        let sizes' = length-append (comma (count vs)) (parts_json floats vs) in
        let whole = array_tail-cons floats from_chars v vs more in
        let read =
          by_first-json v fv tail h.0 (array_tail-EndsNumber floats from_chars vs more)
            (omega (arith, sizes)) in
        let next : suc k + count vs ≡ k + suc (count vs) = omega arith in
        ap (rounds array_shape (val (suc fv)) (suc (suc f)) k inner) whole
        ∙ round_lem floats from_chars array_shape v 44 (suc fv) f k inner tail array-Suits refl
            (omega arith) h.0 (first_lem floats from_chars v fv tail h.0 read)
        ∙ array_rounds vs (suc fv) f (suc k) (inner ++ push_value v) more h.1
            (omega (arith, sizes, sizes'))
            (omega (arith, ap length whole, length-append (text_of v) tail, filled v h.0))
        ∙ ap (λ n. pushes (array_header n ++ ((inner ++ push_value v) ++ push_values vs)) more) next
        ∙ ap (λ b. pushes (array_header (k + suc (count vs)) ++ b) more)
            (append_assoc inner (push_value v) (push_values vs))

  push_json-json :
      (v : Value) → IsReadBack v → push_json from_chars (text_of v) ≡ pushes (push_value v) []
  unfolding push_json
  push_json-json v h =
      let n = length (text_of v) in
      subst (λ s. val (suc n) s ≡ pushes (push_value v) []) (append-nil (text_of v))
        (first_lem floats from_chars v n [] h (by_first-json v n [] h tt (omega arith)))

-- For a valid value of numbers of int64_t, readable strings, booleans, nulls, arrays and maps of these,
-- `to_json` of the bytes that a push wrote gives a text, of which `push_json` writes the same bytes. It
-- does not depend on what the library tells of doubles.
pub push_json-to_json :
    (floats : Floats) (from_chars : Bytes → Option ℕ) (v : Value)
    → IsValid v
    → IsReadBack v
    → (s : Bytes) × (to_json floats (push_value v) ≡ ok s)
      × (push_json from_chars s ≡ pushes (push_value v) [])
push_json-to_json floats from_chars v valid h =
    (json floats v, to_json-push_value floats v valid, push_json-json floats from_chars v h)
