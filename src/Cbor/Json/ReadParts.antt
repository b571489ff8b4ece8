-- ===== src/Cbor/Json/ReadParts.antt =====
-- The loops of `push_json` over the text of the parts of an array or a map.
use thespian.Prelude.{
  ℕ, suc, ◌/◌, ◌%◌, ◌^◌, ◌<◌, ◌≡◌, refl, sym, ap, ◌∙◌, subst, true, false, ◌∷◌, ◌++◌, Option, some,
  none, leb, ◌==◌, ==_refl, length, append_assoc, inl, inr, ◌≢◌, All, arith,
}
use thespian.Cbor.Result.{Bytes}
use thespian.Cbor.Buffer.{push_uint}
use thespian.Cbor.Value.{
  Value, Values, uint, nint, text, bool, null, float, double, array, map, nil, cons, count,
  push_value,
}
use thespian.Cbor.Json.{skip_wsp, match_char}
use thespian.Cbor.Json.Number.{decimal, push_json_number}
use thespian.Cbor.Json.Parse.{
  pushes, Pusher, Loop, Shape, round, rounds, container, array_shape, map_shape, by_first,
  push_json_value, scalar, after_part,
}
use thespian.Cbor.Json.Print.{Floats, comma, string_to_json}
use thespian.Cbor.Json.Printed.{json, parts_json, pairs_json}
use thespian.Cbor.Json.Decimals.{EndsNumber, IsDigit, decimal-cons, decimal-IsDigit}
use thespian.Cbor.Json.ReadNumber.{push_json_number-decimal}
use thespian.Cbor.Json.ReadString.{IsReadable}

-- The values that are read as they were written: numbers of int64_t, readable strings, and no floats.
abbrev mutual
  pub IsReadBack : Value → Type 0
  IsReadBack (uint n) = n < 2 ^ 63
  IsReadBack (nint n) = n < 2 ^ 63
  IsReadBack (text s) = All IsReadable s
  IsReadBack (bool b) = Unit
  IsReadBack null = Unit
  IsReadBack (float bits) = ⊥
  IsReadBack (double bits) = ⊥
  IsReadBack (array vs) = AreReadBack vs
  IsReadBack (map vs) = (count vs % 2 ≡ 0) × AreReadBack vs

  pub AreReadBack : Values → Type 0
  AreReadBack nil = Unit
  AreReadBack (cons v vs) = IsReadBack v × AreReadBack vs

-- How the text of a value begins: with none of the characters that a loop looks for.
abbrev pub Begins : ℕ → Type 0
Begins c = (32 < c) × (c ≢ 44) × (c ≢ 58) × (c ≢ 93) × (c ≢ 125)

skip_wsp-Begins : (c : ℕ) (cs : Bytes) → Begins c → skip_wsp (c ∷ cs) ≡ c ∷ cs
unfolding skip_wsp
skip_wsp-Begins c cs h =
    let n₁ : (c == 32) ≡ false = ground arith in
    let n₂ : (c == 9) ≡ false = ground arith in
    let n₃ : (c == 13) ≡ false = ground arith in
    let n₄ : (c == 10) ≡ false = ground arith in rw (n₁, n₂, n₃, n₄) refl

module _ (floats : Floats) where
  pub json-Begins :
      (v : Value) → IsReadBack v → (c : ℕ) × (cs : Bytes) × (json floats v ≡ c ∷ cs) × Begins c
  unfolding json string_to_json
  json-Begins (uint n) h =
      let (d, ds, e) = decimal-cons n in
      let digit : IsDigit d = (subst (All IsDigit) e (decimal-IsDigit n)).0 in
      (d, ds, e, (omega arith, omega arith, omega arith, omega arith, omega arith))
  json-Begins (nint n) h =
      (_, _, refl, (omega arith, omega arith, omega arith, omega arith, omega arith))
  json-Begins (text s) h =
      (_, _, refl, (omega arith, omega arith, omega arith, omega arith, omega arith))
  json-Begins (bool true) h =
      (_, _, refl, (omega arith, omega arith, omega arith, omega arith, omega arith))
  json-Begins (bool false) h =
      (_, _, refl, (omega arith, omega arith, omega arith, omega arith, omega arith))
  json-Begins null h =
      (_, _, refl, (omega arith, omega arith, omega arith, omega arith, omega arith))
  json-Begins (float bits) h = absurd h
  json-Begins (double bits) h = absurd h
  json-Begins (array vs) h =
      (_, _, refl, (omega arith, omega arith, omega arith, omega arith, omega arith))
  json-Begins (map vs) h =
      (_, _, refl, (omega arith, omega arith, omega arith, omega arith, omega arith))

-- A loop that takes no beginning of a value for one of its own characters.
abbrev pub Suits : Shape → Type 0
Suits sh = (c : ℕ) → Begins c → (sh.separates c ≡ false) × ((c == sh.closing) ≡ false)

pub array-Suits : Suits array_shape
array-Suits c h = (ground arith, ground arith)

pub map-Suits : Suits map_shape
map-Suits c h =
    let colon : (c == 58) ≡ false = ground arith in
    let comma : (c == 44) ≡ false = ground arith in (rw (colon, comma) refl, ground arith)

separator_lem :
    (sh : Shape) (value : Pusher) (loop : Loop) (s k : ℕ) (inner cs : Bytes)
    → sh.separates s ≡ true
    → round sh value loop k inner (s ∷ cs) ≡ loop k inner (skip_wsp cs)
unfolding round
separator_lem sh value loop s k inner cs e = rw (e, round) refl

part_lem :
    (sh : Shape) (value : Pusher) (loop : Loop) (c k : ℕ) (inner cs : Bytes)
    → sh.separates c ≡ false
    → (c == sh.closing) ≡ false
    → round sh value loop k inner (c ∷ cs)
      ≡ after_part (value (c ∷ cs)) (λ p rest. loop (suc k) (inner ++ p) rest)
unfolding round
part_lem sh value loop c k inner cs a b = rw (a, b, round) refl

-- The first two rounds over a separator and a value.
begun_lem :
    (sh : Shape) (value : Pusher) (s c : ℕ) (cs p rest : Bytes) (f k : ℕ) (inner : Bytes)
    → Suits sh
    → sh.separates s ≡ true
    → 32 < s
    → Begins c
    → value (c ∷ cs) ≡ pushes p rest
    → rounds sh value (suc (suc f)) k inner (s ∷ (c ∷ cs))
      ≡ rounds sh value f (suc k) (inner ++ p) rest
unfolding rounds
begun_lem sh value s c cs p rest f k inner suits sep printed begins e =
    let s₁ : (s == 32) ≡ false = ground arith in
    let s₂ : (s == 9) ≡ false = ground arith in
    let s₃ : (s == 13) ≡ false = ground arith in
    let s₄ : (s == 10) ≡ false = ground arith in
    let no_wsp : skip_wsp (s ∷ (c ∷ cs)) ≡ s ∷ (c ∷ cs) =
      unfold skip_wsp in rw (s₁, s₂, s₃, s₄) refl in
    let stays = skip_wsp-Begins c cs begins in
    let (a, b) = suits c begins in
    ap (round sh value (rounds sh value (suc f)) k inner) no_wsp
    ∙ separator_lem sh value (rounds sh value (suc f)) s k inner (c ∷ cs) sep
    ∙ ap (rounds sh value (suc f) k inner) stays
    ∙ ap (round sh value (rounds sh value f) k inner) stays
    ∙ part_lem sh value (rounds sh value f) c k inner cs a b
    ∙ ap (λ o. after_part o (λ p' rest'. rounds sh value f (suc k) (inner ++ p') rest')) e

module _ (floats : Floats) (from_chars : Bytes → Option ℕ) where
  abbrev pub value : ℕ → Pusher
  value f = push_json_value from_chars f

  pub round_lem :
      (sh : Shape) (v : Value) (s fv f k : ℕ) (inner rest : Bytes)
      → Suits sh
      → sh.separates s ≡ true
      → 32 < s
      → IsReadBack v
      → value fv (json floats v ++ rest) ≡ pushes (push_value v) rest
      → rounds sh (value fv) (suc (suc f)) k inner (s ∷ (json floats v ++ rest))
        ≡ rounds sh (value fv) f (suc k) (inner ++ push_value v) rest
  round_lem sh v s fv f k inner rest suits sep printed h e =
      let (c, cs, is, begins) = json-Begins floats v h in
      let same : json floats v ++ rest ≡ c ∷ (cs ++ rest) = ap (λ t. t ++ rest) is in
      ap (λ t. rounds sh (value fv) (suc (suc f)) k inner (s ∷ t)) same
      ∙ begun_lem sh (value fv) s c (cs ++ rest) (push_value v) rest f k inner suits sep printed
          begins (ap (value fv) (sym same) ∙ e)

  -- An array or a map from its opening character on, when a value comes first.
  pub container_lem :
      (sh : Shape) (opening : ℕ) (v : Value) (fv : ℕ) (rest : Bytes)
      → Suits sh
      → IsReadBack v
      → value fv (json floats v ++ rest) ≡ pushes (push_value v) rest
      → container sh opening (value fv) (opening ∷ (json floats v ++ rest))
        ≡ rounds sh (value fv) (suc (length rest)) 1 (push_value v) rest
  unfolding container match_char
  container_lem sh opening v fv rest suits h e =
      let (c, cs, is, begins) = json-Begins floats v h in
      let same : json floats v ++ rest ≡ c ∷ (cs ++ rest) = ap (λ t. t ++ rest) is in
      let stays = skip_wsp-Begins c (cs ++ rest) begins in
      let (a, b) = suits c begins in
      let opens : match_char opening (opening ∷ (c ∷ (cs ++ rest))) ≡ some (c ∷ (cs ++ rest)) =
        rw (==_refl opening, match_char) refl in
      let stays_open : match_char sh.closing (c ∷ (cs ++ rest)) ≡ none = rw (b, match_char) refl in
      let read : value fv (c ∷ (cs ++ rest)) ≡ pushes (push_value v) rest =
        ap (value fv) (sym same) ∙ e in
      ap (λ t. container sh opening (value fv) (opening ∷ t)) same
      ∙ rw (opens, container, stays, stays_open, stays, read) refl

  -- From the first character of a value on.
  pub first_lem :
      (v : Value) (f : ℕ) (rest : Bytes)
      → IsReadBack v
      → by_first from_chars (value f) (json floats v ++ rest) ≡ pushes (push_value v) rest
      → value (suc f) (json floats v ++ rest) ≡ pushes (push_value v) rest
  unfolding push_json_value
  first_lem v f rest h e =
      let (c, cs, is, begins) = json-Begins floats v h in
      let same : json floats v ++ rest ≡ c ∷ (cs ++ rest) = ap (λ t. t ++ rest) is in
      let stays : skip_wsp (json floats v ++ rest) ≡ json floats v ++ rest =
        ap skip_wsp same ∙ skip_wsp-Begins c (cs ++ rest) begins ∙ sym same in
      ap (by_first from_chars (value f)) stays ∙ e

  digit_lem :
      (val : Pusher) (c : ℕ) (cs : Bytes)
      → IsDigit c
      → by_first from_chars val (c ∷ cs) ≡ scalar (push_json_number from_chars (c ∷ cs))
  unfolding by_first
  digit_lem val c cs h =
      let low : leb 48 c ≡ true = ground arith in
      let high : leb c 57 ≡ true = ground arith in rw (low, high, by_first) refl

  pub uint_lem :
      (value : Pusher) (n : ℕ) (rest : Bytes)
      → n < 2 ^ 63
      → EndsNumber rest
      → by_first from_chars value (decimal n ++ rest) ≡ pushes (push_uint n) rest
  uint_lem value n rest h ends =
      let (d, ds, e) = decimal-cons n in
      let same : decimal n ++ rest ≡ d ∷ (ds ++ rest) = ap (λ t. t ++ rest) e in
      let digit : IsDigit d = (subst (All IsDigit) e (decimal-IsDigit n)).0 in
      ap (by_first from_chars value) same
      ∙ digit_lem value d (ds ++ rest) digit
      ∙ ap (λ t. scalar (push_json_number from_chars t)) (sym same)
      ∙ ap scalar (push_json_number-decimal from_chars n rest h ends)

  -- What stands behind a part of an array.
  abbrev pub array_tail : Values → Bytes → Bytes
  array_tail vs more = comma (count vs) ++ (parts_json floats vs ++ (93 ∷ more))

  abbrev pub map_tail : Values → Bytes → Bytes
  map_tail vs more = comma (count vs / 2) ++ (pairs_json floats vs ++ (125 ∷ more))

  pub array_tail-cons :
      (v : Value) (vs : Values) (more : Bytes)
      → array_tail (cons v vs) more ≡ 44 ∷ (json floats v ++ array_tail vs more)
  unfolding json
  array_tail-cons v vs more = rw (append_assoc, append_assoc) refl

  pub array_tail-EndsNumber : (vs : Values) (more : Bytes) → EndsNumber (array_tail vs more)
  unfolding json
  array_tail-EndsNumber nil more = (inr (omega arith), omega arith, omega arith, omega arith)
  array_tail-EndsNumber (cons v vs) more =
      (inl (omega arith), omega arith, omega arith, omega arith)

  pub map_tail-cons :
      (k v : Value) (vs : Values) (more : Bytes)
      → map_tail (cons k (cons v vs)) more
        ≡ 44 ∷ (json floats k ++ (58 ∷ (json floats v ++ map_tail vs more)))
  unfolding json
  map_tail-cons k v vs more =
      let pair : suc (suc (count vs)) / 2 ≡ suc (count vs / 2) = omega arith in
      rw (pair, append_assoc, append_assoc, append_assoc) refl

  -- With an even count.
  pub map_tail-EndsNumber :
      (vs : Values) (more : Bytes) → count vs % 2 ≡ 0 → EndsNumber (map_tail vs more)
  unfolding json
  map_tail-EndsNumber nil more e = (inr (omega arith), omega arith, omega arith, omega arith)
  map_tail-EndsNumber (cons k nil) more e = absurd (omega arith)
  map_tail-EndsNumber (cons k (cons v vs)) more e =
      subst EndsNumber (sym (map_tail-cons k v vs more))
        (inl (omega arith), omega arith, omega arith, omega arith)

  pub array_text :
      (v : Value) (vs : Values) (more : Bytes)
      → json floats (array (cons v vs)) ++ more ≡ 91 ∷ (json floats v ++ array_tail vs more)
  unfolding json
  array_text v vs more = rw (append_assoc, append_assoc, append_assoc) refl

  pub map_text :
      (k v : Value) (vs : Values) (more : Bytes)
      → json floats (map (cons k (cons v vs))) ++ more
        ≡ 123 ∷ (json floats k ++ (58 ∷ (json floats v ++ map_tail vs more)))
  unfolding json
  map_text k v vs more =
      let pair : suc (suc (count vs)) / 2 ≡ suc (count vs / 2) = omega arith in
      rw (append_assoc, append_assoc, append_assoc, append_assoc) refl
