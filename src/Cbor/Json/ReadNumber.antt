-- ===== src/Cbor/Json/ReadNumber.antt =====
-- Numbers in decimal, read back by `push_json_number`.
use thespian.Prelude.{
  ℕ, suc, ◌^◌, ◌<◌, ◌≤◌, ◌≡◌, refl, sym, ap, ◌∙◌, subst, true, false, [], ◌∷◌, ◌++◌, Option, some,
  ltb, leb, ◌==◌, length, All, arith,
}
use thespian.Prelude.Int.{pos, negsuc}
use thespian.Cbor.Result.{Bytes}
use thespian.Cbor.Buffer.{push_int, push_uint}
use thespian.Cbor.Json.{match_char}
use thespian.Cbor.Json.Number.{
  digits_value, negated, from_chars_int, decimal, next_part, found, digits, sign, fraction,
  exponent, push_number, push_json_number,
}
use thespian.Cbor.Json.Decimals.{
  IsDigit, EndsNumber, decimal-cons, digits_value-decimal, length-decimal, match_digits-append,
  decimal-IsDigit,
}

fraction_none : (rest : Bytes) → EndsNumber rest → fraction rest ≡ some ([], rest)
unfolding fraction
fraction_none [] h = refl
fraction_none (c ∷ cs) h = let other : (c == 46) ≡ false = ground arith in rw other refl

exponent_none : (rest : Bytes) → EndsNumber rest → exponent rest ≡ some ([], rest)
unfolding exponent
exponent_none [] h = refl
exponent_none (c ∷ cs) h =
    let e : (c == 101) ≡ false = ground arith in
    let e' : (c == 69) ≡ false = ground arith in rw (e, e') refl

module _ (from_chars : Bytes → Option ℕ) (d : ℕ) (ds rest : Bytes) (all : All IsDigit (d ∷ ds))
    (ends : EndsNumber rest) where
  digits_lem : digits (d ∷ (ds ++ rest)) ≡ some (d ∷ ds, rest)
  unfolding digits
  digits_lem = ap found (match_digits-append (d ∷ ds) rest all ends)

  no_sign : sign (d ∷ (ds ++ rest)) ≡ some ([], d ∷ (ds ++ rest))
  unfolding sign match_char
  no_sign = let other : (d == 45) ≡ false = ground arith in rw (other, sign, match_char) refl

  no_more : next_part (fraction rest) exponent ≡ some ([], rest)
  unfolding next_part
  no_more = rw (fraction_none rest ends, next_part, exponent_none rest ends) refl

  unsigned : next_part (sign (d ∷ (ds ++ rest))) digits ≡ some (d ∷ ds, rest)
  unfolding next_part
  unsigned = rw (no_sign, next_part, digits_lem) refl

  signed : next_part (sign (45 ∷ (d ∷ (ds ++ rest)))) digits ≡ some (45 ∷ (d ∷ ds), rest)
  unfolding next_part sign match_char
  signed = rw (digits_lem, next_part) refl

  positive_lem :
      digits_value 0 (d ∷ ds) < 2 ^ 63
      → length ds ≤ 20
      → push_json_number from_chars (d ∷ (ds ++ rest))
        ≡ some (push_int (pos (digits_value 0 (d ∷ ds))), rest)
  unfolding push_json_number push_number from_chars_int digits_value
  positive_lem small short =
      let other : (d == 45) ≡ false = ground arith in
      let fits : ltb 64 (suc (length ds)) ≡ false = ground arith in
      let in_range : ltb (digits_value 0 (d ∷ ds)) (2 ^ 63) ≡ true = ground arith in
      rw (unsigned, push_json_number, no_more) (rw (fits, other, in_range) refl)

  negative_lem :
      digits_value 0 (d ∷ ds) ≤ 2 ^ 63
      → length ds ≤ 20
      → push_json_number from_chars (45 ∷ (d ∷ (ds ++ rest)))
        ≡ some (push_int (negated (digits_value 0 (d ∷ ds))), rest)
  unfolding push_json_number push_number from_chars_int digits_value
  negative_lem small short =
      let fits : ltb 64 (suc (suc (length ds))) ≡ false = ground arith in
      let in_range : leb (digits_value 0 (d ∷ ds)) (2 ^ 63) ≡ true = ground arith in
      rw (signed, push_json_number, no_more) (rw (fits, in_range) refl)

-- A number of int64_t that is not negative.
pub push_json_number-decimal :
    (from_chars : Bytes → Option ℕ) (n : ℕ) (rest : Bytes)
    → n < 2 ^ 63
    → EndsNumber rest
    → push_json_number from_chars (decimal n ++ rest) ≡ some (push_uint n, rest)
unfolding push_uint push_int
push_json_number-decimal from_chars n rest h ends =
    let (d, ds, e) = decimal-cons n in
    let value : digits_value 0 (d ∷ ds) ≡ n =
      ap (digits_value 0) (sym e) ∙ digits_value-decimal n in
    ap (λ s. push_json_number from_chars (s ++ rest)) e
    ∙ positive_lem from_chars d ds rest (subst (All IsDigit) e (decimal-IsDigit n)) ends
        (omega (arith, value)) (omega (arith, ap length e, length-decimal n (omega arith)))
    ∙ ap (λ m. some (push_int (pos m), rest)) value

-- A negative one.
pub push_json_number-negative :
    (from_chars : Bytes → Option ℕ) (n : ℕ) (rest : Bytes)
    → n < 2 ^ 63
    → EndsNumber rest
    → push_json_number from_chars (45 ∷ (decimal (suc n) ++ rest))
      ≡ some (push_int (negsuc n), rest)
push_json_number-negative from_chars n rest h ends =
    let (d, ds, e) = decimal-cons (suc n) in
    let value : digits_value 0 (d ∷ ds) ≡ suc n =
      ap (digits_value 0) (sym e) ∙ digits_value-decimal (suc n) in
    ap (λ s. push_json_number from_chars (45 ∷ (s ++ rest))) e
    ∙ negative_lem from_chars d ds rest (subst (All IsDigit) e (decimal-IsDigit (suc n))) ends
        (omega (arith, value)) (omega (arith, ap length e, length-decimal (suc n) (omega arith)))
    ∙ ap (λ m. some (push_int (negated m), rest)) value
