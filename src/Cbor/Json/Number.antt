-- ===== src/Cbor/Json/Number.antt =====
-- The numbers of `push_json` (`push_json_number`, src/cbor.cpp), and a number in decimal as
-- `std::ostream` writes it and as `std::from_chars` reads it.
use thespian.Prelude.{
  ℕ, zero, suc, ◌+◌, ◌-◌, ◌*◌, ◌/◌, ◌%◌, ◌^◌, Bool, true, false, ◌||◌, [], ◌∷◌, ◌++◌, Option, none,
  some, ltb, leb, ◌==◌, if◌then◌else◌, length,
}
use thespian.Prelude.Int.{ℤ, pos, negsuc}
use thespian.Cbor.Result.{Bytes}
use thespian.Cbor.Buffer.{push_int, push_double}
use thespian.Cbor.Json.{match_char, match_digits}

-- The value of a string of digits.
unfoldable pub digits_value : ℕ → Bytes → ℕ
digits_value n [] = n
digits_value n (c ∷ cs) = digits_value (n * 10 + (c - 48)) cs

abbrev pub negated : ℕ → ℤ
negated zero = pos 0
negated (suc n) = negsuc n

-- `std::from_chars` for an int64_t, of a string of digits that may have a sign: `none` where the number
-- is out of range.
unfoldable pub from_chars_int : Bytes → Option ℤ
unfolding digits_value
from_chars_int [] = none
from_chars_int (c ∷ cs) =
    let n = digits_value 0 cs in
    let m = digits_value 0 (c ∷ cs) in
    if c == 45
    then (if leb n (2 ^ 63) then some (negated n) else none)
    else (if ltb m (2 ^ 63) then some (pos m) else none)

-- A number as `<<` writes it; the fuel is `n`, which is enough as a tenth of it is less.
unfoldable pub decimal_of : ℕ → ℕ → Bytes
decimal_of zero n = (48 + n % 10) ∷ []
decimal_of (suc f) n = elim (ltb n 10) [
  | true ↦ (48 + n % 10) ∷ []
  | false ↦ decimal_of f (n / 10) ++ ((48 + n % 10) ∷ [])
]

unfoldable pub decimal : ℕ → Bytes
unfolding decimal_of
decimal n = decimal_of n n

abbrev pub number_str_max : ℕ
number_str_max = 64

abbrev pub Scanned : Type 0
Scanned = Option (Bytes × Bytes)

-- What comes next, if nothing has failed yet: the characters of it are added to those before it.
unfoldable pub next_part : Scanned → (Bytes → Scanned) → Scanned
next_part none f = none
next_part (some (s, bs)) f = elim (f bs) [ none ↦ none | some (t, rest) ↦ some (s ++ t, rest) ]

-- A call of `match_digits`, which fails where there is no digit.
abbrev pub found : Bytes × Bytes → Scanned
found ([], rest) = none
found (d ∷ ds, rest) = some (d ∷ ds, rest)

unfoldable pub digits : Bytes → Scanned
unfolding match_digits
digits bs = found (match_digits bs)

unfoldable pub sign : Bytes → Scanned
unfolding match_char
sign bs = elim (match_char 45 bs) [ none ↦ some ([], bs) | some cs ↦ some (45 ∷ [], cs) ]

unfoldable pub fraction : Bytes → Scanned
unfolding next_part digits
fraction [] = some ([], [])
fraction (c ∷ cs) = if c == 46 then next_part (some (46 ∷ [], cs)) digits else some ([], c ∷ cs)

unfoldable pub exponent_sign : Bytes → Scanned
exponent_sign [] = some ([], [])
exponent_sign (c ∷ cs) = if c == 43 || c == 45 then some (c ∷ [], cs) else some ([], c ∷ cs)

unfoldable pub exponent : Bytes → Scanned
unfolding next_part digits exponent_sign
exponent [] = some ([], [])
exponent (c ∷ cs) =
    if c == 101 || c == 69
    then next_part (next_part (some (101 ∷ [], cs)) exponent_sign) digits
    else some ([], c ∷ cs)

-- The last part: the characters are read as a double where they have a fraction or an exponent.
unfoldable pub push_number : (Bytes → Option ℕ) → Bool → Bytes → Bytes → Scanned
unfolding from_chars_int
push_number from_chars true s rest =
    if ltb number_str_max (length s)
    then none
    else elim (from_chars s) [ none ↦ none | some bits ↦ some (push_double bits, rest) ]
push_number from_chars false s rest =
    if ltb number_str_max (length s)
    then none
    else elim (from_chars_int s) [ none ↦ none | some i ↦ some (push_int i, rest) ]

-- `from_chars` is the one of the standard library for a double: its bits, where it takes the whole
-- string.
unfoldable pub push_json_number : (Bytes → Option ℕ) → Bytes → Scanned
unfolding next_part sign digits fraction exponent push_number
push_json_number from_chars bs = elim (next_part (sign bs) digits) [
  | none ↦ none
  | some (i, rest) ↦ elim (next_part (fraction rest) exponent) [
    | none ↦ none
    | some ([], rest') ↦ push_number from_chars false i rest'
    | some (c ∷ cs, rest') ↦ push_number from_chars true (i ++ (c ∷ cs)) rest'
  ]
]
