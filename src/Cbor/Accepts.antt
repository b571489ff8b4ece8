-- ===== src/Cbor/Accepts.antt =====
-- What a match promises, stated on the values that a sender pushed and not on bytes: which values a
-- pattern accepts, what its extractors yield, and which patterns throw.
use thespian.Prelude.{
  ℕ, ◌^◌, Bool, true, false, [], ltb, ◌==◌, if◌then◌else◌, Option, none, some, bytes_eq,
}
use thespian.Prelude.Int.{ℤ, pos, negsuc, int_eq}
use thespian.Cbor.Result.{Bytes, expected_array, expected_map, Result, ok, err, ◌>>=◌}
use thespian.Cbor.Scalar.{Floating, of_uint, of_int, single}
use thespian.Cbor.Scalar
use thespian.Cbor.Value
use thespian.Cbor.Value.{Value, Values, nil, cons, push_value}
use thespian.Cbor.Match.{
  Extracted, Matched, Pattern, Patterns, is, signed, unsigned, boolean, str, extract_kind,
  extract_int, extract_uint, extract_bool, extract_float, extract_string, extract_range, A, M, last,
  next, is_more, fits_int, fits_uint, keep, accept_kind, is_range, always, join,
}
use mathlib.Core.List.{◌∷◌}

-- The number that a value holds, for a reader of int64_t, and for one of uint64_t.
unfoldable pub int_of : Value → Option ℤ
int_of (Value.uint n) = if ltb n (2 ^ 63) then some (pos n) else none
int_of (Value.nint n) = some (negsuc n)
int_of _ = none

unfoldable pub uint_of : Value → Option ℕ
uint_of (Value.uint n) = some n
uint_of _ = none

unfoldable pub bool_of : Value → Option Bool
bool_of (Value.bool b) = some b
bool_of _ = none

unfoldable pub text_of : Value → Option Bytes
text_of (Value.text s) = some s
text_of _ = none

unfoldable pub float_of : Value → Option Floating
float_of (Value.uint n) = some (of_uint n)
float_of (Value.nint n) = some (of_int (negsuc n))
float_of (Value.float bits) = some (single bits)
float_of (Value.double bits) = some (Scalar.double bits)
float_of _ = none

-- The elements that A and M look at. A null counts as an empty array and as an empty map.
unfoldable pub elements : Value → Result Values
elements (Value.array vs) = ok vs
elements Value.null = ok nil
elements _ = err expected_array

unfoldable pub pairs : Value → Result Values
pairs (Value.map vs) = ok vs
pairs Value.null = ok nil
pairs _ = err expected_map

unfoldable pub accepts_scalar : Pattern → Value → Matched
accepts_scalar (is t) v = keep (accept_kind t) (λ _. []) (some (Value.kind v))
accepts_scalar (signed lit) v = keep (λ z. int_eq z lit) (λ _. []) (int_of v)
accepts_scalar (unsigned lit) v = keep (λ n. n == lit) (λ _. []) (uint_of v)
accepts_scalar (boolean lit) v =
    keep (λ b. if b then lit else if lit then false else true) (λ _. []) (bool_of v)
accepts_scalar (str lit) v = keep (λ s. bytes_eq s lit) (λ _. []) (text_of v)
accepts_scalar extract_kind v = some (Extracted.kind (Value.kind v) ∷ [])
accepts_scalar (extract_int w) v = keep (fits_int w) (λ z. Extracted.int z ∷ []) (int_of v)
accepts_scalar (extract_uint w) v = keep (fits_uint w) (λ n. Extracted.uint n ∷ []) (uint_of v)
accepts_scalar extract_bool v = keep always (λ b. Extracted.bool b ∷ []) (bool_of v)
accepts_scalar extract_float v = keep always (λ x. Extracted.float x ∷ []) (float_of v)
accepts_scalar extract_string v = keep always (λ s. Extracted.text s ∷ []) (text_of v)
accepts_scalar extract_range v =
    keep is_range (λ _. Extracted.range (push_value v) ∷ []) (some (Value.kind v))
accepts_scalar _ v = none

unfoldable mutual
  pub accepts : Pattern → Value → Result Matched
  accepts (A ps) v = elements v >>= λ vs. accepts_all ps vs
  accepts (M ps) v = pairs v >>= λ vs. accepts_all ps vs
  accepts p v = ok (accepts_scalar p v)

  -- The parameters against the elements, one by one; a last `more` takes all that are left.
  pub accepts_all : Patterns → Values → Result Matched
  accepts_all (last p) nil = ok (if is_more p then some [] else none)
  accepts_all (last p) (cons v nil) = if is_more p then ok (some []) else accepts p v
  accepts_all (last p) (cons v (cons w vs)) =
      if is_more p then ok (some []) else (accepts p v >>= λ _. ok none)
  accepts_all (next p ps) nil = ok none
  accepts_all (next p ps) (cons v vs) = accepts p v >>= λ r. elim r [
    | none ↦ ok none
    | some xs ↦ accepts_all ps vs >>= λ r'. ok (join xs r')
  ]
