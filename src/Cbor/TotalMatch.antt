-- ===== src/Cbor/TotalMatch.antt =====
-- The matchers on any bytes: they never run out of the fuel of `match_type`, and never move back.
use thespian.Prelude.{
  ℕ, zero, suc, ◌-◌, ◌*◌, ◌%◌, ◌^◌, ◌≤◌, ◌≢◌, Bool, false, [], ◌∷◌, length, none, some, arith, ◌==◌,
}
use thespian.Cbor.Result.{Bytes, Result, ok, err, out_of_fuel, ◌>>=◌, Decoder}
use thespian.Cbor.Decode.{
  decode_int_length, decode_pint, decode_nint, decode_string, decode_bytes, decode_type,
  decode_array_header, decode_map_header, is_float_type,
}
use thespian.Cbor.Scalar.{
  match_uint, match_int, match_bool, match_string, match_float, decode_float,
}
use thespian.Cbor.Kind.{Kind}
use thespian.Cbor.Skip.{match_type}
use thespian.Cbor.Match.{
  Matched, Pattern, Patterns, is, signed, unsigned, boolean, str, extract_kind, extract_int,
  extract_uint, extract_bool, extract_float, extract_string, extract_range, A, M, last, next,
  is_more, match_scalar, match_more, match_value, match_next, match_message, join,
}
use thespian.Cbor.Total.{
  Leaves, Leaves-mono, Leaves-if, Leaves-bind, decode_pint-Leaves, decode_nint-Leaves,
  decode_string-Leaves, match_type-Leaves, recurse-Leaves,
}

decode_type-Leaves : (bs : Bytes) → Leaves (length bs) (decode_type bs)
unfolding decode_type
decode_type-Leaves [] = tt
decode_type-Leaves (b ∷ bs) = omega arith

-- Store a number or a text that was read behind the head.
stored {ℓ κ} :
    {X : Type ℓ} {Y : Type κ} (n : ℕ) (d : Decoder X) (f : X → Y) (bs : Bytes)
    → Leaves (length bs) (d bs)
    → length bs ≤ n
    → Leaves n (d bs >>= λ (x, rest). ok (f x, rest))
stored n d f bs h l = Leaves-bind (length bs) n (d bs) _ h (λ x rest k. omega arith)

match_uint-Leaves : (bs : Bytes) → Leaves (length bs) (match_uint bs)
unfolding match_uint
match_uint-Leaves bs = Leaves-bind _ _ (decode_type bs) _ (decode_type-Leaves bs) λ h rest l.
    Leaves-if (h.major == 0) _ _ _
      (stored _ (decode_pint h.minor) some rest (decode_pint-Leaves h.minor rest) l) l

match_int-Leaves : (bs : Bytes) → Leaves (length bs) (match_int bs)
unfolding match_int
match_int-Leaves bs = Leaves-bind _ _ (decode_type bs) _ (decode_type-Leaves bs) λ h rest l.
    Leaves-if (h.major == 0) _ _ _
      (stored _ (decode_pint h.minor) _ rest (decode_pint-Leaves h.minor rest) l)
      (Leaves-if (h.major == 1) _ _ _
        (stored _ (decode_nint h.minor) some rest (decode_nint-Leaves h.minor rest) l) l)

match_bool-Leaves : (bs : Bytes) → Leaves (length bs) (match_bool bs)
unfolding match_bool
match_bool-Leaves bs = Leaves-bind _ _ (decode_type bs) _ (decode_type-Leaves bs) λ h rest l.
    Leaves-if (h.major == 7) _ _ _
      (Leaves-if (h.type == 0xf4) _ _ _ l (Leaves-if (h.type == 0xf5) _ _ _ l l)) l

match_string-Leaves : (bs : Bytes) → Leaves (length bs) (match_string bs)
unfolding match_string decode_bytes
match_string-Leaves bs = Leaves-bind _ _ (decode_type bs) _ (decode_type-Leaves bs) λ h rest l.
    let text = stored _ (decode_string h.minor) some rest (decode_string-Leaves h.minor rest) l in
    Leaves-if (h.major == 2) _ _ _ text (Leaves-if (h.major == 3) _ _ _ text l)

pub decode_float-Leaves : (type : ℕ) (bs : Bytes) → Leaves (length bs) (decode_float type bs)
unfolding decode_float decode_int_length
decode_float-Leaves type bs =
    Leaves-if (type == 0xf9) _ _ _ (Leaves-bind _ _ _ _ (recurse-Leaves 1 0 bs) (λ n rest h. h)) (
      Leaves-if (type == 0xfa) _ _ _ (Leaves-bind _ _ _ _ (recurse-Leaves 3 0 bs) (λ n rest h. h)) (
        Leaves-if (type == 0xfb) _ _ _ (Leaves-bind _ _ _ _ (recurse-Leaves 7 0 bs) (λ n rest h. h))
          tt))

match_float-Leaves : (bs : Bytes) → Leaves (length bs) (match_float bs)
unfolding match_float
match_float-Leaves bs = Leaves-bind _ _ (decode_type bs) _ (decode_type-Leaves bs) λ h rest l.
    Leaves-if (h.major == 0) _ _ _
      (stored _ (decode_pint h.minor) _ rest (decode_pint-Leaves h.minor rest) l)
      (Leaves-if (h.major == 1) _ _ _
        (stored _ (decode_nint h.minor) _ rest (decode_nint-Leaves h.minor rest) l)
        (Leaves-if (h.major == 7) _ _ _
          (Leaves-if (is_float_type h.type) _ _ _
            (stored _ (decode_float h.type) some rest (decode_float-Leaves h.type rest) l) l)
          l))

loose : (bs : Bytes) → Leaves (length bs) (match_type bs)
loose bs = Leaves-mono {m = length bs - 1} (match_type bs) (omega arith) (match_type-Leaves bs)

match_scalar-Leaves : (p : Pattern) (bs : Bytes) → Leaves (length bs) (match_scalar p bs)
unfolding match_scalar
match_scalar-Leaves (is t) bs = Leaves-bind _ _ _ _ (loose bs) (λ k rest h. h)
match_scalar-Leaves (signed lit) bs = Leaves-bind _ _ _ _ (match_int-Leaves bs) (λ k rest h. h)
match_scalar-Leaves (unsigned lit) bs = Leaves-bind _ _ _ _ (match_uint-Leaves bs) (λ k rest h. h)
match_scalar-Leaves (boolean lit) bs = Leaves-bind _ _ _ _ (match_bool-Leaves bs) (λ k rest h. h)
match_scalar-Leaves (str lit) bs = Leaves-bind _ _ _ _ (match_string-Leaves bs) (λ k rest h. h)
match_scalar-Leaves extract_kind bs = Leaves-bind _ _ _ _ (loose bs) (λ k rest h. h)
match_scalar-Leaves (extract_int w) bs = Leaves-bind _ _ _ _ (match_int-Leaves bs) (λ k rest h. h)
match_scalar-Leaves (extract_uint w) bs = Leaves-bind _ _ _ _ (match_uint-Leaves bs) (λ k rest h. h)
match_scalar-Leaves extract_bool bs = Leaves-bind _ _ _ _ (match_bool-Leaves bs) (λ k rest h. h)
match_scalar-Leaves extract_float bs = Leaves-bind _ _ _ _ (match_float-Leaves bs) (λ k rest h. h)
match_scalar-Leaves extract_string bs = Leaves-bind _ _ _ _ (match_string-Leaves bs) (λ k rest h. h)
match_scalar-Leaves extract_range bs = Leaves-bind _ _ _ _ (loose bs) (λ k rest h. h)
match_scalar-Leaves (A ps) bs = omega arith
match_scalar-Leaves (M ps) bs = omega arith

each-Leaves :
    (n : ℕ) (d : Decoder Bool) (k : Matched) (rest : Bytes)
    → Leaves (length rest) (d rest)
    → length rest ≤ n
    → Leaves n (elim k [ none ↦ ok (false, rest) | some _ ↦ d rest ])
each-Leaves n d none rest h l = l
each-Leaves n d (some _) rest h l = Leaves-mono {m = length rest} (d rest) l h

match_more-Leaves : (n : ℕ) (bs : Bytes) → Leaves (length bs) (match_more n bs)
unfolding match_more
match_more-Leaves zero bs = omega arith
match_more-Leaves (suc n) bs =
    Leaves-bind (length bs) _ _ _ (match_scalar-Leaves (is Kind.any) bs)
      λ k rest h. each-Leaves (length bs) (match_more n) k rest (match_more-Leaves n rest) h

array_header-Leaves : (bs : Bytes) → Leaves (length bs) (decode_array_header bs)
unfolding decode_array_header
array_header-Leaves bs = Leaves-bind _ _ (decode_type bs) _ (decode_type-Leaves bs) λ h rest l.
    Leaves-if (h.type == 0xf6) _ _ _ l (
      Leaves-if (h.major == 4) _ _ _
        (Leaves-mono (decode_pint h.minor rest) l (decode_pint-Leaves h.minor rest)) tt)

map_header-Leaves : (bs : Bytes) → Leaves (length bs) (decode_map_header bs)
unfolding decode_map_header
map_header-Leaves bs = Leaves-bind _ _ (decode_type bs) _ (decode_type-Leaves bs) λ h rest l.
    Leaves-if (h.type == 0xf6) _ _ _ l (
      Leaves-if (h.major == 5) _ _ _
        (Leaves-mono (decode_pint h.minor rest) l (decode_pint-Leaves h.minor rest)) tt)

-- After the first parameter: no match, or the other parameters on what is left.
then-Leaves :
    (n : ℕ) (k : Bytes → Result (Matched × Bytes)) (r : Matched) (rest : Bytes)
    → Leaves n (k rest)
    → length rest ≤ n
    → Leaves n (elim r [
      | none ↦ ok (none, rest)
      | some xs ↦ k rest >>= λ (r', rest'). ok (join xs r', rest')
    ])
then-Leaves n k none rest h l = l
then-Leaves n k (some xs) rest h l = Leaves-bind n n (k rest) _ h (λ r' rest' l'. l')

mutual
  unfolding match_value

  match_value-Leaves : (p : Pattern) (bs : Bytes) → Leaves (length bs) (match_value p bs)
  match_value-Leaves (A ps) bs = Leaves-bind (length bs) _ _ _ (array_header-Leaves bs) λ n rest h.
      Leaves-mono {m = length rest} (match_next ps n rest) h (match_next-Leaves ps n rest)
  match_value-Leaves (M ps) bs = Leaves-bind (length bs) _ _ _ (map_header-Leaves bs) λ n rest h.
      Leaves-mono {m = length rest} (match_next ps (n * 2 % 2 ^ 64) rest) h
        (match_next-Leaves ps (n * 2 % 2 ^ 64) rest)
  match_value-Leaves p bs = match_scalar-Leaves _ bs

  match_next-Leaves : (ps : Patterns) (n : ℕ) (bs : Bytes) → Leaves (length bs) (match_next ps n bs)
  match_next-Leaves (last p) n bs =
      Leaves-if (is_more p) _ _ _
        (Leaves-bind (length bs) _ (match_more n bs) _ (match_more-Leaves n bs) (λ d rest h. h))
        (Leaves-if (n == 0) _ _ _ (omega arith) (
          Leaves-bind (length bs) _ (match_value p bs) _ (match_value-Leaves p bs) (λ r rest h. h)))
  match_next-Leaves (next p ps) n bs = Leaves-if (n == 0) _ _ _ (omega arith) (
      Leaves-bind (length bs) _ (match_value p bs) _ (match_value-Leaves p bs) λ r rest h.
        then-Leaves (length bs) (match_next ps (n - 1)) r rest
          (Leaves-mono {m = length rest} (match_next ps (n - 1) rest) h
            (match_next-Leaves ps (n - 1) rest))
          h)

Leaves-ne-out_of_fuel :
    (n : ℕ) (r : Result (Matched × Bytes)) → Leaves n r → (r >>= λ (m, _). ok m) ≢ out_of_fuel
Leaves-ne-out_of_fuel n (ok (m, rest)) l = λ e. cc
Leaves-ne-out_of_fuel n (err x) l = λ e. cc
Leaves-ne-out_of_fuel n out_of_fuel l = absurd l

-- A match of any bytes against any parameters ends: it matches, it does not match, or it throws.
-- The fuel of the model never runs out.
pub match_message-ne-out_of_fuel : (ps : Patterns) (bs : Bytes) → match_message ps bs ≢ out_of_fuel
unfolding match_message
match_message-ne-out_of_fuel ps bs =
    Leaves-ne-out_of_fuel (length bs) (match_value (A ps) bs) (match_value-Leaves (A ps) bs)
