-- ===== src/Cbor/Match.antt =====
-- `match_value` and the extractors of src/cbor.cpp, and the templates of include/cbor/cbor.hpp that
-- combine them. A
-- matcher that returns false gives `none`, and the place where it left the iterator. The targets of
-- the extractors are collected, in the order of the parameters, when the whole match succeeds.
use thespian.Prelude.{
  ℕ, zero, suc, ◌-◌, ◌*◌, ◌%◌, ◌^◌, Bool, true, false, ◌||◌, List, [], ◌∷◌, ◌++◌, ltb, ◌==◌,
  if◌then◌else◌, length, take, Option, none, some, bytes_eq,
}
use thespian.Prelude.Int.{ℤ, pos, negsuc, int_eq}
use thespian.Cbor.Result.{Bytes, Result, ok, ◌>>=◌, Decoder}
use thespian.Cbor.Kind.{Kind, kind_eq}
use thespian.Cbor.Decode.{decode_array_header, decode_map_header}
use thespian.Cbor.Scalar.{Floating, match_uint, match_int, match_bool, match_string, match_float}
use thespian.Cbor.Skip.{match_type}

-- What an extractor stores.
pub data Extracted : Type 0 where
  kind : Kind → Extracted
  int : ℤ → Extracted
  uint : ℕ → Extracted
  bool : Bool → Extracted
  float : Floating → Extracted
  text : Bytes → Extracted
  range : Bytes → Extracted

abbrev pub Matched : Type 0
Matched = Option (List Extracted)

-- The parameters of a match: literals, extractors, and the combinators A and M. The numbers of
-- `extract_int` and `extract_uint` are the widths of their targets in bits.
mutual
  pub data Pattern : Type 0 where
    is : Kind → Pattern
    signed : ℤ → Pattern
    unsigned : ℕ → Pattern
    boolean : Bool → Pattern
    str : Bytes → Pattern
    extract_kind : Pattern
    extract_int : ℕ → Pattern
    extract_uint : ℕ → Pattern
    extract_bool : Pattern
    extract_float : Pattern
    extract_string : Pattern
    extract_range : Pattern
    A : Patterns → Pattern
    M : Patterns → Pattern

  pub data Patterns : Type 0 where
    last : Pattern → Patterns
    next : Pattern → Patterns → Patterns

unfoldable pub is_more : Pattern → Bool
is_more (is k) = kind_eq k Kind.more
is_more _ = false

-- `numeric_limits<T>::min()` to `max()` for a target of `w` bits.
unfoldable pub fits_int : ℕ → ℤ → Bool
fits_int w (pos n) = ltb n (2 ^ (w - 1))
fits_int w (negsuc n) = ltb n (2 ^ (w - 1))

unfoldable pub fits_uint : ℕ → ℕ → Bool
fits_uint w n = ltb n (2 ^ w)

-- Keep a match if a test on what was found passes; then store `f` of it.
abbrev pub keep {ℓ} : {X : Type ℓ} → (X → Bool) → (X → List Extracted) → Option X → Matched
keep test f none = none
keep test f (some x) = if test x then some (f x) else none

abbrev pub accept_kind : Kind → Kind → Bool
accept_kind t v = kind_eq t Kind.any || kind_eq t v

abbrev pub is_range : Kind → Bool
is_range v = kind_eq v Kind.null || (kind_eq v Kind.array || kind_eq v Kind.map)

-- The bytes that the iterator passed over.
abbrev pub passed : Bytes → Bytes → Bytes
passed bs rest = take (length bs - length rest) bs

abbrev pub always {ℓ} : {X : Type ℓ} → X → Bool
always x = true

-- The matchers of a literal or an extractor, by their parameter.
unfoldable pub match_scalar : Pattern → Decoder Matched
match_scalar (is t) bs = do (k, rest) ← match_type bs; ok (keep (accept_kind t) (λ _. []) k, rest)
match_scalar (signed lit) bs = do
  (z, rest) ← match_int bs
  ok (keep (λ v. int_eq v lit) (λ _. []) z, rest)
match_scalar (unsigned lit) bs = do
  (n, rest) ← match_uint bs
  ok (keep (λ v. v == lit) (λ _. []) n, rest)
match_scalar (boolean lit) bs = do
  (b, rest) ← match_bool bs
  ok (keep (λ v. if v then lit else if lit then false else true) (λ _. []) b, rest)
match_scalar (str lit) bs = do
  (s, rest) ← match_string bs
  ok (keep (λ v. bytes_eq v lit) (λ _. []) s, rest)
match_scalar extract_kind bs = do
  (k, rest) ← match_type bs
  ok (keep always (λ v. kind v ∷ []) k, rest)
match_scalar (extract_int w) bs = do
  (z, rest) ← match_int bs
  ok (keep (fits_int w) (λ v. int v ∷ []) z, rest)
match_scalar (extract_uint w) bs = do
  (n, rest) ← match_uint bs
  ok (keep (fits_uint w) (λ v. uint v ∷ []) n, rest)
match_scalar extract_bool bs = do
  (b, rest) ← match_bool bs
  ok (keep always (λ v. bool v ∷ []) b, rest)
match_scalar extract_float bs = do
  (x, rest) ← match_float bs
  ok (keep always (λ v. float v ∷ []) x, rest)
match_scalar extract_string bs = do
  (s, rest) ← match_string bs
  ok (keep always (λ v. text v ∷ []) s, rest)
match_scalar extract_range bs = do
  (k, rest) ← match_type bs
  ok (keep is_range (λ _. range (passed bs rest) ∷ []) k, rest)
match_scalar _ bs = ok (none, bs)

-- `while (n) { if (!match_value(b, e, any)) return false; --n; }`
unfoldable pub match_more : ℕ → Decoder Bool
match_more zero bs = ok (true, bs)
match_more (suc n) bs = do
  (k, rest) ← match_scalar (is Kind.any) bs
  elim k [ none ↦ ok (false, rest) | some _ ↦ match_more n rest ]

-- The result of the parameters after the first, joined to that of the first.
abbrev pub join : List Extracted → Matched → Matched
join xs none = none
join xs (some ys) = some (xs ++ ys)

abbrev pub if_all : Bool → Matched
if_all b = if b then some [] else none

unfoldable mutual
  pub match_value : Pattern → Decoder Matched
  match_value (A ps) bs = do (n, rest) ← decode_array_header bs; match_next ps n rest
  match_value (M ps) bs = do (n, rest) ← decode_map_header bs; match_next ps (n * 2 % 2 ^ 64) rest
  match_value p bs = match_scalar p bs

  pub match_next : Patterns → ℕ → Decoder Matched
  match_next (last p) n bs =
      let more = (do (done, rest) ← match_more n bs; ok (if_all done, rest)) in
      let one = do (r, rest) ← match_value p bs; ok (keep (λ _. n == 1) (λ xs. xs) r, rest)
      in if is_more p then more else if n == 0 then ok (none, bs) else one
  match_next (next p ps) n bs =
      let first = do
        (r, rest) ← match_value p bs
        elim r [
          | none ↦ ok (none, rest)
          | some xs ↦ do (r', rest') ← match_next ps (n - 1) rest; ok (join xs r', rest')
        ]
      in if n == 0 then ok (none, bs) else first

-- `buffer::operator()`: match the message as an array of the parameters.
unfoldable pub match_message : Patterns → Bytes → Result Matched
match_message ps bs = do (r, _) ← match_value (A ps) bs; ok r
