-- ===== src/Debug/Fields.antt =====
-- The fields of a JSON command of a debug connection: `value_type`, `get_fields`, `require`,
-- `require_string` and `optional_int` of src/instance.cpp.
use thespian.Prelude.{
  ℕ, zero, suc, List, [], ◌∷◌, ◌++◌, Option, none, some, if◌then◌else◌, bytes_eq, length, take, ◌-◌,
}
use thespian.Prelude.Int.{ℤ}
use thespian.Prelude.Text.{codes}
use thespian.Cbor.Kind.{Kind, kind_eq}
use thespian.Cbor.Result.{Bytes, Result, ok, err, out_of_fuel}
use thespian.Cbor.Decode.{decode_range_header}
use thespian.Cbor.Scalar.{match_int, match_string}
use thespian.Cbor.Skip.{match_type}
use thespian.Actor.Messages.{what}

-- What is thrown: a `domain_error` with its text, or the `out_of_range` of an iterator, which no handler
-- of the connection catches. `stuck` is the `out_of_fuel` of the decoders.
pub data Attempt {ℓ} (A : Type ℓ) : Type ℓ where
  done : A → Attempt A
  domain_error : Bytes → Attempt A
  out_of_range : Attempt A
  stuck : Attempt A

abbrev pub lift {ℓ} : {A : Type ℓ} → Result A → Attempt A
lift (ok a) = done a
lift (err e) = domain_error (what e)
lift out_of_fuel = stuck

infixl 5 ◌>>=◌
abbrev pub ◌>>=◌ {ℓ κ} : {A : Type ℓ} {B : Type κ} → Attempt A → (A → Attempt B) → Attempt B
done a >>= f = f a
domain_error w >>= f = domain_error w
out_of_range >>= f = out_of_range
stuck >>= f = stuck

abbrev kind_or_unknown : Option Kind → Kind
kind_or_unknown none = Kind.unknown
kind_or_unknown (some k) = k

unfoldable pub value_type : Bytes → Attempt Kind
value_type b = do (k, _) ← lift (match_type b); done (kind_or_unknown k)

abbrev string_or_empty : Option Bytes → Bytes
string_or_empty none = []
string_or_empty (some s) = s

unfoldable pub string_of : Bytes → Attempt Bytes
string_of b = do (s, _) ← lift (match_string b); done (string_or_empty s)

-- `++it`, for an iterator with `n` elements to come.
unfoldable pub increment : ℕ → Bytes → Attempt (ℕ × Bytes)
increment zero b = done (0, b)
increment (suc n) b = do (_, rest) ← lift (match_type b); done (n, rest)

abbrev pub Fields : Type 0
Fields = List (Bytes × Bytes)

unfoldable pub find : Bytes → Fields → Option Bytes
find k [] = none
find k ((j, v) ∷ fs) = let rest = find k fs in if bytes_eq j k then some v else rest

-- `*it` on the end of the range throws.
unfoldable pub key_of : ℕ → Bytes → Attempt Bytes
unfolding value_type string_of
key_of zero b = out_of_range
key_of (suc n) b = do
  t ← value_type b
  if kind_eq t Kind.string then string_of b else domain_error (codes "command keys must be strings")

-- The loop of `get_fields` from an iterator at `b` with `n` elements to come. A key with no value behind
-- it is dropped, and the last value of a key stands first. Each round takes a byte at least, so the
-- bytes are enough rounds.
unfoldable pub fields_from : ℕ → ℕ → Bytes → Fields → Attempt Fields
unfolding key_of increment
fields_from zero n b fs = stuck
fields_from (suc f) n [] fs = done fs
fields_from (suc f) n (x ∷ xs) fs = do
  k ← key_of n (x ∷ xs)
  (n₁, vb) ← increment n (x ∷ xs)
  let value = do
    (n₂, rest) ← increment n₁ vb
    fields_from f n₂ rest ((k, take (length vb - length rest) vb) ∷ fs)
  elim vb [ [] ↦ done fs | _ ∷ _ ↦ value ]

unfoldable pub get_fields : Bytes → Attempt Fields
unfolding value_type fields_from
get_fields cmd = do
  t ← value_type cmd
  let walk = do (n, b) ← lift (decode_range_header cmd); fields_from (suc (length b)) n b []
  if kind_eq t Kind.map then walk else domain_error (codes "command must be a JSON object")

unfoldable pub require : Fields → Bytes → Attempt Bytes
unfolding find
require f k = elim (find k f) [
  | none ↦ domain_error (codes "missing field: " ++ k)
  | some v ↦ done v
]

unfoldable pub require_string : Fields → Bytes → Attempt Bytes
unfolding require value_type string_of
require_string f k = do
  v ← require f k
  t ← value_type v
  if kind_eq t Kind.string
      then string_of v
      else domain_error (codes "field must be a string: " ++ k)

-- `none` is a number that `static_cast<int64_t>` does not read, which leaves its result open.
unfoldable pub optional_int : Fields → Bytes → ℤ → Attempt (Option ℤ)
unfolding find value_type
optional_int f k def = elim (find k f) [
  | none ↦ done (some def)
  | some v ↦ value_type v >>= λ t.
      if kind_eq t Kind.number
      then (lift (match_int v) >>= λ r. done (r.0))
      else domain_error (codes "field must be a number: " ++ k)
]
