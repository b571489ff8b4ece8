-- ===== src/Hub/Range.antt =====
-- `for (const auto val : r) msgs.insert(string(val))`: the walk over a range of the buffer, by
-- `value_iterator` and `value_accessor` of include/cbor/cbor.hpp and src/cbor.cpp.
use thespian.Prelude.{ℕ, zero, suc, List, [], ◌∷◌, Option, none, some}
use thespian.Cbor.Result.{Bytes, Error, Result, ok, err, out_of_fuel}
use thespian.Cbor.Decode.{decode_range_header}
use thespian.Cbor.Scalar.{match_string}
use thespian.Cbor.Skip.{match_type}

-- What user code throws here: an error of the decoders, or `out_of_range` where bytes are left
-- behind the last element.
pub data Exception : Type 0 where
  domain_error : Error → Exception
  out_of_range : Exception

-- A computation that can throw; `stuck` is the `out_of_fuel` of the decoders.
pub data Walk {ℓ} (A : Type ℓ) : Type ℓ where
  done : A → Walk A
  throws : Exception → Walk A
  stuck : Walk A

abbrev pub lift {ℓ} : {A : Type ℓ} → Result A → Walk A
lift (ok a) = done a
lift (err e) = throws (domain_error e)
lift out_of_fuel = stuck

infixl 5 ◌>>=◌
abbrev pub ◌>>=◌ {ℓ κ} : {A : Type ℓ} {B : Type κ} → Walk A → (A → Walk B) → Walk B
done a >>= f = f a
throws t >>= f = throws t
stuck >>= f = stuck

-- `value_accessor::operator string_view`: `get` hands over an empty view where `extract` fails.
abbrev string_or_empty : Option Bytes → Bytes
string_or_empty none = []
string_or_empty (some s) = s

unfoldable pub accessor_string : Bytes → Walk Bytes
accessor_string b = do (s, _) ← lift (match_string b); done (string_or_empty s)

-- The loop from an iterator at `b` with `n` elements to come: it ends when `b` is at the end.
unfoldable pub walk : ℕ → Bytes → Walk (List Bytes)
unfolding accessor_string
walk n [] = done []
walk zero (b ∷ bs) = throws out_of_range
walk (suc n) (b ∷ bs) = do
  s ← accessor_string (b ∷ bs)
  (_, rest) ← lift (match_type (b ∷ bs))
  ss ← walk n rest
  done (s ∷ ss)

-- `begin()` of the range, and the loop.
unfoldable pub range_strings : Bytes → Walk (List Bytes)
unfolding walk
range_strings r = do (n, b) ← lift (decode_range_header r); walk n b
