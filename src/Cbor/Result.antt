-- ===== src/Cbor/Result.antt =====
-- The outcome of a decoder. A `domain_error` that the source throws is an `err`, with a constructor
-- for each message; `out_of_fuel` has no counterpart in the program.
use thespian.Prelude.{ℕ, List}

abbrev pub Bytes : Type 0
Bytes = List ℕ

pub data Error : Type 0 where
  too_short : Error
  invalid_integer_type : Error
  invalid_float_type : Error
  expected_array_or_map : Error
  expected_array : Error
  expected_map : Error
  unsupported_type_tag : Error
  unsupported_type_unknown : Error
  unsupported_simple_value : Error

pub data Result {ℓ} (A : Type ℓ) : Type ℓ where
  ok : A → Result A
  err : Error → Result A
  out_of_fuel : Result A

infixl 5 ◌>>=◌
abbrev pub ◌>>=◌ {ℓ κ} : {A : Type ℓ} {B : Type κ} → Result A → (A → Result B) → Result B
ok a >>= f = f a
err e >>= f = err e
out_of_fuel >>= f = out_of_fuel

-- A decoder takes the bytes from the iterator `b` up to the end `e`, and gives back its value with
-- the bytes from the new place of `b` on.
abbrev pub Decoder {ℓ} : Type ℓ → Type ℓ
Decoder A = Bytes → Result (A × Bytes)
