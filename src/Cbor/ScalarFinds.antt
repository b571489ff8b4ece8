-- ===== src/Cbor/ScalarFinds.antt =====
-- The scalar matchers on what a push wrote.
use thespian.Prelude.{
  ◌-◌, ◌≤◌, ℕ, ◌^◌, ◌<◌, ◌≡◌, true, false, ◌++◌, length, append_assoc, Option, none, some, arith,
}
use thespian.Prelude.Int.{pos, negsuc, to_int64}
use thespian.Cbor.Result.{Bytes, Result, ok, err, out_of_fuel}
use thespian.Cbor.Head.{
  argument, minor_of, decode_pint-argument, decode_pint-float, decode_pint-double,
}
use thespian.Cbor.Buffer.{push_bits, push_typed_val}
use thespian.Cbor.Decode.{
  decode_pint, decode_nint, decode_string, decode_int_length, negate_plus_one, is_float_type,
}
use thespian.Cbor.SkipValue.{decode_type-push, advance-append}
use thespian.Cbor.PushSkip.{head_of, body_of, decode_type-push_value}
use thespian.Cbor.Scalar.{
  match_uint, match_int, match_bool, match_string, match_float, non_negative, decode_float,
  Floating,
}
use thespian.Cbor.Value.{Value, uint, nint, text, bool, float, double, push_value, IsValid}
use thespian.Cbor.Accepts.{int_of, uint_of, bool_of, text_of, float_of}

-- A matcher meets its specification: it throws where that does; where that finds nothing it returns
-- false; where that finds a value it finds the same, and has passed exactly over what was pushed.
abbrev pub Finds {ℓ} : {X : Type ℓ} → Result (Option X) → Result (Option X × Bytes) → Bytes → Type ℓ
Finds (ok none) m rest = (r : Bytes) × (m ≡ ok (none, r))
Finds (ok (some x)) m rest = m ≡ ok (some x, rest)
Finds (err e) m rest = m ≡ err e
Finds out_of_fuel m rest = m ≡ out_of_fuel

pub match_uint-Finds :
    (v : Value) (rest : Bytes)
    → IsValid v
    → Finds (ok (uint_of v)) (match_uint (push_value v ++ rest)) rest
unfolding match_uint uint_of head_of body_of
match_uint-Finds (uint n) rest h =
    rw (decode_type-push_value (uint n) rest h, decode_pint-argument n rest h)
match_uint-Finds (bool true) rest h = (rest, rw (decode_type-push_value (bool true) rest h))
match_uint-Finds (bool false) rest h = (rest, rw (decode_type-push_value (bool false) rest h))
match_uint-Finds v rest h = (body_of v ++ rest, rw (decode_type-push_value v rest h))

pub match_bool-Finds :
    (v : Value) (rest : Bytes)
    → IsValid v
    → Finds (ok (bool_of v)) (match_bool (push_value v ++ rest)) rest
unfolding match_bool bool_of head_of body_of
match_bool-Finds (bool true) rest h = rw (decode_type-push_value (bool true) rest h)
match_bool-Finds (bool false) rest h = rw (decode_type-push_value (bool false) rest h)
match_bool-Finds v rest h = (body_of v ++ rest, rw (decode_type-push_value v rest h))

pub match_string-Finds :
    (v : Value) (rest : Bytes)
    → IsValid v
    → Finds (ok (text_of v)) (match_string (push_value v ++ rest)) rest
unfolding match_string text_of head_of body_of decode_string
match_string-Finds (text s) rest h = rw (
  decode_type-push_value (text s) rest h,
  append_assoc,
  decode_pint-argument (length s) (s ++ rest) h.0,
  advance-append s rest,
)
match_string-Finds (bool true) rest h = (rest, rw (decode_type-push_value (bool true) rest h))
match_string-Finds (bool false) rest h = (rest, rw (decode_type-push_value (bool false) rest h))
match_string-Finds v rest h = (body_of v ++ rest, rw (decode_type-push_value v rest h))

-- Negating twice: what `push_int` writes of -(n + 1) is read back as that.
to_int64-negate : (n : ℕ) → n < 2 ^ 63 → to_int64 (negate_plus_one n) ≡ negsuc n
unfolding to_int64 negate_plus_one
to_int64-negate n h = ground arith

pub decode_nint-argument :
    (n : ℕ) (rest : Bytes)
    → n < 2 ^ 63
    → decode_nint (minor_of n) (argument n ++ rest) ≡ ok (negsuc n, rest)
decode_nint-argument n rest h =
    unfold decode_nint in rw (decode_pint-argument n rest (omega arith), to_int64-negate n h)

match_int-uint :
    (n : ℕ) (rest : Bytes)
    → IsValid (uint n)
    → match_int (push_value (uint n) ++ rest) ≡ ok (int_of (uint n), rest)
unfolding match_int int_of head_of body_of non_negative to_int64
match_int-uint n rest h =
    rw (decode_type-push_value (uint n) rest h, decode_pint-argument n rest h) (ground arith)

pub Finds-place {ℓ} :
    {X : Type ℓ} (o : Option X) {m : Result (Option X × Bytes)} {rest : Bytes}
    → m ≡ ok (o, rest)
    → Finds (ok o) m rest
Finds-place none e = (_, e)
Finds-place (some x) e = e

pub match_int-Finds :
    (v : Value) (rest : Bytes)
    → IsValid v
    → Finds (ok (int_of v)) (match_int (push_value v ++ rest)) rest
unfolding match_int int_of head_of body_of
match_int-Finds (uint n) rest h = Finds-place (int_of (uint n)) (match_int-uint n rest h)
match_int-Finds (nint n) rest h =
    rw (decode_type-push_value (nint n) rest h, decode_nint-argument n rest h)
match_int-Finds (bool true) rest h = (rest, rw (decode_type-push_value (bool true) rest h))
match_int-Finds (bool false) rest h = (rest, rw (decode_type-push_value (bool false) rest h))
match_int-Finds v rest h = (body_of v ++ rest, rw (decode_type-push_value v rest h))

pub decode_float-single :
    (bits : ℕ) (rest : Bytes)
    → bits < 2 ^ 32
    → decode_float 0xfa (push_bits 3 bits ++ rest) ≡ ok (Floating.single bits, rest)
unfolding decode_float
decode_float-single bits rest h =
    let read : decode_int_length 4 (push_bits 3 bits ++ rest) ≡ ok (bits, rest) =
      unfold decode_pint in decode_pint-float bits rest h in
    rw read

pub decode_float-double :
    (bits : ℕ) (rest : Bytes)
    → bits < 2 ^ 64
    → decode_float 0xfb (push_bits 7 bits ++ rest) ≡ ok (Floating.double bits, rest)
unfolding decode_float
decode_float-double bits rest h =
    let read : decode_int_length 8 (push_bits 7 bits ++ rest) ≡ ok (bits, rest) =
      unfold decode_pint in decode_pint-double bits rest h in
    rw read

pub match_float-Finds :
    (v : Value) (rest : Bytes)
    → IsValid v
    → Finds (ok (float_of v)) (match_float (push_value v ++ rest)) rest
unfolding match_float float_of head_of body_of is_float_type
match_float-Finds (uint n) rest h =
    rw (decode_type-push_value (uint n) rest h, decode_pint-argument n rest h)
match_float-Finds (nint n) rest h =
    rw (decode_type-push_value (nint n) rest h, decode_nint-argument n rest h)
match_float-Finds (float bits) rest h =
    rw (decode_type-push_value (float bits) rest h, decode_float-single bits rest h)
match_float-Finds (double bits) rest h =
    rw (decode_type-push_value (double bits) rest h, decode_float-double bits rest h)
match_float-Finds (bool true) rest h = (rest, rw (decode_type-push_value (bool true) rest h))
match_float-Finds (bool false) rest h = (rest, rw (decode_type-push_value (bool false) rest h))
match_float-Finds v rest h = (body_of v ++ rest, rw (decode_type-push_value v rest h))

-- A negative number below the range of int64_t is read as a number that is not negative: the head
-- of -(n + 1) with n from 2 ^ 63 on, which other encoders write, yields 2 ^ 64 - 1 - n.
pub match_int_wraps :
    (n : ℕ) (rest : Bytes)
    → 2 ^ 63 ≤ n
    → n < 2 ^ 64
    → match_int (push_typed_val 1 n ++ rest) ≡ ok (some (pos (2 ^ 64 - 1 - n)), rest)
unfolding match_int decode_nint
match_int_wraps n rest lo hi =
    let wrapped : to_int64 (negate_plus_one n) ≡ pos (2 ^ 64 - 1 - n) =
      unfold to_int64 negate_plus_one in ground arith in
    rw (decode_type-push 1 n rest (omega arith) hi, decode_pint-argument n rest hi, wrapped)
