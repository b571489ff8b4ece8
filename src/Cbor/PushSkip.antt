-- ===== src/Cbor/PushSkip.antt =====
-- One value on the wire: its head, its body, and how far the skippers go over it.
use thespian.Prelude.{
  ℕ, zero, suc, ◌+◌, ◌*◌, ◌/◌, ◌%◌, ◌^◌, ◌<◌, ◌≤◌, ◌≡◌, refl, ap, true, false, [], ◌++◌, length,
  length-append, append_assoc, some, arith,
}
use thespian.Cbor.Result.{Bytes, ok}
use thespian.Cbor.Head.{
  argument, decode_pint-argument, decode_pint-float, decode_pint-double, push_typed_val_lem,
}
use thespian.Cbor.Buffer.{
  push_typed_val, push_bits, push_uint, push_int, push_string, push_null, push_bool, push_float,
  push_double, array_header, map_header,
}
use thespian.Cbor.Decode.{Head, decode_type}
use thespian.Cbor.Skip.{skip_loop, skip_value_type, skip_value, kind_of, match_type}
use thespian.Cbor.SkipValue.{
  head, decode_type-push, skip_pint-argument, skip_nint-argument, skip_string-argument,
}
use thespian.Cbor.Value.{
  Value, Values, uint, nint, text, bool, null, float, double, array, map, nil, cons, count,
  push_value, push_values, kind, IsValid, AreValid,
}

-- The head that `decode_type` reads of a pushed value.
unfoldable pub head_of : Value → Head
head_of (uint n) = head 0 n
head_of (nint n) = head 1 n
head_of (text s) = head 3 (length s)
head_of (bool true) = record { major = 7; minor = 21; type = 0xf5 }
head_of (bool false) = record { major = 7; minor = 20; type = 0xf4 }
head_of null = record { major = 7; minor = 22; type = 0xf6 }
head_of (float bits) = record { major = 7; minor = 26; type = 0xfa }
head_of (double bits) = record { major = 7; minor = 27; type = 0xfb }
head_of (array vs) = head 4 (count vs)
head_of (map vs) = head 5 (count vs / 2)

-- The bytes behind the first one.
unfoldable pub body_of : Value → Bytes
body_of (uint n) = argument n
body_of (nint n) = argument n
body_of (text s) = argument (length s) ++ s
body_of (bool b) = []
body_of null = []
body_of (float bits) = push_bits 3 bits
body_of (double bits) = push_bits 7 bits
body_of (array vs) = argument (count vs) ++ push_values vs
body_of (map vs) = argument (count vs / 2) ++ push_values vs

-- A pushed head with something behind it.
head_then :
    (t n : ℕ) (s rest : Bytes)
    → t < 8
    → n < 2 ^ 64
    → decode_type ((push_typed_val t n ++ s) ++ rest) ≡ ok (head t n, (argument n ++ s) ++ rest)
head_then t n s rest ht hn = simp append_assoc (decode_type-push t n (s ++ rest) ht hn)

pub decode_type-push_value :
    (v : Value) (rest : Bytes)
    → IsValid v
    → decode_type (push_value v ++ rest) ≡ ok (head_of v, body_of v ++ rest)
unfolding push_value head_of body_of push_uint push_int push_string push_null push_bool push_float
    push_double array_header map_header
decode_type-push_value (uint n) rest h = decode_type-push 0 n rest (omega arith) h
decode_type-push_value (nint n) rest h = decode_type-push 1 n rest (omega arith) (omega arith)
decode_type-push_value (text s) rest h = head_then 3 (length s) s rest (omega arith) h.0
decode_type-push_value (bool true) rest h = unfold decode_type in refl
decode_type-push_value (bool false) rest h = unfold decode_type in refl
decode_type-push_value null rest h = unfold decode_type in refl
decode_type-push_value (float bits) rest h = unfold decode_type in refl
decode_type-push_value (double bits) rest h = unfold decode_type in refl
decode_type-push_value (array vs) rest h = head_then 4 (count vs) _ rest (omega arith) h.0
decode_type-push_value (map vs) rest h =
    head_then 5 (count vs / 2) _ rest (omega arith) (omega arith)

pub length-push_value : (v : Value) → IsValid v → length (push_value v) ≡ suc (length (body_of v))
unfolding push_value body_of push_uint push_int push_string push_null push_bool push_float
    push_double array_header map_header
length-push_value (uint n) h = rw (push_typed_val_lem 0 n (omega arith) h)
length-push_value (nint n) h = rw (push_typed_val_lem 1 n (omega arith) (omega arith))
length-push_value (text s) h = rw (push_typed_val_lem 3 (length s) (omega arith) h.0)
length-push_value (bool true) h = refl
length-push_value (bool false) h = refl
length-push_value null h = refl
length-push_value (float bits) h = refl
length-push_value (double bits) h = refl
length-push_value (array vs) h = rw (push_typed_val_lem 4 (count vs) (omega arith) h.0)
length-push_value (map vs) h = rw (push_typed_val_lem 5 (count vs / 2) (omega arith) (omega arith))

skip_loop-step :
    (f : ℕ) (n : ℕ) (bs bs' : Bytes)
    → skip_value f bs ≡ ok bs'
    → skip_loop (skip_value f) (suc n) bs ≡ skip_loop (skip_value f) n bs'
unfolding skip_loop
skip_loop-step f n bs bs' e = rw e

-- The value's fuel is a unit for each byte of it; only the nesting uses it up.
mutual
  unfolding skip_value_type skip_value skip_loop head_of body_of push_value

  skip_value_type-push :
      (v : Value) (f : ℕ) (rest : Bytes)
      → IsValid v
      → length (body_of v) ≤ f
      → skip_value_type (skip_value f) (head_of v).major (head_of v).minor (body_of v ++ rest)
        ≡ ok rest
  skip_value_type-push (uint n) f rest h hf = skip_pint-argument n rest h
  skip_value_type-push (nint n) f rest h hf = skip_nint-argument n rest (omega arith)
  skip_value_type-push (text s) f rest h hf = rw append_assoc (skip_string-argument s rest h.0)
  skip_value_type-push (bool true) f rest h hf = refl
  skip_value_type-push (bool false) f rest h hf = refl
  skip_value_type-push null f rest h hf = refl
  skip_value_type-push (float bits) f rest h hf = rw (decode_pint-float bits rest h)
  skip_value_type-push (double bits) f rest h hf = rw (decode_pint-double bits rest h)
  skip_value_type-push (array vs) f rest h hf =
      rw (append_assoc, decode_pint-argument (count vs) (push_values vs ++ rest) h.0)
        (skip_loop-push vs f rest h.1
          (omega (arith, length-append (argument (count vs)) (push_values vs))))
  skip_value_type-push (map vs) f rest h hf =
      let pairs : count vs / 2 * 2 % 2 ^ 64 ≡ count vs = omega arith in
      rw
        (
          append_assoc,
          decode_pint-argument (count vs / 2) (push_values vs ++ rest) (omega arith),
          pairs,
        )
        (skip_loop-push vs f rest h.2
          (omega (arith, length-append (argument (count vs / 2)) (push_values vs))))

  skip_loop-push :
      (vs : Values) (f : ℕ) (rest : Bytes)
      → AreValid vs
      → length (push_values vs) ≤ f
      → skip_loop (skip_value f) (count vs) (push_values vs ++ rest) ≡ ok rest
  skip_loop-push nil f rest h hf = refl
  skip_loop-push (cons v vs) zero rest h hf =
      absurd (omega (arith, length-append (push_value v) (push_values vs), length-push_value v h.0))
  skip_loop-push (cons v vs) (suc f) rest h hf =
      let sizes = length-append (push_value v) (push_values vs) in
      rw
        (
          append_assoc,
          decode_type-push_value v (push_values vs ++ rest) h.0,
          skip_value_type-push v f (push_values vs ++ rest) h.0
              (omega (arith, sizes, length-push_value v h.0)),
        )
        (skip_loop-push vs (suc f) rest h.1 (omega (arith, sizes)))

-- `skip_value` passes exactly over what a push wrote, whatever follows.
pub skip_value-push_value :
    (v : Value) (f : ℕ) (rest : Bytes)
    → IsValid v
    → length (push_value v) ≤ f
    → skip_value f (push_value v ++ rest) ≡ ok rest
unfolding skip_value
skip_value-push_value v zero rest h hf = absurd (omega (arith, length-push_value v h))
skip_value-push_value v (suc f) rest h hf =
    rw (decode_type-push_value v rest h)
      (skip_value_type-push v f rest h (omega (arith, length-push_value v h)))

kind_of-head_of : (v : Value) → kind_of (head_of v) ≡ some (kind v)
unfolding kind_of head_of kind
kind_of-head_of (bool true) = refl
kind_of-head_of (bool false) = refl
kind_of-head_of _ = refl

-- `match_type` names the kind of a pushed value and passes exactly over it, whatever follows.
pub match_type-push_value :
    (v : Value) (rest : Bytes)
    → IsValid v
    → match_type (push_value v ++ rest) ≡ ok (some (kind v), rest)
unfolding match_type
match_type-push_value v rest h = rw (
  decode_type-push_value v rest h,
  skip_value_type-push v (suc (length (body_of v ++ rest))) rest h
      (omega (arith, length-append (body_of v) rest)),
  kind_of-head_of v,
)

-- No pushed value is the beginning of another one: where two of them begin the same bytes they are
-- as long as one another, and the same bytes follow.
pub push_value-prefix_free :
    (v w : Value) (r s : Bytes)
    → IsValid v
    → IsValid w
    → push_value v ++ r ≡ push_value w ++ s
    → (r ≡ s) × (length (push_value v) ≡ length (push_value w))
push_value-prefix_free v w r s hv hw e =
    let f = length (push_value v) + length (push_value w) in
    let left = skip_value-push_value v f r hv (omega arith) in
    let right = skip_value-push_value w f s hw (omega arith) in
    let same : r ≡ s = cc (ap (skip_value f) e) in
    (
      same,
      omega (
        arith,
        ap length e,
        ap length same,
        length-append (push_value v) r,
        length-append (push_value w) s,
      ),
    )
