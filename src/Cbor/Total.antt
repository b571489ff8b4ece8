-- ===== src/Cbor/Total.antt =====
-- The decoders on any bytes, well formed or not: how far they move, and that they never run out of
-- the fuel that the model gives them.
use thespian.Prelude.{
  ℕ, zero, suc, ◌-◌, ◌<◌, ◌≤◌, Bool, true, false, [], ◌∷◌, length, arith, if◌then◌else◌, ltb, leb,
  ◌==◌, bit_and,
}
use thespian.Cbor.Result.{Bytes, Result, ok, err, out_of_fuel, ◌>>=◌}
use thespian.Cbor.Buffer.{shr}
use thespian.Cbor.Decode.{
  Head, decode_int_length_recurse, decode_int_length, decode_pint, decode_nint, advance,
  decode_string, decode_type,
}
use thespian.Cbor.Skip.{
  Skipper, skip_string, skip_loop, skip_value_type, skip_value, match_type, kind_of,
}

-- The run keeps within its fuel, and what it leaves is no longer than `n` bytes.
abbrev pub Leaves {ℓ} : {A : Type ℓ} → ℕ → Result (A × Bytes) → Type 0
Leaves n (ok (a, rest)) = length rest ≤ n
Leaves n (err e) = Unit
Leaves n out_of_fuel = ⊥

abbrev pub Stops : ℕ → Result Bytes → Type 0
Stops n (ok rest) = length rest ≤ n
Stops n (err e) = Unit
Stops n out_of_fuel = ⊥

module _ {ℓ} {A : Type ℓ} where
  pub Leaves-mono : {m n : ℕ} (r : Result (A × Bytes)) → m ≤ n → Leaves m r → Leaves n r
  Leaves-mono (ok (a, rest)) h l = omega arith
  Leaves-mono (err e) h l = tt
  Leaves-mono out_of_fuel h l = l

  pub Leaves-if :
      (b : Bool) (n : ℕ) (x y : Result (A × Bytes))
      → Leaves n x
      → Leaves n y
      → Leaves n (if b then x else y)
  Leaves-if true n x y hx hy = hx
  Leaves-if false n x y hx hy = hy

  pub Leaves-bind {κ} :
      {B : Type κ} (m n : ℕ) (r : Result (A × Bytes)) (f : A × Bytes → Result (B × Bytes))
      → Leaves m r
      → ((a : A) (rest : Bytes) → length rest ≤ m → Leaves n (f (a, rest)))
      → Leaves n (r >>= f)
  Leaves-bind m n (ok (a, rest)) f h k = k a rest h
  Leaves-bind m n (err e) f h k = tt
  Leaves-bind m n out_of_fuel f h k = h

  Stops-bind :
      (m n : ℕ) (r : Result (A × Bytes)) (f : A × Bytes → Result Bytes)
      → Leaves m r
      → ((a : A) (rest : Bytes) → length rest ≤ m → Stops n (f (a, rest)))
      → Stops n (r >>= f)
  Stops-bind m n (ok (a, rest)) f h k = k a rest h
  Stops-bind m n (err e) f h k = tt
  Stops-bind m n out_of_fuel f h k = h

Stops-if :
    (b : Bool) (n : ℕ) (x y : Result Bytes) → Stops n x → Stops n y → Stops n (if b then x else y)
Stops-if true n x y hx hy = hx
Stops-if false n x y hx hy = hy

Stops-then :
    (m n : ℕ) (r : Result Bytes) (f : Bytes → Result Bytes)
    → Stops m r
    → ((rest : Bytes) → length rest ≤ m → Stops n (f rest))
    → Stops n (r >>= f)
Stops-then m n (ok rest) f h k = k rest h
Stops-then m n (err e) f h k = tt
Stops-then m n out_of_fuel f h k = h

pub recurse-Leaves :
    (more i : ℕ) (bs : Bytes) → Leaves (length bs) (decode_int_length_recurse more i bs)
unfolding decode_int_length_recurse
recurse-Leaves more i [] = tt
recurse-Leaves zero i (b ∷ bs) = omega arith
recurse-Leaves (suc more) i (b ∷ bs) =
    Leaves-mono (decode_int_length_recurse more _ bs) (omega arith) (recurse-Leaves more _ bs)

pub decode_pint-Leaves : (type : ℕ) (bs : Bytes) → Leaves (length bs) (decode_pint type bs)
unfolding decode_pint decode_int_length
decode_pint-Leaves type bs = Leaves-if (ltb type 24) _ _ _ (omega arith) (
    Leaves-if (type == 24) _ _ _ (recurse-Leaves 0 0 bs) (
      Leaves-if (type == 25) _ _ _ (recurse-Leaves 1 0 bs) (
        Leaves-if (type == 26) _ _ _ (recurse-Leaves 3 0 bs)
          (Leaves-if (type == 27) _ _ _ (recurse-Leaves 7 0 bs) tt))))

pub decode_nint-Leaves : (type : ℕ) (bs : Bytes) → Leaves (length bs) (decode_nint type bs)
unfolding decode_nint
decode_nint-Leaves type bs =
    Leaves-bind _ _ (decode_pint type bs) _ (decode_pint-Leaves type bs) (λ n rest h. h)

pub advance-Leaves : (len : ℕ) (bs : Bytes) → Leaves (length bs) (advance len bs)
unfolding advance
advance-Leaves zero bs = omega arith
advance-Leaves (suc len) [] = tt
advance-Leaves (suc len) (b ∷ bs) =
    Leaves-bind _ _ (advance len bs) _ (advance-Leaves len bs) (λ s rest h. omega arith)

pub decode_string-Leaves : (type : ℕ) (bs : Bytes) → Leaves (length bs) (decode_string type bs)
unfolding decode_string
decode_string-Leaves type bs =
    Leaves-bind _ _ (decode_pint type bs) _ (decode_pint-Leaves type bs)
      λ len rest h. Leaves-mono (advance len rest) h (advance-Leaves len rest)

skip_string-Stops : (type : ℕ) (bs : Bytes) → Stops (length bs) (skip_string type bs)
unfolding skip_string
skip_string-Stops type bs =
    Stops-bind _ _ (decode_pint type bs) _ (decode_pint-Leaves type bs) λ len rest h.
      Stops-bind _ _ (advance len rest) _ (advance-Leaves len rest) λ s rest' h'. omega arith

skip_loop-Stops :
    (skip : Skipper) (n len : ℕ) (bs : Bytes)
    → ((cs : Bytes) → length cs ≤ n → Stops n (skip cs))
    → length bs ≤ n
    → Stops n (skip_loop skip len bs)
unfolding skip_loop
skip_loop-Stops skip n zero bs step h = h
skip_loop-Stops skip n (suc len) bs step h =
    Stops-then n n (skip bs) _ (step bs h) (λ rest. skip_loop-Stops skip n len rest step)

Stops-mono : (m n : ℕ) (r : Result Bytes) → m ≤ n → Stops m r → Stops n r
Stops-mono m n (ok rest) h l = omega arith
Stops-mono m n (err e) h l = tt
Stops-mono m n out_of_fuel h l = l

-- One level, over a call for the elements that keeps within `n` bytes.
skip_value_type-Stops :
    (skip : Skipper) (n major minor : ℕ) (bs : Bytes)
    → ((cs : Bytes) → length cs ≤ n → Stops n (skip cs))
    → length bs ≤ n
    → Stops n (skip_value_type skip major minor bs)
unfolding skip_value_type
skip_value_type-Stops skip n major minor bs step h =
    Stops-if (major == 0) n _ _
      (Stops-bind _ _ (decode_pint minor bs) _ (decode_pint-Leaves minor bs)
        λ _ rest l. omega arith)
      (Stops-if (major == 1) n _ _
        (Stops-bind _ _ (decode_nint minor bs) _ (decode_nint-Leaves minor bs)
          λ _ rest l. omega arith)
        (Stops-if (major == 2) n _ _ text (
          Stops-if (major == 3) n _ _ text (
            Stops-if (major == 4) n _ _
              (Stops-bind _ _ (decode_pint minor bs) _ (decode_pint-Leaves minor bs)
                λ len rest l. skip_loop-Stops skip n len rest step (omega arith))
              (Stops-if (major == 5) n _ _
                (Stops-bind _ _ (decode_pint minor bs) _ (decode_pint-Leaves minor bs)
                  λ len rest l. skip_loop-Stops skip n _ rest step (omega arith))
                (Stops-if (major == 6) n _ _ tt (
                  Stops-if (major == 7) n _ _
                    (Stops-if (leb 24 minor) n _ _
                      (Stops-bind _ _ (decode_pint minor bs) _ (decode_pint-Leaves minor bs)
                        λ _ rest l. omega arith)
                      h)
                    tt)))))))
  where
    text : Stops n (skip_string minor bs)
    text = Stops-mono (length bs) n (skip_string minor bs) h (skip_string-Stops minor bs)

-- With fuel above the number of bytes `skip_value` throws, or passes over at least one byte.
pub skip_value-Stops :
    (f n : ℕ) (bs : Bytes) → length bs ≤ n → n < f → Stops (n - 1) (skip_value f bs)
unfolding skip_value decode_type
skip_value-Stops zero n bs h hf = absurd (omega arith)
skip_value-Stops (suc f) n [] h hf = tt
skip_value-Stops (suc f) n (b ∷ bs) h hf =
    skip_value_type-Stops (skip_value f) (n - 1) _ _ bs
      (λ cs l.
        Stops-mono (n - 1 - 1) (n - 1) (skip_value f cs) (omega arith)
          (skip_value-Stops f (n - 1) cs l (omega arith)))
      (omega arith)

stored-Leaves {ℓ} :
    {A : Type ℓ} (n : ℕ) (a : A) (r : Result Bytes)
    → Stops n r
    → Leaves n (r >>= λ rest. ok (a, rest))
stored-Leaves n a (ok rest) l = l
stored-Leaves n a (err e) l = tt
stored-Leaves n a out_of_fuel l = l

-- On any bytes `match_type` ends: it throws, or it returns and has passed over at least one byte.
pub match_type-Leaves : (bs : Bytes) → Leaves (length bs - 1) (match_type bs)
unfolding match_type decode_type
match_type-Leaves [] = tt
match_type-Leaves (b ∷ bs) =
    let first : Head = record { major = shr b 5; minor = bit_and b 31; type = b } in
    Leaves-mono {m = length bs} (match_type (b ∷ bs)) (omega arith) (
      stored-Leaves (length bs) (kind_of first) _ (
        skip_value_type-Stops (skip_value (suc (length bs))) (length bs) _ _ bs
          (λ cs l.
            Stops-mono (length bs - 1) (length bs) (skip_value (suc (length bs)) cs) (omega arith)
              (skip_value-Stops (suc (length bs)) (length bs) cs l (omega arith)))
          (omega arith)))
