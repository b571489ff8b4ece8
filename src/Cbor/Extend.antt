-- ===== src/Cbor/Extend.antt =====
-- The decoders look at no byte behind the value that they read: where a run ends with a value, it
-- ends with the same value when more bytes follow, and leaves these bytes behind.
use thespian.Prelude.{
  ℕ, zero, suc, ◌*◌, ◌%◌, ◌^◌, ◌≤◌, ◌≡◌, refl, Bool, true, false, [], ◌∷◌, ◌++◌, length, arith,
  if◌then◌else◌, ltb, leb, ◌==◌, length-append,
}
use thespian.Cbor.Result.{Bytes, Result, ok, err, out_of_fuel, ◌>>=◌}
use thespian.Cbor.Decode.{
  decode_int_length_recurse, decode_int_length, decode_pint, decode_nint, advance, decode_type,
}
use thespian.Cbor.Skip.{
  Skipper, skip_string, skip_loop, skip_pint, skip_nint, skip_value_type, skip_value, match_type,
}

-- Where `r` ends with a value, `r'` ends with `grow` of it.
abbrev pub Follows {ℓ} : {A : Type ℓ} → (A → A) → Result A → Result A → Type ℓ
Follows grow (ok a) r' = r' ≡ ok (grow a)
Follows grow (err e) r' = Unit
Follows grow out_of_fuel r' = Unit

-- More bytes behind what a decoder leaves.
abbrev pub behind {ℓ} : {A : Type ℓ} → Bytes → A × Bytes → A × Bytes
behind q (a, rest) = (a, rest ++ q)

abbrev pub more : Bytes → Bytes → Bytes
more q rest = rest ++ q

pub Follows-bind {ℓ κ} :
    {A : Type ℓ} {B : Type κ} (g : A → A) (h : B → B) (r r' : Result A) (f f' : A → Result B)
    → Follows g r r'
    → ((a : A) → Follows h (f a) (f' (g a)))
    → Follows h (r >>= f) (r' >>= f')
Follows-bind g h (ok a) r' f f' e k = rw e (k a)
Follows-bind g h (err x) r' f f' e k = tt
Follows-bind g h out_of_fuel r' f f' e k = tt

pub Follows-if {ℓ} :
    {A : Type ℓ} (g : A → A) (b : Bool) (x y x' y' : Result A)
    → Follows g x x'
    → Follows g y y'
    → Follows g (if b then x else y) (if b then x' else y')
Follows-if g true x y x' y' hx hy = hx
Follows-if g false x y x' y' hx hy = hy

module _ (q : Bytes) where
  recurse-Follows :
      (n i : ℕ) (bs : Bytes)
      → Follows
          (behind q)
          (decode_int_length_recurse n i bs)
          (decode_int_length_recurse n i (bs ++ q))
  unfolding decode_int_length_recurse
  recurse-Follows n i [] = tt
  recurse-Follows zero i (b ∷ bs) = refl
  recurse-Follows (suc n) i (b ∷ bs) = recurse-Follows n _ bs

  pub decode_pint-Follows :
      (type : ℕ) (bs : Bytes)
      → Follows (behind q) (decode_pint type bs) (decode_pint type (bs ++ q))
  unfolding decode_pint decode_int_length
  decode_pint-Follows type bs = Follows-if _ (ltb type 24) _ _ _ _ refl (
      Follows-if _ (type == 24) _ _ _ _ (recurse-Follows 0 0 bs) (
        Follows-if _ (type == 25) _ _ _ _ (recurse-Follows 1 0 bs) (
          Follows-if _ (type == 26) _ _ _ _ (recurse-Follows 3 0 bs)
            (Follows-if _ (type == 27) _ _ _ _ (recurse-Follows 7 0 bs) tt))))

  advance-Follows :
      (len : ℕ) (bs : Bytes) → Follows (behind q) (advance len bs) (advance len (bs ++ q))
  unfolding advance
  advance-Follows zero bs = refl
  advance-Follows (suc len) [] = tt
  advance-Follows (suc len) (b ∷ bs) =
      Follows-bind _ _ (advance len bs) _ _ _ (advance-Follows len bs) (λ (s, rest). refl)

  skip_string-Follows :
      (type : ℕ) (bs : Bytes) → Follows (more q) (skip_string type bs) (skip_string type (bs ++ q))
  unfolding skip_string
  skip_string-Follows type bs =
      Follows-bind _ _ (decode_pint type bs) _ _ _ (decode_pint-Follows type bs) λ (len, rest).
        Follows-bind _ _ (advance len rest) _ _ _ (advance-Follows len rest) (λ (s, rest'). refl)

  skip_nint-Follows :
      (type : ℕ) (bs : Bytes) → Follows (more q) (skip_nint type bs) (skip_nint type (bs ++ q))
  unfolding skip_nint decode_nint
  skip_nint-Follows type bs =
      Follows-bind (behind q) _ (decode_nint type bs) _ _ _
        (Follows-bind _ _ (decode_pint type bs) _ _ _ (decode_pint-Follows type bs)
          (λ (n, rest). refl))
        (λ (n, rest). refl)

  -- The loop, over skippers of which one follows the other.
  skip_loop-Follows :
      (skip skip' : Skipper) (len : ℕ) (bs : Bytes)
      → ((cs : Bytes) → Follows (more q) (skip cs) (skip' (cs ++ q)))
      → Follows (more q) (skip_loop skip len bs) (skip_loop skip' len (bs ++ q))
  unfolding skip_loop
  skip_loop-Follows skip skip' zero bs h = refl
  skip_loop-Follows skip skip' (suc len) bs h =
      Follows-bind _ _ (skip bs) _ _ _ (h bs) (λ rest. skip_loop-Follows skip skip' len rest h)

  skip_value_type-Follows :
      (skip skip' : Skipper) (major minor : ℕ) (bs : Bytes)
      → ((cs : Bytes) → Follows (more q) (skip cs) (skip' (cs ++ q)))
      → Follows
          (more q)
          (skip_value_type skip major minor bs)
          (skip_value_type skip' major minor (bs ++ q))
  unfolding skip_value_type
  skip_value_type-Follows skip skip' major minor bs h = Follows-if _ (major == 0) _ _ _ _ number (
      Follows-if _ (major == 1) _ _ _ _ (skip_nint-Follows minor bs) (
        Follows-if _ (major == 2) _ _ _ _ (skip_string-Follows minor bs) (
          Follows-if _ (major == 3) _ _ _ _ (skip_string-Follows minor bs) (
            Follows-if _ (major == 4) _ _ _ _ (counted (λ len. len)) (
              Follows-if _ (major == 5) _ _ _ _ (counted (λ len. len * 2 % 2 ^ 64)) (
                Follows-if _ (major == 6) _ _ _ _ tt (
                  Follows-if _ (major == 7) _ _ _ _
                    (Follows-if _ (leb 24 minor) _ _ _ _ number refl) tt)))))))
    where
      number : Follows (more q) (skip_pint minor bs) (skip_pint minor (bs ++ q))
      number =
          Follows-bind _ _ (decode_pint minor bs) _ _ _ (decode_pint-Follows minor bs)
            (λ (n, rest). refl)

      counted :
          (of : ℕ → ℕ)
          → Follows
              (more q)
              (decode_pint minor bs >>= λ (len, rest). skip_loop skip (of len) rest)
              (decode_pint minor (bs ++ q) >>= λ (len, rest). skip_loop skip' (of len) rest)
      counted of =
          Follows-bind _ _ (decode_pint minor bs) _ _ _ (decode_pint-Follows minor bs)
            (λ (len, rest). skip_loop-Follows skip skip' (of len) rest h)

  pub skip_value-Follows :
      (f f' : ℕ) (bs : Bytes)
      → f ≤ f'
      → Follows (more q) (skip_value f bs) (skip_value f' (bs ++ q))
  unfolding skip_value decode_type
  skip_value-Follows zero f' bs h = tt
  skip_value-Follows (suc f) zero bs h = absurd (omega arith)
  skip_value-Follows (suc f) (suc f') [] h = tt
  skip_value-Follows (suc f) (suc f') (b ∷ bs) h =
      skip_value_type-Follows (skip_value f) (skip_value f') _ _ bs
        (λ cs. skip_value-Follows f f' cs (omega arith))

  -- What `match_type` reads of a value, and where it stops, does not depend on what follows.
  pub match_type-Follows : (bs : Bytes) → Follows (behind q) (match_type bs) (match_type (bs ++ q))
  unfolding match_type decode_type
  match_type-Follows [] = tt
  match_type-Follows (b ∷ bs) =
      Follows-bind (more q) _ _ _ _ _
        (skip_value_type-Follows (skip_value (suc (length bs)))
          (skip_value (suc (length (bs ++ q)))) _ _ bs
          (λ cs. skip_value-Follows _ _ cs (omega (arith, length-append bs q))))
        (λ rest. refl)
