-- ===== src/Cbor/MatchFinds.antt =====
-- Matching bytes is matching the values that were pushed: `match_value` and `match_next` implement
-- `accepts` and `accepts_all`.
use thespian.Prelude.{
  ◌-◌, ◌≡◌, refl, ap, Bool, true, List, [], ◌∷◌, ◌++◌, length, length-append, take, append_assoc,
  Option, none, some, arith,
}
use thespian.Cbor.Result.{Bytes, Result, ok, ◌>>=◌}
use thespian.Cbor.Kind.{kind_eq}
use thespian.Cbor.PushSkip.{match_type-push_value}
use thespian.Cbor.ScalarFinds.{
  Finds, Finds-place, match_uint-Finds, match_int-Finds, match_bool-Finds, match_string-Finds,
  match_float-Finds,
}
use thespian.Cbor.Value.{
  Value, Values, nil, cons, count, push_value, push_values, IsValid, AreValid,
}
use thespian.Cbor.Match.{
  Extracted, Pattern, is, signed, unsigned, boolean, str, extract_kind, extract_int, extract_uint,
  extract_bool, extract_float, extract_string, extract_range, A, M, always, keep, passed,
  match_scalar, match_more,
}
use thespian.Cbor.Accepts.{accepts_scalar}

take-append : (s rest : Bytes) → take (length s) (s ++ rest) ≡ s
take-append [] rest = refl
take-append (x ∷ s) rest = ap (◌∷◌ x) (take-append s rest)

pub passed-append : (s rest : Bytes) → passed (s ++ rest) rest ≡ s
passed-append s rest =
    let size : length (s ++ rest) - length rest ≡ length s = omega (arith, length-append s rest) in
    rw size (take-append s rest)

keep-Finds {ℓ} :
    {X : Type ℓ} (test : X → Bool) (f : X → List Extracted) (o : Option X)
    (m : Result (Option X × Bytes)) (rest : Bytes)
    → Finds (ok o) m rest
    → Finds (ok (keep test f o)) (m >>= λ (x, r). ok (keep test f x, r)) rest
keep-Finds test f none m rest (r, e) = (r, rw e)
keep-Finds test f (some x) m rest e = Finds-place (keep test f (some x)) (rw e)

pub match_scalar-Finds :
    (p : Pattern) (v : Value) (rest : Bytes)
    → IsValid v
    → Finds (ok (accepts_scalar p v)) (match_scalar p (push_value v ++ rest)) rest
unfolding match_scalar accepts_scalar
match_scalar-Finds (is t) v rest h =
    Finds-place (accepts_scalar (is t) v) (rw (match_type-push_value v rest h))
match_scalar-Finds (signed lit) v rest h = keep-Finds _ _ _ _ rest (match_int-Finds v rest h)
match_scalar-Finds (unsigned lit) v rest h = keep-Finds _ _ _ _ rest (match_uint-Finds v rest h)
match_scalar-Finds (boolean lit) v rest h = keep-Finds _ _ _ _ rest (match_bool-Finds v rest h)
match_scalar-Finds (str lit) v rest h = keep-Finds _ _ _ _ rest (match_string-Finds v rest h)
match_scalar-Finds extract_kind v rest h = rw (match_type-push_value v rest h)
match_scalar-Finds (extract_int w) v rest h = keep-Finds _ _ _ _ rest (match_int-Finds v rest h)
match_scalar-Finds (extract_uint w) v rest h = keep-Finds _ _ _ _ rest (match_uint-Finds v rest h)
match_scalar-Finds extract_bool v rest h =
    keep-Finds always (λ x. Extracted.bool x ∷ []) _ _ rest (match_bool-Finds v rest h)
match_scalar-Finds extract_float v rest h =
    keep-Finds always (λ x. Extracted.float x ∷ []) _ _ rest (match_float-Finds v rest h)
match_scalar-Finds extract_string v rest h =
    keep-Finds always (λ x. Extracted.text x ∷ []) _ _ rest (match_string-Finds v rest h)
match_scalar-Finds extract_range v rest h =
    Finds-place (accepts_scalar extract_range v)
      (rw (match_type-push_value v rest h, passed-append (push_value v) rest))
match_scalar-Finds (A ps) v rest h = (_, refl)
match_scalar-Finds (M ps) v rest h = (_, refl)

pub match_more-push :
    (vs : Values) (rest : Bytes)
    → AreValid vs
    → match_more (count vs) (push_values vs ++ rest) ≡ ok (true, rest)
unfolding match_more push_value match_scalar kind_eq
match_more-push nil rest h = refl
match_more-push (cons v vs) rest h =
    rw (append_assoc, match_type-push_value v (push_values vs ++ rest) h.0)
      (match_more-push vs rest h.1)
