-- ===== src/Cbor/Refinement.antt =====
-- Matching bytes is matching the values that were pushed: `match_value` and `match_next` implement
-- `accepts` and `accepts_all`.
use thespian.Prelude.{
  ℕ, suc, ◌-◌, ◌*◌, ◌/◌, ◌%◌, ◌^◌, ◌≡◌, refl, true, false, List, [], ◌++◌, append_assoc, append-nil,
  none, some, arith, Bool-cases, inl, inr, ◌==◌,
}
use thespian.Cbor.Result.{Bytes, Result, ok, err, out_of_fuel, ◌>>=◌}
use thespian.Cbor.ScalarFinds.{Finds}
use thespian.Cbor.Headers.{decode_array_header-push, decode_map_header-push}
use thespian.Cbor.MatchFinds.{match_scalar-Finds, match_more-push}
use thespian.Cbor.Value.{
  Value, Values, uint, null, array, map, nil, cons, count, push_value, push_values, IsValid,
  AreValid,
}
use thespian.Cbor.Match.{
  Extracted, Matched, Pattern, Patterns, A, M, last, next, is_more, keep, match_value, match_next,
  join, match_message,
}
use thespian.Cbor.Accepts.{elements, pairs, accepts, accepts_all}

abbrev Holds {ℓ} : (Values → Type ℓ) → Result Values → Type ℓ
Holds P (ok vs) = P vs
Holds P (err e) = Unit
Holds P out_of_fuel = Unit

elements-Holds {ℓ} :
    (P : Values → Type ℓ) (v : Value)
    → IsValid v
    → ((vs : Values) → AreValid vs → P vs)
    → Holds P (elements v)
unfolding elements
elements-Holds P (array vs) h step = step vs h.1
elements-Holds P null h step = step nil tt
elements-Holds P (uint n) h step = tt
elements-Holds P _ h step = tt

pairs-Holds {ℓ} :
    (P : Values → Type ℓ) (v : Value)
    → IsValid v
    → ((vs : Values) → AreValid vs → count vs / 2 * 2 % 2 ^ 64 ≡ count vs → P vs)
    → Holds P (pairs v)
unfolding pairs
pairs-Holds P (map vs) h step = step vs h.2 (omega arith)
pairs-Holds P null h step = step nil tt refl
pairs-Holds P (uint n) h step = tt
pairs-Holds P _ h step = tt

-- A match of the elements, behind a header that was read.
behind-Finds :
    (e : Result Values) (c : Values → ℕ) (g : Values → Result Matched)
    (k : ℕ → Bytes → Result (Matched × Bytes)) (rest : Bytes)
    → Holds (λ vs. Finds (g vs) (k (c vs) (push_values vs ++ rest)) rest) e
    → Finds (e >>= g) ((e >>= λ vs. ok (c vs, push_values vs ++ rest)) >>= λ (n, bs). k n bs) rest
behind-Finds (ok vs) c g k rest h = h
behind-Finds (err x) c g k rest h = refl
behind-Finds out_of_fuel c g k rest h = refl

-- The rules for `match_next`, in the order of its branches.
only-Finds :
    (a : Result Matched) (m : Result (Matched × Bytes)) (rest : Bytes)
    → Finds a m rest
    → Finds a (m >>= λ (r, bs). ok (keep (λ _. true) (λ xs. xs) r, bs)) rest
only-Finds (ok none) m rest (r, e) = (r, rw e)
only-Finds (ok (some xs)) m rest e = rw e
only-Finds (err x) m rest e = rw e
only-Finds out_of_fuel m rest e = rw e

excess-Finds :
    (a : Result Matched) (m : Result (Matched × Bytes)) (rest rest' : Bytes)
    → Finds a m rest'
    → Finds (a >>= λ _. ok none) (m >>= λ (r, bs). ok (keep (λ _. false) (λ xs. xs) r, bs)) rest
excess-Finds (ok none) m rest rest' (r, e) = (r, rw e)
excess-Finds (ok (some xs)) m rest rest' e = (rest', rw e)
excess-Finds (err x) m rest rest' e = rw e
excess-Finds out_of_fuel m rest rest' e = rw e

join-Finds :
    (xs : List Extracted) (b : Result Matched) (m : Result (Matched × Bytes)) (rest : Bytes)
    → Finds b m rest
    → Finds (b >>= λ r. ok (join xs r)) (m >>= λ (r, bs). ok (join xs r, bs)) rest
join-Finds xs (ok none) m rest (r, e) = (r, rw e)
join-Finds xs (ok (some ys)) m rest e = rw e
join-Finds xs (err x) m rest e = rw e
join-Finds xs out_of_fuel m rest e = rw e

first-Finds :
    (a b : Result Matched) (m : Result (Matched × Bytes)) (k : Bytes → Result (Matched × Bytes))
    (rest rest' : Bytes)
    → Finds a m rest'
    → Finds b (k rest') rest
    → Finds
        (a >>= λ r. elim r [ none ↦ ok none | some xs ↦ b >>= λ r'. ok (join xs r') ])
        (m >>= λ (r, bs). elim r [
          | none ↦ ok (none, bs)
          | some xs ↦ k bs >>= λ (r', bs'). ok (join xs r', bs')
        ])
        rest
first-Finds (ok none) b m k rest rest' (r, e) h = (r, rw e)
first-Finds (ok (some xs)) b m k rest rest' e h = rw e (join-Finds xs b (k rest') rest h)
first-Finds (err x) b m k rest rest' e h = rw e
first-Finds out_of_fuel b m k rest rest' e h = rw e

-- With `more` as the last parameter the rest of the elements is passed over.
all_more : (p : Pattern) (vs : Values) → is_more p ≡ true → accepts_all (last p) vs ≡ ok (some [])
unfolding accepts_all
all_more p nil e = rw e
all_more p (cons v nil) e = rw e
all_more p (cons v (cons w vs)) e = rw e

suc-zero : (n : ℕ) → (suc n == 0) ≡ false
suc-zero n = ground arith

suc-suc-one : (n : ℕ) → (suc (suc n) == 1) ≡ false
suc-suc-one n = ground arith

one_less : (n : ℕ) → suc n - 1 ≡ n
one_less n = omega arith

more_case :
    (p : Pattern) (vs : Values) (rest : Bytes)
    → AreValid vs
    → is_more p ≡ true
    → Finds (accepts_all (last p) vs) (match_next (last p) (count vs) (push_values vs ++ rest)) rest
unfolding match_value
more_case p vs rest h e = rw (all_more p vs e) (rw (e, match_more-push vs rest h))

mutual
  unfolding match_value accepts push_value

  pub match_value-Finds :
      (p : Pattern) (v : Value) (rest : Bytes)
      → IsValid v
      → Finds (accepts p v) (match_value p (push_value v ++ rest)) rest
  match_value-Finds (A ps) v rest h = rw (decode_array_header-push v rest h) (
      behind-Finds (elements v) count (accepts_all ps) (match_next ps) rest
        (elements-Holds _ v h (λ vs av. match_next-Finds ps vs rest av)))
  match_value-Finds (M ps) v rest h = rw (decode_map_header-push v rest h) (
      behind-Finds (pairs v) (λ vs. count vs / 2) (accepts_all ps)
        (λ n bs. match_next ps (n * 2 % 2 ^ 64) bs) rest
        (pairs-Holds _ v h (λ vs av e. rw e (match_next-Finds ps vs rest av))))
  match_value-Finds p v rest h = match_scalar-Finds _ v rest h

  pub match_next-Finds :
      (ps : Patterns) (vs : Values) (rest : Bytes)
      → AreValid vs
      → Finds (accepts_all ps vs) (match_next ps (count vs) (push_values vs ++ rest)) rest
  match_next-Finds (last p) nil rest h = elim (Bool-cases (is_more p)) [
    | inl e ↦ more_case p nil rest h e
    | inr e ↦ rw e (rest, refl)
  ]
  match_next-Finds (last p) (cons v nil) rest h = elim (Bool-cases (is_more p)) [
    | inl e ↦ more_case p (cons v nil) rest h e
    | inr e ↦ rw (e, append-nil) (only-Finds (accepts p v) _ rest (match_value-Finds p v rest h.0))
  ]
  match_next-Finds (last p) (cons v (cons w vs)) rest h = elim (Bool-cases (is_more p)) [
    | inl e ↦ more_case p (cons v (cons w vs)) rest h e
    | inr e ↦
        let after = push_values (cons w vs) ++ rest in
        rw (e, append_assoc, suc-zero (suc (count vs)), suc-suc-one (count vs))
          (excess-Finds (accepts p v) _ rest after (match_value-Finds p v after h.0))
  ]
  match_next-Finds (next p ps) nil rest h = (rest, refl)
  match_next-Finds (next p ps) (cons v vs) rest h =
      let after = push_values vs ++ rest in
      rw (append_assoc, suc-zero (count vs))
        (first-Finds (accepts p v) (accepts_all ps vs) _ (match_next ps (suc (count vs) - 1)) rest
          after (match_value-Finds p v after h.0)
          (rw (one_less (count vs)) (match_next-Finds ps vs rest h.1)))

-- A message that a sender pushed, matched as `buffer::operator()` does: the result is that of the
-- pattern on the values, whether it is a match with what was extracted, no match, or a throw.
pub match_message-push_value :
    (ps : Patterns) (v : Value) → IsValid v → match_message ps (push_value v) ≡ accepts (A ps) v
unfolding match_message
match_message-push_value ps v h = forget (accepts (A ps) v) _ [] bare
  where
    forget :
        (a : Result Matched) (m : Result (Matched × Bytes)) (rest : Bytes)
        → Finds a m rest
        → (m >>= λ (r, _). ok r) ≡ a
    forget (ok none) m rest (r, e) = rw e
    forget (ok (some xs)) m rest e = rw e
    forget (err x) m rest e = rw e
    forget out_of_fuel m rest e = rw e

    bare : Finds (accepts (A ps) v) (match_value (A ps) (push_value v)) []
    bare = rw append-nil at (match_value-Finds (A ps) v [] h)
