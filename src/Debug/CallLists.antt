-- ===== src/Debug/CallLists.antt =====
-- The list of the calls that a debug connection waits for: `put_call` and `take_call`.
use thespian.Prelude.{
  ℕ, ◌+◌, ◌<◌, ◌≤◌, ◌≡◌, refl, true, List, [], ◌∷◌, ◌++◌, ◌==◌, All, arith, Bool-cases, inl, inr,
}
use thespian.Cbor.Result.{Bytes}
use thespian.Debug.Commands.{take_call}
use thespian.Debug.Json.{put_call, or_null}
use thespian.Debug.Dialogue.{remove, holds, count, numbers, waiting_ids}

pub count-append :
    (id : Bytes) (xs ys : List Bytes) → count id (xs ++ ys) ≡ count id xs + count id ys
unfolding count
count-append id [] ys = omega arith
count-append id (x ∷ xs) ys = ground (arith, count-append id xs ys)

pub numbers-put_call :
    (n : ℕ) (i : Bytes) (calls : List (ℕ × Bytes))
    → All (λ c. c.0 < n) calls
    → numbers (put_call n i calls) ≡ numbers calls ++ (n ∷ [])
unfolding put_call
numbers-put_call n i [] h = refl
numbers-put_call n i ((m, j) ∷ calls) h = ground (arith, numbers-put_call n i calls)

pub count-put_call :
    (id : Bytes) (n : ℕ) (i : Bytes) (calls : List (ℕ × Bytes))
    → All (λ c. c.0 < n) calls
    → count id (waiting_ids (put_call n i calls)) ≡ count id (waiting_ids calls) + count id (i ∷ [])
unfolding put_call count
count-put_call id n i [] h = omega arith
count-put_call id n i ((m, j) ∷ calls) h = ground (arith, count-put_call id n i calls)

pub numbers-take_call :
    (seq : ℕ) (calls : List (ℕ × Bytes))
    → numbers (take_call seq calls).1 ≡ remove seq (numbers calls)
unfolding take_call remove
numbers-take_call seq [] = refl
numbers-take_call seq ((n, i) ∷ calls) = ground (arith, numbers-take_call seq calls)

-- A call that is taken is the one whose id is answered.
pub count-take_call :
    (id : Bytes) (seq : ℕ) (calls : List (ℕ × Bytes))
    → holds seq (numbers calls) ≡ true
    → count id (waiting_ids calls)
      ≡ count id (or_null (take_call seq calls).0 ∷ [])
        + count id (waiting_ids (take_call seq calls).1)
unfolding take_call count holds
count-take_call id seq [] h = cc
count-take_call id seq ((n, i) ∷ calls) h = ground (arith, count-take_call id seq calls)

pub All-take_call {ℓ} :
    (P : ℕ × Bytes → Type ℓ) (seq : ℕ) (calls : List (ℕ × Bytes))
    → All P calls
    → All P (take_call seq calls).1
unfolding take_call
All-take_call P seq [] h = h
All-take_call P seq ((n, i) ∷ calls) h = elim (Bool-cases (n == seq)) [
  | inl e ↦ rw e (h.1)
  | inr e ↦ rw e (h.0, All-take_call P seq calls h.1)
]

abbrev pub AreBelow : ℕ → List (ℕ × Bytes) → Type 0
AreBelow n calls = All (λ c. c.0 < n) calls

pub AreBelow-le : (n m : ℕ) (calls : List (ℕ × Bytes)) → n ≤ m → AreBelow n calls → AreBelow m calls
AreBelow-le n m [] l h = tt
AreBelow-le n m (c ∷ calls) l h = (omega (arith, h.0), AreBelow-le n m calls l h.1)

pub AreBelow-put_call :
    (n : ℕ) (i : Bytes) (calls : List (ℕ × Bytes))
    → AreBelow n calls
    → AreBelow (n + 1) (put_call n i calls)
unfolding put_call
AreBelow-put_call n i [] h = (omega arith, tt)
AreBelow-put_call n i ((m, j) ∷ calls) h = elim (Bool-cases (m == n)) [
  | inl e ↦ rw e (omega (arith, h.0), AreBelow-le n (n + 1) calls (omega arith) h.1)
  | inr e ↦ rw e (omega (arith, h.0), AreBelow-put_call n i calls h.1)
]
