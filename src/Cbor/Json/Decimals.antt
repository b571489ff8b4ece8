-- ===== src/Cbor/Json/Decimals.antt =====
-- Numbers in decimal, read back by `push_json_number`.
use thespian.Prelude.{
  ℕ, zero, suc, ◌+◌, ◌-◌, ◌*◌, ◌/◌, ◌%◌, ◌^◌, ◌<◌, ◌≤◌, ◌≡◌, refl, sym, ap, ◌∙◌, subst, true, false,
  [], ◌∷◌, ◌++◌, ltb, leb, length, length-append, All, All-append, arith, ◌⊎◌, inl, inr, ◌≢◌,
  Bool-cases,
}
use native.Mathlib.Nat.{pow-suc}
use thespian.Cbor.Result.{Bytes}
use thespian.Cbor.Json.{match_digits}
use thespian.Cbor.Json.Number.{digits_value, decimal_of, decimal}

abbrev pub IsDigit : ℕ → Type 0
IsDigit c = (48 ≤ c) × (c ≤ 57)

-- No number goes on with what follows it.
abbrev pub EndsNumber : Bytes → Type 0
EndsNumber [] = Unit
EndsNumber (c ∷ cs) = ((c < 48) ⊎ (57 < c)) × (c ≢ 46) × (c ≢ 101) × (c ≢ 69)

decimal_of_one : (f n : ℕ) → n < 10 → decimal_of (suc f) n ≡ (48 + n % 10) ∷ []
unfolding decimal_of
decimal_of_one f n h = let small : ltb n 10 ≡ true = ground arith in rw (small, decimal_of) refl

decimal_of_more :
    (f n : ℕ) → 10 ≤ n → decimal_of (suc f) n ≡ decimal_of f (n / 10) ++ ((48 + n % 10) ∷ [])
unfolding decimal_of
decimal_of_more f n h = let big : ltb n 10 ≡ false = ground arith in rw (big, decimal_of) refl

small_or_big : (n : ℕ) → (n < 10) ⊎ (10 ≤ n)
small_or_big n = elim (Bool-cases (ltb n 10)) [
  | inl e ↦ inl (ground arith)
  | inr e ↦ inr (ground arith)
]

pub decimal_of-IsDigit : (f n : ℕ) → All IsDigit (decimal_of f n)
unfolding decimal_of
decimal_of-IsDigit zero n = ((omega arith, omega arith), tt)
decimal_of-IsDigit (suc f) n = elim (small_or_big n) [
  | inl e ↦ subst (All IsDigit) (sym (decimal_of_one f n e)) ((omega arith, omega arith), tt)
  | inr e ↦
      subst (All IsDigit) (sym (decimal_of_more f n e))
        (All-append IsDigit _ _ (decimal_of-IsDigit f (n / 10)) ((omega arith, omega arith), tt))
]

digits_value-append :
    (xs : Bytes) (n d : ℕ) → digits_value n (xs ++ (d ∷ [])) ≡ digits_value n xs * 10 + (d - 48)
unfolding digits_value
digits_value-append [] n d = refl
digits_value-append (x ∷ xs) n d = digits_value-append xs _ d

digits_value_one : (n d : ℕ) → digits_value n (d ∷ []) ≡ n * 10 + (d - 48)
unfolding digits_value
digits_value_one n d = refl

digits_value-decimal_of : (f n : ℕ) → n ≤ f → digits_value 0 (decimal_of f n) ≡ n
unfolding decimal_of
digits_value-decimal_of zero n h = omega (arith, digits_value_one 0 (48 + n % 10))
digits_value-decimal_of (suc f) n h = elim (small_or_big n) [
  | inl e ↦
      ap (digits_value 0) (decimal_of_one f n e) ∙ omega (arith, digits_value_one 0 (48 + n % 10))
  | inr e ↦
      ap (digits_value 0) (decimal_of_more f n e)
      ∙ omega (
        arith,
        digits_value-append (decimal_of f (n / 10)) 0 (48 + n % 10),
        digits_value-decimal_of f (n / 10) (omega arith),
      )
]

pub digits_value-decimal : (n : ℕ) → digits_value 0 (decimal n) ≡ n
unfolding decimal
digits_value-decimal n = digits_value-decimal_of n n (omega arith)

length-decimal_of : (k f n : ℕ) → n < 10 ^ suc k → length (decimal_of f n) ≤ suc k
unfolding decimal_of
length-decimal_of k zero n h = omega arith
length-decimal_of zero (suc f) n h = omega (arith, ap length (decimal_of_one f n (omega arith)))
length-decimal_of (suc k) (suc f) n h = elim (small_or_big n) [
  | inl e ↦ omega (arith, ap length (decimal_of_one f n e))
  | inr e ↦ omega (
    arith,
    ap length (decimal_of_more f n e),
    length-append (decimal_of f (n / 10)) ((48 + n % 10) ∷ []),
    length-decimal_of k f (n / 10) (omega (arith, pow-suc 10 (suc k))),
  )
]

pub length-decimal : (n : ℕ) → n < 2 ^ 64 → length (decimal n) ≤ 20
unfolding decimal
length-decimal n h = length-decimal_of 19 n n (omega arith)

-- The digits end where the number ends.
pub match_digits-append :
    (ds rest : Bytes) → All IsDigit ds → EndsNumber rest → match_digits (ds ++ rest) ≡ (ds, rest)
unfolding match_digits
match_digits-append [] [] hd he = refl
match_digits-append [] (c ∷ cs) hd he = ground arith
match_digits-append (d ∷ ds) rest hd he =
    let low : leb 48 d ≡ true = ground arith in
    let high : leb d 57 ≡ true = ground arith in
    rw (match_digits-append ds rest hd.1 he, low, high) refl

pub decimal-IsDigit : (n : ℕ) → All IsDigit (decimal n)
unfolding decimal
decimal-IsDigit n = decimal_of-IsDigit n n

decimal_of-cons : (f n : ℕ) → (d : ℕ) × (ds : Bytes) × (decimal_of f n ≡ d ∷ ds)
unfolding decimal_of
decimal_of-cons zero n = (48 + n % 10, [], refl)
decimal_of-cons (suc f) n = elim (small_or_big n) [
  | inl e ↦ (48 + n % 10, [], decimal_of_one f n e)
  | inr e ↦
      let (d, ds, h) = decimal_of-cons f (n / 10) in
      (d, ds ++ ((48 + n % 10) ∷ []), decimal_of_more f n e ∙ ap (λ s. s ++ ((48 + n % 10) ∷ [])) h)
]

pub decimal-cons : (n : ℕ) → (d : ℕ) × (ds : Bytes) × (decimal n ≡ d ∷ ds)
unfolding decimal
decimal-cons n = decimal_of-cons n n
