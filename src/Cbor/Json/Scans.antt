-- ===== src/Cbor/Json/Scans.antt =====
-- How far the parts of `push_json` move on any text.
use thespian.Prelude.{
  ℕ, suc, ◌+◌, ◌-◌, ◌≤◌, ◌≡◌, refl, sym, subst, Bool, true, false, ◌||◌, [], ◌∷◌, ◌++◌, Option,
  some, none, leb, ltb, ◌==◌, if◌then◌else◌, length, arith,
}
use thespian.Prelude.Int.{ℤ}
use thespian.Cbor.Buffer.{push_int, push_double}
use thespian.Prelude.Text.{codes}
use thespian.Cbor.Result.{Bytes}
use thespian.Cbor.Json.{
  skip_wsp, match_char, match_literal, match_digits, push_json_keyword, prepend, pushed, unescape,
  push_json_qstring, push_json_qstring_slow,
}
use thespian.Cbor.Json.Paths.{push_json_qstring_lem}
use thespian.Cbor.Json.Number.{
  Scanned, found, digits, next_part, sign, fraction, exponent_sign, exponent, push_number,
  push_json_number, from_chars_int,
}

-- A failure, or at most `n` characters are left.
abbrev pub Scans : ℕ → Scanned → Type 0
Scans n none = Unit
Scans n (some (s, rest)) = length rest ≤ n

abbrev pub Skips : ℕ → Option Bytes → Type 0
Skips n none = Unit
Skips n (some rest) = length rest ≤ n

pub if-lem {ℓ κ} :
    {A : Type ℓ} (P : A → Type κ) (b : Bool) (x y : A) → P x → P y → P (if b then x else y)
if-lem P true x y hx hy = hx
if-lem P false x y hx hy = hy

pub length-skip_wsp : (bs : Bytes) → length (skip_wsp bs) ≤ length bs
unfolding skip_wsp
length-skip_wsp [] = omega arith
length-skip_wsp (c ∷ cs) =
    if-lem (λ s. length s ≤ suc (length cs)) _ (skip_wsp cs) (c ∷ cs)
      (omega (arith, length-skip_wsp cs)) (omega arith)

pub match_char-Skips : (c : ℕ) (bs : Bytes) → Skips (length bs - 1) (match_char c bs)
unfolding match_char
match_char-Skips c [] = tt
match_char-Skips c (b ∷ bs) =
    if-lem (Skips (suc (length bs) - 1)) (b == c) (some bs) none (omega arith) tt

match_literal-Skips : (str bs : Bytes) → Skips (length bs - length str) (match_literal str bs)
unfolding match_literal
match_literal-Skips [] bs = omega arith
match_literal-Skips (c ∷ str) [] = tt
match_literal-Skips (c ∷ str) (b ∷ bs) =
    if-lem (Skips (suc (length bs) - suc (length str))) (b == c) (match_literal str bs) none
      (subst (λ n. Skips n (match_literal str bs)) (omega arith) (match_literal-Skips str bs)) tt

keyword_lem :
    (n : ℕ) (p : Bytes) (o : Option Bytes) (other : Scanned)
    → Skips n o
    → Scans n other
    → Scans n (elim o as (λ _. Scanned) [ some rest ↦ some (p, rest) | none ↦ other ])
keyword_lem n p none other h k = k
keyword_lem n p (some rest) other h k = h

Skips-mono : (m n : ℕ) (o : Option Bytes) → m ≤ n → Skips m o → Skips n o
Skips-mono m n none h l = tt
Skips-mono m n (some rest) h l = omega arith

pub push_json_keyword-Scans : (bs : Bytes) → Scans (length bs - 1) (push_json_keyword bs)
unfolding push_json_keyword
push_json_keyword-Scans bs =
    let n = length bs - 1 in
    keyword_lem n _ (match_literal (codes "false") bs) _
      (Skips-mono (length bs - 5) n (match_literal (codes "false") bs) (omega arith)
        (match_literal-Skips (codes "false") bs))
      (keyword_lem n _ (match_literal (codes "true") bs) _
        (Skips-mono (length bs - 4) n (match_literal (codes "true") bs) (omega arith)
          (match_literal-Skips (codes "true") bs))
        (keyword_lem n _ (match_literal (codes "null") bs) none
          (Skips-mono (length bs - 4) n (match_literal (codes "null") bs) (omega arith)
            (match_literal-Skips (codes "null") bs))
          tt))

Scans-prepend : (n c : ℕ) (o : Scanned) → Scans n o → Scans n (prepend c o)
Scans-prepend n c none h = tt
Scans-prepend n c (some (s, rest)) h = h

Scans-pushed : (n : ℕ) (o : Scanned) → Scans n o → Scans n (pushed o)
Scans-pushed n none h = tt
Scans-pushed n (some (s, rest)) h = h

pub Scans-mono : (m n : ℕ) (o : Scanned) → m ≤ n → Scans m o → Scans n o
Scans-mono m n none h l = tt
Scans-mono m n (some (s, rest)) h l = omega arith

unescape-Scans : (b : Bool) (bs : Bytes) → Scans (length bs) (unescape b bs)
unfolding unescape
unescape-Scans b [] = tt
unescape-Scans true (c ∷ cs) = Scans-prepend (suc (length cs)) _ (unescape false cs) (
    Scans-mono (length cs) (suc (length cs)) (unescape false cs) (omega arith)
      (unescape-Scans false cs))
unescape-Scans false (c ∷ cs) =
    let rest = unescape (c == 92) cs in
    let less =
      Scans-mono (length cs) (suc (length cs)) rest (omega arith) (unescape-Scans (c == 92) cs) in
    if-lem (Scans (suc (length cs))) (c == 92) rest _ less (
      if-lem (Scans (suc (length cs))) (c == 34) (some ([], cs)) (prepend c rest) (omega arith)
        (Scans-prepend (suc (length cs)) c rest less))

pub push_json_qstring-Scans : (bs : Bytes) → Scans (length bs - 1) (push_json_qstring bs)
unfolding push_json_qstring_slow
push_json_qstring-Scans bs =
    subst (Scans (length bs - 1)) (sym (push_json_qstring_lem bs))
      (quoted (match_char 34 bs) (match_char-Skips 34 bs))
  where
    quoted :
        (o : Option Bytes)
        → Skips (length bs - 1) o
        → Scans
            (length bs - 1)
            (elim o as (λ _. Scanned) [ none ↦ none | some cs ↦ pushed (unescape false cs) ])
    quoted none h = tt
    quoted (some cs) h =
        Scans-pushed (length bs - 1) (unescape false cs)
          (Scans-mono (length cs) (length bs - 1) (unescape false cs) h (unescape-Scans false cs))

digits_length : (bs : Bytes) → length (match_digits bs).0 + length (match_digits bs).1 ≡ length bs
unfolding match_digits
digits_length [] = refl
digits_length (c ∷ cs) =
    let P : Bytes × Bytes → Type 0 = λ p. length p.0 + length p.1 ≡ suc (length cs) in
    let more = match_digits cs in
    if-lem P (leb 48 c) _ _
      (if-lem P (leb c 57) (c ∷ more.0, more.1) ([], c ∷ cs) (omega (arith, digits_length cs))
        (omega arith))
      (omega arith)

digits-Scans : (bs : Bytes) → Scans (length bs - 1) (digits bs)
unfolding digits
digits-Scans bs = fewer (match_digits bs) (digits_length bs)
  where
    fewer :
        (p : Bytes × Bytes) → length p.0 + length p.1 ≡ length bs → Scans (length bs - 1) (found p)
    fewer ([], rest) e = tt
    fewer (d ∷ ds, rest) e = omega arith

next_part-Scans :
    (m n : ℕ) (o : Scanned) (f : Bytes → Scanned)
    → Scans m o
    → ((bs : Bytes) → length bs ≤ m → Scans n (f bs))
    → Scans n (next_part o f)
unfolding next_part
next_part-Scans m n none f h k = tt
next_part-Scans m n (some (s, bs)) f h k = added (f bs) (k bs h)
  where
    added :
        (o : Scanned)
        → Scans n o
        → Scans n (elim o as (λ _. Scanned) [ none ↦ none | some (t, rest) ↦ some (s ++ t, rest) ])
    added none l = tt
    added (some (t, rest)) l = l

fraction-Scans : (bs : Bytes) → Scans (length bs) (fraction bs)
unfolding fraction
fraction-Scans [] = omega arith
fraction-Scans (c ∷ cs) =
    let n = suc (length cs) in
    if-lem (Scans n) (c == 46) _ (some ([], c ∷ cs))
      (next_part-Scans (length cs) n (some (46 ∷ [], cs)) digits (omega arith)
        λ bs h. Scans-mono (length bs - 1) n (digits bs) (omega arith) (digits-Scans bs))
      (omega arith)

exponent_sign-Scans : (bs : Bytes) → Scans (length bs) (exponent_sign bs)
unfolding exponent_sign
exponent_sign-Scans [] = omega arith
exponent_sign-Scans (c ∷ cs) =
    if-lem (Scans (suc (length cs))) (c == 43 || c == 45) (some (c ∷ [], cs)) (some ([], c ∷ cs))
      (omega arith) (omega arith)

exponent-Scans : (bs : Bytes) → Scans (length bs) (exponent bs)
unfolding exponent
exponent-Scans [] = omega arith
exponent-Scans (c ∷ cs) =
    let n = suc (length cs) in
    if-lem (Scans n) (c == 101 || c == 69) _ (some ([], c ∷ cs))
      (next_part-Scans n n _ digits
        (next_part-Scans (length cs) n (some (101 ∷ [], cs)) exponent_sign (omega arith) λ bs h.
          Scans-mono (length bs) n (exponent_sign bs) (omega arith) (exponent_sign-Scans bs))
        λ bs h. Scans-mono (length bs - 1) n (digits bs) (omega arith) (digits-Scans bs))
      (omega arith)

sign-Scans : (bs : Bytes) → Scans (length bs) (sign bs)
unfolding sign
sign-Scans bs = signed (match_char 45 bs) (match_char-Skips 45 bs)
  where
    signed :
        (o : Option Bytes)
        → Skips (length bs - 1) o
        → Scans
            (length bs)
            (elim o as (λ _. Scanned) [ none ↦ some ([], bs) | some cs ↦ some (45 ∷ [], cs) ])
    signed none h = omega arith
    signed (some cs) h = omega arith

push_number-Scans :
    (from_chars : Bytes → Option ℕ) (b : Bool) (s rest : Bytes)
    → Scans (length rest) (push_number from_chars b s rest)
unfolding push_number
push_number-Scans from_chars true s rest =
    if-lem (Scans (length rest)) (ltb 64 (length s)) none _ tt (value (from_chars s))
  where
    value :
        (o : Option ℕ)
        → Scans
            (length rest)
            (elim o as (λ _. Scanned) [ none ↦ none | some bits ↦ some (push_double bits, rest) ])
    value none = tt
    value (some bits) = omega arith
push_number-Scans from_chars false s rest =
    if-lem (Scans (length rest)) (ltb 64 (length s)) none _ tt (value (from_chars_int s))
  where
    value :
        (o : Option ℤ)
        → Scans
            (length rest)
            (elim o as (λ _. Scanned) [ none ↦ none | some i ↦ some (push_int i, rest) ])
    value none = tt
    value (some i) = omega arith

module _ (from_chars : Bytes → Option ℕ) (n : ℕ) where
  ending :
      (i : Bytes) (o : Scanned)
      → Scans n o
      → Scans n (elim o as (λ _. Scanned) [
        | none ↦ none
        | some ([], rest') ↦ push_number from_chars false i rest'
        | some (c ∷ cs, rest') ↦ push_number from_chars true (i ++ (c ∷ cs)) rest'
      ])
  ending i none h = tt
  ending i (some ([], rest')) h =
      Scans-mono (length rest') n (push_number from_chars false i rest') h
        (push_number-Scans from_chars false i rest')
  ending i (some (c ∷ cs, rest')) h =
      Scans-mono (length rest') n (push_number from_chars true (i ++ (c ∷ cs)) rest') h
        (push_number-Scans from_chars true (i ++ (c ∷ cs)) rest')

  integral :
      (o : Scanned)
      → Scans n o
      → Scans n (elim o as (λ _. Scanned) [
        | none ↦ none
        | some (i, rest) ↦ elim (next_part (fraction rest) exponent) [
          | none ↦ none
          | some ([], rest') ↦ push_number from_chars false i rest'
          | some (c ∷ cs, rest') ↦ push_number from_chars true (i ++ (c ∷ cs)) rest'
        ]
      ])
  integral none h = tt
  integral (some (i, rest)) h = ending i (next_part (fraction rest) exponent) (
      next_part-Scans (length rest) n (fraction rest) exponent (fraction-Scans rest)
        λ cs l. Scans-mono (length cs) n (exponent cs) (omega arith) (exponent-Scans cs))

pub push_json_number-Scans :
    (from_chars : Bytes → Option ℕ) (bs : Bytes)
    → Scans (length bs - 1) (push_json_number from_chars bs)
unfolding push_json_number
push_json_number-Scans from_chars bs =
    integral from_chars (length bs - 1) (next_part (sign bs) digits) (
      next_part-Scans (length bs) (length bs - 1) (sign bs) digits (sign-Scans bs) λ cs h.
        Scans-mono (length cs - 1) (length bs - 1) (digits cs) (omega arith) (digits-Scans cs))
