-- ===== src/Cbor/Json/Total.antt =====
-- `push_json` on any text never runs out of the fuel that the model gives it.
use thespian.Prelude.{
  ℕ, zero, suc, ◌-◌, ◌%◌, ◌<◌, ◌≤◌, ◌≢◌, subst, Bool, true, false, ◌&&◌, ◌||◌, [], ◌∷◌, ◌++◌,
  Option, some, none, leb, ◌==◌, length, arith,
}
use thespian.Cbor.Result.{Bytes}
use thespian.Cbor.Json.{skip_wsp, match_char, push_json_keyword, push_json_qstring}
use thespian.Cbor.Json.Number.{Scanned, push_json_number}
use thespian.Cbor.Json.Parse.{
  Outcome, pushes, invalid, out_of_fuel, Pusher, Loop, Shape, scalar, after_part, round, rounds,
  container, array_shape, map_shape, push_json_array, push_json_map, by_first, push_json_value,
  push_json,
}
use thespian.Cbor.Json.Scans.{
  Scans, Skips, if-lem, match_char-Skips, length-skip_wsp, push_json_keyword-Scans, Scans-mono,
  push_json_qstring-Scans, push_json_number-Scans,
}

-- An end within the fuel: a failure, or at most `n` characters are left.
abbrev pub Passes : ℕ → Outcome → Type 0
Passes n (pushes p rest) = length rest ≤ n
Passes n invalid = Unit
Passes n out_of_fuel = ⊥

case-Passes :
    (n : ℕ) (b : Bool) (x y : Outcome)
    → Passes n x
    → Passes n y
    → Passes n (elim b as (λ _. Outcome) [ true ↦ x | false ↦ y ])
case-Passes n true x y hx hy = hx
case-Passes n false x y hx hy = hy

Passes-mono : (m n : ℕ) (o : Outcome) → m ≤ n → Passes m o → Passes n o
Passes-mono m n (pushes p rest) h l = omega arith
Passes-mono m n invalid h l = tt
Passes-mono m n out_of_fuel h l = l

scalar-Passes : (n : ℕ) (o : Scanned) → Scans n o → Passes n (scalar o)
scalar-Passes n none h = tt
scalar-Passes n (some (p, rest)) h = h

after_part-Passes :
    (m n : ℕ) (o : Outcome) (k : Bytes → Bytes → Outcome)
    → Passes m o
    → ((p rest : Bytes) → length rest ≤ m → Passes n (k p rest))
    → Passes n (after_part o k)
after_part-Passes m n (pushes p rest) k h l = l p rest h
after_part-Passes m n invalid k h l = tt
after_part-Passes m n out_of_fuel k h l = h

-- The end of a loop.
abbrev Closes : Shape → Type 0
Closes sh = (count : ℕ) (inner rest : Bytes) → Passes (length rest) (sh.close count inner rest)

-- Each call on at most `n` characters passes over one at least.
abbrev Steps : ℕ → Pusher → Type 0
Steps n value = (cs : Bytes) → length cs ≤ n → Passes (length cs - 1) (value cs)

round-Passes :
    (sh : Shape) (value : Pusher) (loop : Loop) (n k : ℕ) (inner bs : Bytes)
    → Closes sh
    → Steps n value
    → length bs ≤ n
    → ((k : ℕ) (inner cs : Bytes) → length cs < length bs → Passes n (loop k inner cs))
    → Passes n (round sh value loop k inner bs)
unfolding round
round-Passes sh value loop n k inner [] closes steps h again = tt
round-Passes sh value loop n k inner (c ∷ cs) closes steps h again =
    case-Passes n (sh.separates c) _ _
      (again k inner (skip_wsp cs) (omega (arith, length-skip_wsp cs)))
      (case-Passes n (c == sh.closing) _ _
        (Passes-mono (length cs) n (sh.close k inner cs) (omega arith) (closes k inner cs))
        (after_part-Passes (length cs) n (value (c ∷ cs)) _
          (Passes-mono (suc (length cs) - 1) (length cs) (value (c ∷ cs)) (omega arith)
            (steps (c ∷ cs) h))
          λ p rest l. again (suc k) (inner ++ p) rest (omega arith)))

rounds-Passes :
    (sh : Shape) (value : Pusher) (n f k : ℕ) (inner bs : Bytes)
    → Closes sh
    → Steps n value
    → length bs ≤ n
    → length bs < f
    → Passes n (rounds sh value f k inner bs)
unfolding rounds
rounds-Passes sh value n zero k inner bs closes steps h hf = absurd (omega arith)
rounds-Passes sh value n (suc f) k inner bs closes steps h hf =
    round-Passes sh value (rounds sh value f) n k inner (skip_wsp bs) closes steps
      (omega (arith, length-skip_wsp bs))
      λ k' inner' cs l.
        rounds-Passes sh value n f k' inner' cs closes steps (omega (arith, length-skip_wsp bs))
          (omega (arith, length-skip_wsp bs))

container-Passes :
    (sh : Shape) (opening : ℕ) (value : Pusher) (n : ℕ) (bs : Bytes)
    → Closes sh
    → Steps n value
    → length bs - 1 ≤ n
    → Passes n (container sh opening value bs)
unfolding container
container-Passes sh opening value n bs closes steps h =
    opened (match_char opening bs) (match_char-Skips opening bs)
  where
    filled :
        (cs : Bytes) (o : Option Bytes)
        → length cs ≤ n
        → Skips (length cs - 1) o
        → Passes n (elim o as (λ _. Outcome) [
          | some rest ↦ sh.close 0 [] rest
          | none ↦ after_part (value cs) (λ p rest. rounds sh value (suc (length rest)) 1 p rest)
        ])
    filled cs (some rest) l s =
        Passes-mono (length rest) n (sh.close 0 [] rest) (omega arith) (closes 0 [] rest)
    filled cs none l s =
        after_part-Passes n n (value cs) _
          (Passes-mono (length cs - 1) n (value cs) (omega arith) (steps cs l))
          λ p rest r.
            rounds-Passes sh value n (suc (length rest)) 1 p rest closes steps r (omega arith)

    opened :
        (o : Option Bytes)
        → Skips (length bs - 1) o
        → Passes n (elim o as (λ _. Outcome) [
          | none ↦ invalid
          | some cs ↦ elim (match_char sh.closing (skip_wsp cs)) [
            | some rest ↦ sh.close 0 [] rest
            | none ↦
                after_part
                  (value (skip_wsp cs))
                  (λ p rest. rounds sh value (suc (length rest)) 1 p rest)
          ]
        ])
    opened none s = tt
    opened (some cs) s =
        filled (skip_wsp cs) (match_char sh.closing (skip_wsp cs))
          (omega (arith, length-skip_wsp cs)) (match_char-Skips sh.closing (skip_wsp cs))

array-Closes : Closes array_shape
array-Closes k inner rest = omega arith

map-Closes : Closes map_shape
map-Closes k inner rest =
    if-lem (Passes (length rest)) (k % 2 == 0) (pushes _ rest) invalid (omega arith) tt

by_first-Passes :
    (from_chars : Bytes → Option ℕ) (value : Pusher) (n : ℕ) (bs : Bytes)
    → length bs - 1 ≤ n
    → Steps n value
    → Passes n (by_first from_chars value bs)
unfolding by_first push_json_array push_json_map
by_first-Passes from_chars value n [] h steps = tt
by_first-Passes from_chars value n (c ∷ cs) h steps =
    let s = c ∷ cs in
    case-Passes n ((leb 48 c && leb c 57) || c == 45) _ _
      (simple (push_json_number from_chars s) (push_json_number-Scans from_chars s))
      (case-Passes n (leb 97 c && leb c 122) _ _
        (simple (push_json_keyword s) (push_json_keyword-Scans s))
        (case-Passes n (c == 34) _ _ (simple (push_json_qstring s) (push_json_qstring-Scans s)) (
          case-Passes n (c == 91) _ _
            (container-Passes array_shape 91 value n s array-Closes steps h)
            (case-Passes n (c == 123) _ invalid
              (container-Passes map_shape 123 value n s map-Closes steps h) tt))))
  where
    simple : (o : Scanned) → Scans (suc (length cs) - 1) o → Passes n (scalar o)
    simple o l = scalar-Passes n o (Scans-mono (suc (length cs) - 1) n o h l)

pub push_json_value-Passes :
    (from_chars : Bytes → Option ℕ) (f : ℕ) (bs : Bytes)
    → length bs < f
    → Passes (length bs - 1) (push_json_value from_chars f bs)
unfolding push_json_value skip_wsp by_first
push_json_value-Passes from_chars zero bs hf = absurd (omega arith)
push_json_value-Passes from_chars (suc f) [] hf = tt
push_json_value-Passes from_chars (suc f) (b ∷ bs) hf =
    by_first-Passes from_chars (push_json_value from_chars f) (suc (length bs) - 1)
      (skip_wsp (b ∷ bs)) (omega (arith, length-skip_wsp (b ∷ bs)))
      λ cs l. push_json_value-Passes from_chars f cs (omega arith)

-- `push_json` of any text ends: it pushes a value, or throws.
pub push_json-ne-out_of_fuel :
    (from_chars : Bytes → Option ℕ) (s : Bytes) → push_json from_chars s ≢ out_of_fuel
unfolding push_json
push_json-ne-out_of_fuel from_chars s e =
    subst (Passes (length s - 1)) e
      (push_json_value-Passes from_chars (suc (length s)) s (omega arith))
