-- ===== src/Cbor/Json/Parse.antt =====
-- `push_json_array`, `push_json_map`, `push_json_value` and `push_json` (src/cbor.cpp). The calls of
-- `push_json_value` on the parts of an array or a map are nested by fuel, a unit for each level, and a
-- loop over the parts has a unit for each round.
use thespian.Prelude.{
  ℕ, zero, suc, ◌/◌, ◌%◌, Bool, true, false, ◌&&◌, ◌||◌, [], ◌∷◌, ◌++◌, Option, none, some, leb,
  ◌==◌, if◌then◌else◌, length,
}
use thespian.Cbor.Result.{Bytes}
use thespian.Cbor.Buffer.{array_header, map_header}
use thespian.Cbor.Json.{match_char, skip_wsp, push_json_keyword, push_json_qstring}
use thespian.Cbor.Json.Number.{push_json_number}

-- What is pushed, with the place behind it; a failure; or the end of the fuel.
pub data Outcome : Type 0 where
  pushes : Bytes → Bytes → Outcome
  invalid : Outcome
  out_of_fuel : Outcome

abbrev pub Pusher : Type 0
Pusher = Bytes → Outcome

abbrev pub scalar : Option (Bytes × Bytes) → Outcome
scalar none = invalid
scalar (some (p, rest)) = pushes p rest

-- Of a pushed part: what to do behind it.
abbrev pub after_part : Outcome → (Bytes → Bytes → Outcome) → Outcome
after_part (pushes p rest) k = k p rest
after_part invalid k = invalid
after_part out_of_fuel k = out_of_fuel

-- The loop on the count of the parts and on what they have pushed.
abbrev pub Loop : Type 0
Loop = ℕ → Bytes → Bytes → Outcome

-- What tells the loops of arrays and maps apart: the separators, the last character, and the end.
pub record Shape : Type 0 where
  pub separates : ℕ → Bool
  pub closing : ℕ
  pub close : ℕ → Bytes → Bytes → Outcome

-- A round; `loop` is the rounds behind it.
unfoldable pub round : Shape → Pusher → Loop → ℕ → Bytes → Bytes → Outcome
round sh value loop count inner [] = invalid
round sh value loop count inner (c ∷ cs) = elim (sh.separates c) [
  | true ↦ loop count inner (skip_wsp cs)
  | false ↦ elim (c == sh.closing) [
    | true ↦ sh.close count inner cs
    | false ↦ after_part (value (c ∷ cs)) (λ p rest. loop (suc count) (inner ++ p) rest)
  ]
]

unfoldable pub rounds : Shape → Pusher → ℕ → Loop
unfolding round
rounds sh value zero count inner bs = out_of_fuel
rounds sh value (suc f) count inner bs =
    round sh value (rounds sh value f) count inner (skip_wsp bs)

-- From the opening character on.
unfoldable pub container : Shape → ℕ → Pusher → Pusher
unfolding rounds
container sh opening value bs = elim (match_char opening bs) [
  | none ↦ invalid
  | some cs ↦ elim (match_char sh.closing (skip_wsp cs)) [
    | some rest ↦ sh.close 0 [] rest
    | none ↦
        after_part (value (skip_wsp cs)) (λ p rest. rounds sh value (suc (length rest)) 1 p rest)
  ]
]

abbrev pub array_shape : Shape
array_shape = record {
  separates = λ c. c == 44;
  closing = 93;
  close = λ count inner rest. pushes (array_header count ++ inner) rest;
}

abbrev pub map_shape : Shape
map_shape = record {
  separates = λ c. c == 58 || c == 44;
  closing = 125;
  close = λ count inner rest.
      if count % 2 == 0 then pushes (map_header (count / 2) ++ inner) rest else invalid;
}

unfoldable pub push_json_array : Pusher → Pusher
unfolding container
push_json_array value bs = container array_shape 91 value bs

unfoldable pub push_json_map : Pusher → Pusher
unfolding container
push_json_map value bs = container map_shape 123 value bs

-- By the first character; `value` is the calls on the parts. A `char` above 127 is negative in the
-- source: it stands in none of the ranges.
unfoldable pub by_first : (Bytes → Option ℕ) → Pusher → Bytes → Outcome
unfolding push_json_number push_json_keyword push_json_qstring push_json_array push_json_map
by_first from_chars value [] = invalid
by_first from_chars value (c ∷ cs) = elim ((leb 48 c && leb c 57) || c == 45) [
  | true ↦ scalar (push_json_number from_chars (c ∷ cs))
  | false ↦ elim (leb 97 c && leb c 122) [
    | true ↦ scalar (push_json_keyword (c ∷ cs))
    | false ↦ elim (c == 34) [
      | true ↦ scalar (push_json_qstring (c ∷ cs))
      | false ↦ elim (c == 91) [
        | true ↦ push_json_array value (c ∷ cs)
        | false ↦ elim (c == 123) [ true ↦ push_json_map value (c ∷ cs) | false ↦ invalid ]
      ]
    ]
  ]
]

unfoldable pub push_json_value : (Bytes → Option ℕ) → ℕ → Pusher
unfolding by_first
push_json_value from_chars zero bs = out_of_fuel
push_json_value from_chars (suc f) bs =
    by_first from_chars (push_json_value from_chars f) (skip_wsp bs)

-- What is pushed. The place where the value ends is not looked at; where there is no value, `invalid`
-- stands for the exception.
unfoldable pub push_json : (Bytes → Option ℕ) → Pusher
unfolding push_json_value
push_json from_chars s = push_json_value from_chars (suc (length s)) s
