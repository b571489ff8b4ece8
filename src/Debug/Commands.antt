-- ===== src/Debug/Commands.antt =====
-- What a debug connection (`connection` of src/instance.cpp) does with a line, the calls that it waits
-- for, and the bytes that its socket has not written.
use thespian.Prelude.{
  ℕ, ◌≡◌, refl, sym, subst, Bool, true, false, ◌||◌, List, [], ◌∷◌, Option, none, some, ◌==◌,
  if◌then◌else◌, All,
}
use thespian.Cbor.Result.{Bytes}

-- `getword(str)`: the word before the first blank, and what is behind it.
unfoldable pub getword : Bytes → Bytes × Bytes
getword [] = ([], [])
getword (c ∷ cs) = let (word, rest) = getword cs in if c == 32 then ([], cs) else (c ∷ word, rest)

-- `if (not buf.empty() and buf.back() == '\r') buf.pop_back()`
unfoldable pub without_return : Bytes → Bytes
without_return [] = []
without_return (c ∷ []) = if c == 13 then [] else c ∷ []
without_return (c ∷ d ∷ cs) = let rest = without_return (d ∷ cs) in c ∷ rest

-- The character at `find_first_not_of(" \t")`.
unfoldable pub first_char : Bytes → Option ℕ
first_char [] = none
first_char (c ∷ cs) = let more = first_char cs in if c == 32 || c == 9 then more else some c

-- What `dispatch` does with a line: `dispatch_json`, the reply that an object is expected, nothing, or
-- `dispatch_text`.
pub data Command : Type 0 where
  dispatch_json : Bytes → Command
  expected_object : Command
  ignored : Command
  dispatch_text : Bytes → Command

abbrev no_object : Bool → Command → Command → Command
no_object true in_json in_text = in_json
no_object false in_json in_text = in_text

-- The new `json_mode`, and the command.
unfoldable pub dispatch : Bool → Bytes → Bool × Command
unfolding without_return first_char
dispatch json_mode buf =
    let line = without_return buf in
    elim (first_char line) [
      | none ↦ (json_mode, no_object json_mode ignored (dispatch_text line))
      | some c ↦
          if c == 123
          then (true, dispatch_json line)
          else (json_mode, no_object json_mode expected_object (dispatch_text line))
    ]

-- The commands of a series of lines.
unfoldable pub commands : Bool → List Bytes → List Command
unfolding dispatch
commands json_mode [] = []
commands json_mode (l ∷ ls) =
    let (json_mode', c) = dispatch json_mode l in c ∷ commands json_mode' ls

abbrev pub IsNotText : Command → Type 0
IsNotText (dispatch_text line) = ⊥
IsNotText _ = Unit

abbrev Stays : Bool × Command → Type 0
Stays p = (p.0 ≡ true) × IsNotText p.1

dispatch-Stays : (buf : Bytes) → Stays (dispatch true buf)
unfolding dispatch
dispatch-Stays buf = by_first (first_char (without_return buf))
  where
    object :
        (c : ℕ) (b : Bool)
        → Stays (if b then (true, dispatch_json (without_return buf)) else (true, expected_object))
    object c true = (refl, tt)
    object c false = (refl, tt)

    by_first :
        (o : Option ℕ)
        → Stays (elim o as (λ _. Bool × Command) [
          | none ↦ (true, ignored)
          | some c ↦
              if c == 123
              then (true, dispatch_json (without_return buf))
              else (true, expected_object)
        ])
    by_first none = (refl, tt)
    by_first (some c) = object c (c == 123)

-- Once a line was a JSON object, no line is run as a text command.
pub commands-IsNotText :
    (object : Bytes) (lines : List Bytes) (json_mode : Bool)
    → first_char (without_return object) ≡ some 123
    → All IsNotText (commands json_mode (object ∷ lines))
unfolding commands dispatch
commands-IsNotText object lines json_mode e = rw (e, commands, dispatch) (tt, stays lines)
  where
    stays : (ls : List Bytes) → All IsNotText (commands true ls)
    stays [] = tt
    stays (l ∷ ls) =
        let (mode, other) = dispatch-Stays l in
        (other, subst (λ b. All IsNotText (commands b ls)) (sym mode) (stays ls))

-- `take_call`: the id of a call, which is then no longer waited for; `none` is the null of a call that
-- is not known. The calls are sorted by their numbers.
unfoldable pub take_call : ℕ → List (ℕ × Bytes) → Option Bytes × List (ℕ × Bytes)
take_call seq [] = (none, [])
take_call seq ((n, id) ∷ calls) =
    let (found, rest) = take_call seq calls in
    if n == seq then (some id, calls) else (found, (n, id) ∷ rest)
