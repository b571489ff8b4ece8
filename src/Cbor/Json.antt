-- ===== src/Cbor/Json.antt =====
-- The scanner of `push_json` in src/cbor.cpp: white space, literals, digits, keywords and strings. An
-- iterator is the list of the characters from it on. What returns false gives `none`, and `push_json`
-- then throws; the place in its text is left out.
pub mod Number
pub mod Parse
pub mod Print
pub mod Printed
pub mod Decimals
pub mod ReadNumber
pub mod ReadString
pub mod ReadParts
pub mod RoundTrip
pub mod Paths
pub mod Scans
pub mod Total
pub mod PrintTotal
mod Tests
use thespian.Prelude.{
  ℕ, ◌≡◌, refl, sym, ap, ◌∙◌, Bool, true, false, ◌||◌, [], ◌∷◌, Option, none, some, leb, ◌==◌,
  if◌then◌else◌, Bool-cases, Option-cases, inl, inr, ◌⊎◌,
}
use thespian.Prelude.Text.{codes}
use thespian.Cbor.Result.{Bytes}
use thespian.Cbor.Buffer.{push_string, push_bool, push_null}

abbrev is_wsp_char : ℕ → Bool
is_wsp_char c = c == 32 || c == 9 || c == 13 || c == 10

unfoldable pub match_wsp_char : Bytes → Option Bytes
match_wsp_char [] = none
match_wsp_char (c ∷ cs) = if is_wsp_char c then some cs else none

unfoldable pub skip_wsp : Bytes → Bytes
skip_wsp [] = []
skip_wsp (c ∷ cs) = let rest = skip_wsp cs in if is_wsp_char c then rest else c ∷ cs

unfoldable pub match_char : ℕ → Bytes → Option Bytes
match_char c [] = none
match_char c (b ∷ bs) = if b == c then some bs else none

unfoldable pub match_literal : Bytes → Bytes → Option Bytes
unfolding match_char
match_literal [] bs = some bs
match_literal (c ∷ str) [] = none
match_literal (c ∷ str) (b ∷ bs) = let rest = match_literal str bs in if b == c then rest else none

-- The digits, and what follows them.
unfoldable pub match_digits : Bytes → Bytes × Bytes
match_digits [] = ([], [])
match_digits (c ∷ cs) =
    let (ds, rest) = match_digits cs in
    if leb 48 c then (if leb c 57 then (c ∷ ds, rest) else ([], c ∷ cs)) else ([], c ∷ cs)

-- What is pushed, and what follows.
unfoldable pub push_json_keyword : Bytes → Option (Bytes × Bytes)
unfolding match_literal
push_json_keyword bs = elim (match_literal (codes "false") bs) [
  | some rest ↦ some (push_bool false, rest)
  | none ↦ elim (match_literal (codes "true") bs) [
    | some rest ↦ some (push_bool true, rest)
    | none ↦ elim (match_literal (codes "null") bs) [
      | some rest ↦ some (push_null, rest)
      | none ↦ none
    ]
  ]
]

-- The character that stands behind a backslash.
abbrev escape_char : ℕ → ℕ
escape_char c =
    if c == 98
    then 8
    else if c == 102
    then 12
    else if c == 110
    then 10
    else if c == 114
    then 13
    else if c == 116
    then 9
    else c

abbrev pub prepend : ℕ → Option (Bytes × Bytes) → Option (Bytes × Bytes)
prepend c none = none
prepend c (some (s, rest)) = some (c ∷ s, rest)

-- The loop of the slow path; the first argument tells that a backslash was read.
unfoldable pub unescape : Bool → Bytes → Option (Bytes × Bytes)
unescape b [] = none
unescape true (c ∷ cs) = prepend (escape_char c) (unescape false cs)
unescape false (c ∷ cs) =
    let rest = unescape (c == 92) cs in
    if c == 92 then rest else if c == 34 then some ([], cs) else prepend c rest

abbrev pub pushed : Option (Bytes × Bytes) → Option (Bytes × Bytes)
pushed none = none
pushed (some (s, rest)) = some (push_string s, rest)

unfoldable pub push_json_qstring_slow : Bytes → Option (Bytes × Bytes)
unfolding unescape match_char
push_json_qstring_slow bs = elim (match_char 34 bs) [
  | none ↦ none
  | some cs ↦ pushed (unescape false cs)
]

-- What the scan finds: no end, a backslash, or the string and what follows its quote.
pub data Scan : Type 0 where
  unterminated : Scan
  is_escaped : Scan
  closed : Bytes → Bytes → Scan

abbrev pub longer : ℕ → Scan → Scan
longer c (closed s rest) = closed (c ∷ s) rest
longer c r = r

unfoldable pub scan : Bytes → Scan
scan [] = unterminated
scan (c ∷ cs) =
    let r = scan cs in if c == 92 then is_escaped else if c == 34 then closed [] cs else longer c r

unfoldable pub scan_json_qstring : Bytes → Scan
unfolding scan match_char
scan_json_qstring bs = elim (match_char 34 bs) [ none ↦ unterminated | some cs ↦ scan cs ]

unfoldable pub push_json_qstring : Bytes → Option (Bytes × Bytes)
unfolding scan_json_qstring
push_json_qstring bs = elim (scan_json_qstring bs) [
  | unterminated ↦ none
  | is_escaped ↦ push_json_qstring_slow bs
  | closed s rest ↦ some (push_string s, rest)
]
