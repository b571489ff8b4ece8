-- ===== src/Trace/JsonLines.antt =====
-- A JSON trace file has one line for each message.
use thespian.Prelude.{
  ℕ, zero, suc, ◌+◌, ◌/◌, ◌%◌, ◌≡◌, refl, sym, ap, ◌∙◌, Bool, true, false, List, [], ◌∷◌, ◌++◌,
  none, ltb, ◌==◌, if◌then◌else◌, map, All, arith, Bool-cases, inl, inr, append-nil, append_assoc,
}
use thespian.Prelude.Text.{codes}
use thespian.Cbor.Result.{Bytes, Result, ok, ◌>>=◌}
use thespian.Cbor.Scalar.{Floating}
use thespian.Cbor.Value.{Value, Values, nil, cons, count, push_value, IsValid}
use thespian.Cbor.Json.Number.{decimal_of, decimal}
use thespian.Cbor.Json.Print.{
  Floats, tohex, escaped, all_escaped, string_to_json, int_to_json, float_to_json, has_point, comma,
}
use thespian.Cbor.Json.Printed.{json, parts_json, pairs_json, to_json-push_value}
use thespian.Debug.Lines.{lines_of}
use thespian.Trace.File.{TraceFile, Run, Run-whole, IsTraced, reverse, reverse_onto}
use thespian.Trace.Writers.{json_trace}

-- What the messages of a file come to, one behind the other.
unfoldable pub json_file : Floats → List Bytes → Result Bytes
unfolding json_trace
json_file floats [] = ok []
json_file floats (m ∷ ms) = do
  line ← json_trace floats m
  rest ← json_file floats ms
  ok (line ++ rest)

unfoldable pub has_newline : Bytes → Bool
has_newline [] = false
has_newline (c ∷ cs) = let rest = has_newline cs in if c == 10 then true else rest

abbrev pub IsLine : Bytes → Type 0
IsLine s = has_newline s ≡ false

append-IsLine : (xs ys : Bytes) → IsLine xs → IsLine ys → IsLine (xs ++ ys)
unfolding has_newline
append-IsLine [] ys hx hy = hy
append-IsLine (c ∷ xs) ys hx hy = ground (arith, append-IsLine xs ys)

decimal_of-IsLine : (f n : ℕ) → IsLine (decimal_of f n)
unfolding decimal_of has_newline
decimal_of-IsLine zero n = ground arith
decimal_of-IsLine (suc f) n = elim (Bool-cases (ltb n 10)) [
  | inl e ↦ rw (e, decimal_of) (ground arith)
  | inr e ↦
      rw (e, decimal_of)
        (append-IsLine (decimal_of f (n / 10)) ((48 + n % 10) ∷ []) (decimal_of-IsLine f (n / 10))
          (ground arith))
]

decimal-IsLine : (n : ℕ) → IsLine (decimal n)
unfolding decimal
decimal-IsLine n = decimal_of-IsLine n n

escaped-IsLine : (c : ℕ) → IsLine (escaped c)
unfolding escaped tohex has_newline
escaped-IsLine c = ground arith

all_escaped-IsLine : (s : Bytes) → IsLine (all_escaped s)
unfolding all_escaped has_newline
all_escaped-IsLine [] = refl
all_escaped-IsLine (c ∷ s) =
    append-IsLine (escaped c) (all_escaped s) (escaped-IsLine c) (all_escaped-IsLine s)

string_to_json-IsLine : (s : Bytes) → IsLine (string_to_json s)
unfolding string_to_json has_newline
string_to_json-IsLine s = append-IsLine (all_escaped s) (34 ∷ []) (all_escaped-IsLine s) refl

module _ (floats : Floats) (plain : (x : Floating) → IsLine (floats.to_chars x)) where
  float_to_json-IsLine : (x : Floating) → IsLine (float_to_json floats x)
  unfolding float_to_json has_newline
  float_to_json-IsLine x = by_kind (floats.is_finite x) (has_point (floats.to_chars x))
    where
      by_kind :
          (finite pointed : Bool)
          → IsLine (
              if finite
              then (if pointed then floats.to_chars x else floats.to_chars x ++ codes ".0")
              else codes "null")
      by_kind true true = plain x
      by_kind true false = append-IsLine (floats.to_chars x) (codes ".0") (plain x) refl
      by_kind false p = refl

  comma-IsLine : (n : ℕ) → IsLine (comma n)
  unfolding has_newline
  comma-IsLine zero = refl
  comma-IsLine (suc n) = refl

  mutual
    unfolding json parts_json pairs_json has_newline int_to_json

    json-IsLine : (v : Value) → IsLine (json floats v)
    json-IsLine (Value.uint n) = decimal-IsLine n
    json-IsLine (Value.nint n) = decimal-IsLine (suc n)
    json-IsLine (Value.text s) = string_to_json-IsLine s
    json-IsLine (Value.bool true) = refl
    json-IsLine (Value.bool false) = refl
    json-IsLine Value.null = refl
    json-IsLine (Value.float bits) = float_to_json-IsLine (Floating.single bits)
    json-IsLine (Value.double bits) = float_to_json-IsLine (Floating.double bits)
    json-IsLine (Value.array vs) =
        append-IsLine (parts_json floats vs) (93 ∷ []) (parts-IsLine vs) refl
    json-IsLine (Value.map vs) =
        append-IsLine (pairs_json floats vs) (125 ∷ []) (pairs-IsLine vs) refl

    parts-IsLine : (vs : Values) → IsLine (parts_json floats vs)
    parts-IsLine nil = refl
    parts-IsLine (cons v vs) =
        append-IsLine (json floats v) (comma (count vs) ++ parts_json floats vs) (json-IsLine v) (
          append-IsLine (comma (count vs)) (parts_json floats vs) (comma-IsLine (count vs))
            (parts-IsLine vs))

    pairs-IsLine : (vs : Values) → IsLine (pairs_json floats vs)
    pairs-IsLine nil = refl
    pairs-IsLine (cons k nil) = refl
    pairs-IsLine (cons k (cons v vs)) =
        append-IsLine (json floats k)
          (58 ∷ (json floats v ++ (comma (count vs / 2) ++ pairs_json floats vs))) (json-IsLine k)
          (append-IsLine (json floats v) (comma (count vs / 2) ++ pairs_json floats vs)
            (json-IsLine v)
            (append-IsLine (comma (count vs / 2)) (pairs_json floats vs)
              (comma-IsLine (count vs / 2)) (pairs-IsLine vs)))

-- A line, its end, and what follows.
abbrev and_line : Bytes → List Bytes × Bytes → List Bytes × Bytes
and_line l (ls, left) = (l ∷ ls, left)

lines_of-line :
    (l rest : Bytes) → IsLine l → lines_of (l ++ (10 ∷ rest)) ≡ and_line l (lines_of rest)
unfolding lines_of has_newline
lines_of-line [] rest h = refl
lines_of-line (c ∷ l) rest h = elim (Bool-cases (c == 10)) [
  | inl e ↦ absurd (ground (arith, h))
  | inr e ↦ rw (e, lines_of) (rw (lines_of-line l rest (ground (arith, h))) refl)
]

module _ (floats : Floats) (plain : (x : Floating) → IsLine (floats.to_chars x)) where
  json_file-lines :
      (vs : List Value)
      → All IsValid vs
      → (t : Bytes) × (json_file floats (map push_value vs) ≡ ok t)
        × (lines_of t ≡ (map (json floats) vs, []))
  unfolding json_file json_trace
  json_file-lines [] h = ([], refl, unfold lines_of in refl)
  json_file-lines (v ∷ vs) h =
      let (t, read, lines) = json_file-lines vs h.1 in
      (
        json floats v ++ (10 ∷ t),
        rw (to_json-push_value floats v h.0, read)
            (ap ok (append_assoc (json floats v) (10 ∷ []) t)),
        lines_of-line (json floats v) t (json-IsLine floats plain v)
            ∙ ap (and_line (json floats v)) lines,
      )

  traced :
      (vs : List Value) → All IsValid vs → All (IsTraced (json_trace floats)) (map push_value vs)
  unfolding json_trace
  traced [] h = tt
  traced (v ∷ vs) h =
      (λ e w. let x = rw (to_json-push_value floats v h.0) at w in cc, traced vs h.1)

  -- However the threads are interleaved that push traces to a JSON file, once all is written the file has
  -- one line for each message, in the order of the pushes, and this line is the JSON of the message. The
  -- messages are those of valid values, and the library writes no newline in a float.
  pub Run-lines :
      (vs : List Value) {s : TraceFile}
      → All IsValid vs
      → Run (json_trace floats) (map push_value vs) s
      → s.head ≡ []
      → s.writing ≡ none
      → (t : Bytes) × (json_file floats s.file ≡ ok t) × (lines_of t ≡ (map (json floats) vs, []))
  unfolding reverse reverse_onto
  Run-lines vs {s} h run empty idle =
      let whole : s.file ≡ map push_value vs =
        sym (append-nil s.file)
        ∙ (rw (empty, idle) at (Run-whole (json_trace floats) run (traced vs h))) in
      let (t, read, lines) = json_file-lines vs h in (t, ap (json_file floats) whole ∙ read, lines)
