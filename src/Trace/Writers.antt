-- ===== src/Trace/Writers.antt =====
-- What the writers of src/trace.cpp print for a message, and the messages that an instance traces
-- (`do_trace_raw`, `do_trace_to`, `do_trace_links` of src/instance.cpp).
use thespian.Prelude.{ℕ, Bool, List, [], ◌∷◌, ◌++◌, Option, none, some, if◌then◌else◌, bytes_eq}
use thespian.Prelude.Text.{codes}
use thespian.Cbor.Kind.{Kind}
use thespian.Cbor.Result.{Bytes, Result, ok, ◌>>=◌}
use thespian.Cbor.Match.{
  Extracted, Patterns, is, extract_string, extract_range, A, last, next, match_message,
}
use thespian.Cbor.Value.{Value, Values, nil, cons}
use thespian.Cbor.Json.Print.{Floats, to_json}
use thespian.Actor.Messages.{array, text}

-- `array("\n")`
unfoldable pub cbor_cr : Bytes
cbor_cr = array (text (codes "\n") ∷ [])

-- `on_trace` of the three files; what it throws is an error, and what it has printed before is left out.
unfoldable pub cbor_trace : Bytes → Bytes
unfolding cbor_cr
cbor_trace msg = msg ++ cbor_cr

unfoldable pub json_trace : Floats → Bytes → Result Bytes
json_trace floats msg = do s ← to_json floats msg; ok (s ++ (10 ∷ []))

-- The first line of a mermaid file.
unfoldable pub mermaid_start : Bytes
mermaid_start = codes "sequenceDiagram\n"

abbrev or_unknown : Bytes → Bytes
or_unknown [] = codes "UNKNOWN"
or_unknown (c ∷ cs) = c ∷ cs

-- `A(any, any, extract(s))`, an actor by its name.
abbrev pub actor : Patterns
actor = next (is Kind.any) (next (is Kind.any) (last extract_string))

-- One `if (m(...))` of `to_mermaid`.
abbrev when_match : Bytes → Patterns → (List Extracted → Result Bytes) → Result Bytes
when_match m ps f = match_message ps m >>= λ r. elim r [ none ↦ ok [] | some xs ↦ f xs ]

unfoldable pub sent_line : Floats → Bytes → Bytes → Result Bytes
sent_line floats from m =
    when_match m (next (is Kind.any) (next (is Kind.any) (next (A actor) (last extract_range))))
      (λ xs. elim xs [
        | Extracted.text to ∷ Extracted.range msg ∷ _ ↦ to_json floats msg >>= λ s. ok (
            codes "    "
            ++ (from ++ (codes "->>" ++ (to ++ (codes ": send " ++ (s ++ codes "\n"))))))
        | _ ↦ ok []
      ])

unfoldable pub link_line : Bytes → Bytes → Result Bytes
link_line from m = when_match m (next (is Kind.any) (next (is Kind.any) (last (A actor)))) (λ xs.
    elim xs [
      | Extracted.text to ∷ _ ↦
          ok (codes "    " ++ (from ++ (codes "-->>" ++ (to ++ codes ": create link\n"))))
      | _ ↦ ok []
    ])

unfoldable pub exit_line : Bytes → Bytes → Result Bytes
exit_line from m =
    when_match m
      (next (is Kind.any) (
        next (is Kind.any)
          (last (A (next (is Kind.any) (next extract_string (last (is Kind.more))))))))
      (λ xs. elim xs [
        | Extracted.text msg ∷ _ ↦
            ok (codes "    Note right of " ++ (from ++ (codes ": EXIT " ++ (msg ++ codes "\n"))))
        | _ ↦ ok []
      ])

unfoldable pub mermaid_line : Floats → Bytes → Bytes → Bytes → Result Bytes
unfolding sent_line link_line exit_line
mermaid_line floats from typ m =
    if bytes_eq typ (codes "spawn")
    then ok (codes "    Note right of " ++ (from ++ codes ": SPAWN\n"))
    else if bytes_eq typ (codes "receive")
    then ok []
    else if bytes_eq typ (codes "run")
    then ok (codes "    activate " ++ (from ++ codes "\n"))
    else if bytes_eq typ (codes "sleep")
    then ok (codes "    deactivate " ++ (from ++ codes "\n"))
    else if bytes_eq typ (codes "send")
    then sent_line floats from m
    else if bytes_eq typ (codes "link")
    then link_line from m
    else if bytes_eq typ (codes "exit")
    then exit_line from m
    else ok []

unfoldable pub to_mermaid : Floats → Bytes → Result Bytes
unfolding mermaid_line
to_mermaid floats m =
    when_match m (next (A actor) (next extract_string (last (is Kind.more)))) (λ xs. elim xs [
      | Extracted.text from ∷ Extracted.text typ ∷ _ ↦ mermaid_line floats (or_unknown from) typ m
      | _ ↦ ok []
    ])

-- `do_trace_raw(parms...)`: the counts of the executor, of the active instances and of the references to
-- this one come first.
unfoldable pub do_trace_raw : ℕ → ℕ → ℕ → ℕ → Values → Value
do_trace_raw pending posts active use_count parms = Value.array (
    cons (Value.uint pending)
      (cons (Value.uint posts) (cons (Value.uint active) (cons (Value.uint use_count) parms))))

-- `ref_m` as a value.
unfoldable pub ref_value : ℕ → Bytes → Value
ref_value id name =
    Value.array
      (cons (Value.text (codes "PID")) (cons (Value.uint id) (cons (Value.text name) nil)))

-- `do_trace(c, parms...)` and `do_trace_to(c, tag, to, parms...)`, where the channel is enabled or not;
-- `counts` is `do_trace_raw` at the time of the call, and `self` and `to` are given by `ref_m`.
unfoldable pub do_trace : Bool → (Values → Value) → Value → Values → Option Value
do_trace enabled counts self parms = if enabled then some (counts (cons self parms)) else none

unfoldable pub do_trace_to : Bool → (Values → Value) → Value → Bytes → Value → Values → Option Value
do_trace_to enabled counts self tag to parms =
    if enabled then some (counts (cons self (cons (Value.text tag) (cons to parms)))) else none

-- The names of the linked actors that live; a name is `none` for one that does not.
unfoldable pub link_names : List (Option Bytes) → Values
link_names [] = nil
link_names (none ∷ ls) = link_names ls
link_names (some name ∷ ls) = cons (Value.text name) (link_names ls)

unfoldable pub do_trace_links : Bool → (Values → Value) → Value → List (Option Bytes) → Option Value
unfolding link_names
do_trace_links enabled counts self links =
    if enabled
    then some (
        counts (
          cons self
            (cons (Value.text (codes "links")) (cons (Value.array (link_names links)) nil))))
    else none
