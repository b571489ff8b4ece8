-- ===== src/Trace/Tests.antt =====
-- Channels and a trace file at concrete states.
use thespian.Prelude.{
  ◌++◌, ◌+◌, length, ◌∷◌, ◌≡◌, refl, false, not, [], none, map, arith, ◌==◌, if◌then◌else◌,
}
use thespian.Prelude.Text.{codes}
use thespian.Cbor.Result.{Bytes, Result, ok, err, expected_array}
use thespian.Cbor.Value
use thespian.Cbor.Value.{nil, cons, push_value}
use thespian.Cbor.Json.Print.{Floats}
use thespian.Cbor.Json.Printed.{json, to_json-push_value}
use thespian.Debug.Lines.{lines_of}
use thespian.Trace.Writers.{json_trace, to_mermaid, do_trace_raw, ref_value}
use thespian.Trace.Mermaid.{to_mermaid-do_trace_raw}
use thespian.Trace.JsonLines.{json_file, has_newline, Run-lines}
use thespian.Trace.Channels.{ChannelSet, Channel, number, disable, enabled, enabled-disable}
use thespian.Trace.File.{
  pushes, takes, writes, releases, Run, start, quiet, push, reverse, reverse_onto, contents,
  Run-whole, Run-contents, TraceFile, throws, Sub,
}

abbrev quiet_channels : ChannelSet
quiet_channels k = false

-- A channel that is disabled twice is enabled.
enabled-disable_example : enabled Channel.timer (disable Channel.timer quiet_channels) ≡ (
    if number Channel.timer == number Channel.timer
    then not (enabled Channel.timer quiet_channels)
    else enabled Channel.timer quiet_channels)
unfolding number
enabled-disable_example =
    enabled-disable Channel.timer Channel.timer quiet_channels (omega arith) (omega arith)

abbrev a_msg : Bytes
a_msg = codes "a"

abbrev b_msg : Bytes
b_msg = codes "b"

-- A text that only takes the message "a".
abbrev only_a : Bytes → Result Bytes
only_a [] = err expected_array
only_a (c ∷ cs) = if c == 97 then ok (c ∷ cs) else err expected_array

-- Two pushes, a thread that takes both, writes one and throws on the other, and a third push.
abbrev traced_file : TraceFile
traced_file = record { head = a_msg ∷ []; writing = none; file = a_msg ∷ []; lost = b_msg ∷ [] }

traced : Run only_a (a_msg ∷ b_msg ∷ a_msg ∷ []) traced_file
unfolding reverse reverse_onto
traced =
    push a_msg
      (quiet
        (quiet (quiet (push b_msg (push a_msg start (pushes a_msg)) (pushes b_msg)) (takes refl))
          (writes a_msg a_msg (b_msg ∷ []) refl refl))
        (throws b_msg [] expected_array refl refl))
      (pushes a_msg)

Run-contents_example :
    Sub (contents traced_file) (a_msg ∷ b_msg ∷ a_msg ∷ [])
    × (length (contents traced_file) + length traced_file.lost
        ≡ length (a_msg ∷ b_msg ∷ a_msg ∷ []))
Run-contents_example = Run-contents only_a traced

abbrev no_floats : Floats
no_floats = record { is_finite = λ x. false; to_chars = λ x. [] }

-- One message that is written.
json_trace-seven : (t : Bytes) × (json_trace no_floats (push_value (Value.uint 7)) ≡ ok t)
unfolding json_trace
json_trace-seven = (
  json no_floats (Value.uint 7) ++ (10 ∷ []),
  rw (to_json-push_value no_floats (Value.uint 7) (omega arith)) refl,
)

traced_seven :
    Run
      (json_trace no_floats)
      (map push_value (Value.uint 7 ∷ []))
      (record { head = []; writing = none; file = push_value (Value.uint 7) ∷ []; lost = [] })
unfolding reverse reverse_onto
traced_seven =
    quiet
      (quiet
        (quiet (push (push_value (Value.uint 7)) start (pushes (push_value (Value.uint 7))))
          (takes refl))
        (writes (push_value (Value.uint 7)) json_trace-seven.0 [] refl json_trace-seven.1))
      (releases refl)

Run-whole_example :
    contents
      (record { head = []; writing = none; file = push_value (Value.uint 7) ∷ []; lost = [] })
    ≡ map push_value (Value.uint 7 ∷ [])
Run-whole_example =
    Run-whole (json_trace no_floats) traced_seven
      ((λ e w. let x = rw (json_trace-seven.1) at w in cc), tt)

Run-lines_example :
    (t : Bytes) × (json_file no_floats (push_value (Value.uint 7) ∷ []) ≡ ok t)
    × (lines_of t ≡ (map (json no_floats) (Value.uint 7 ∷ []), []))
unfolding has_newline
Run-lines_example =
    Run-lines no_floats (λ x. refl) (Value.uint 7 ∷ []) (omega arith, tt) traced_seven refl refl

to_mermaid-do_trace_raw_example :
    to_mermaid no_floats (
      push_value (
        do_trace_raw 0 1 3 2
          (cons (ref_value 9 (codes "a")) (cons (Value.text (codes "run")) nil))))
    ≡ err expected_array
unfolding do_trace_raw ref_value
to_mermaid-do_trace_raw_example =
    to_mermaid-do_trace_raw no_floats 0 1 3 2
      (cons (ref_value 9 (codes "a")) (cons (Value.text (codes "run")) nil)) (omega arith)
