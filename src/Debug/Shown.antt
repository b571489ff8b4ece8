-- ===== src/Debug/Shown.antt =====
-- What a debug connection reads, has written, or shows answers no command.
use thespian.Prelude.{◌≡◌, refl, Bool, true, false, List, [], ◌∷◌, if◌then◌else◌, arith}
use thespian.Prelude.Int.{ℤ}
use thespian.Prelude.Text.{codes}
use thespian.Cbor.Result.{Bytes, Result, ok, err, out_of_fuel}
use thespian.Cbor.Json.Print.{to_json}
use thespian.Debug.Lines
use thespian.Debug.Unwritten
use thespian.Debug.Session.{
  Session, World, writes, close_socket, goes_on, Activation, finish, newline, throws, stuck,
}
use thespian.Actor.Messages.{what}
use thespian.Debug.Reports.{
  on_tap, on_message, write_json, tap_report, tap_line, message_report, shown_name,
}
use thespian.Debug.Receive.{on_read, on_written, line_effects, written_of}
use thespian.Debug.Answers.{
  answered_ids, started, IsQuiet, finish-quiet, Leaves, dead, Gives-Keeps, if-Leaves,
}

line_effects-IsQuiet : (es : List Lines.Effect) → IsQuiet (line_effects es)
unfolding answered_ids started
line_effects-IsQuiet [] = (refl, refl)
line_effects-IsQuiet (Lines.Effect.dispatch line ∷ es) = line_effects-IsQuiet es
line_effects-IsQuiet (Lines.Effect.read_socket ∷ es) = line_effects-IsQuiet es
line_effects-IsQuiet (Lines.Effect.close_socket ∷ es) = line_effects-IsQuiet es

pub on_read-Gives : (buf : Bytes) (s : Session) → Leaves [] [] s (on_read buf s)
unfolding on_read
on_read-Gives buf s _ =
    let (es, left) = Lines.read_complete buf s.prev_buf in
    Gives-Keeps (refl, omega arith)
      (finish-quiet (record s { prev_buf = left }) (line_effects es) goes_on
        (line_effects-IsQuiet es))

closing-IsQuiet : (b : Bool) → IsQuiet (if b then close_socket ∷ [] else [])
unfolding answered_ids started
closing-IsQuiet true = (refl, refl)
closing-IsQuiet false = (refl, refl)

pub on_written-Gives : (n : ℤ) (s : Session) → Leaves [] [] s (on_written n s)
unfolding on_written
on_written-Gives n s _ =
    let (closes, v) = Unwritten.write_complete (written_of s n) s.writer in
    Gives-Keeps (refl, omega arith)
      (finish-quiet (record s { writer = v }) (if closes then close_socket ∷ [] else []) goes_on
        (closing-IsQuiet closes))

write_json-Gives : (w : World) (b : Bytes) (s : Session) → Leaves [] [] s (write_json w b s)
unfolding write_json finish answered_ids started
write_json-Gives w b s = printed (to_json w.floats b) refl
  where
    printed : (r : Result Bytes) → to_json w.floats b ≡ r → Leaves [] [] s (write_json w b s)
    printed (ok line) p =
        rw (p, write_json)
          (λ _. finish-quiet s (writes line ∷ writes newline ∷ []) goes_on (refl, refl))
    printed (err e) p = rw (p, write_json) dead
    printed out_of_fuel p = rw (p, write_json) dead

pub on_tap-Gives :
    (w : World) (name dir peer r : Bytes) (s : Session)
    → Leaves [] [] s (on_tap w name dir peer r s)
unfolding on_tap finish answered_ids started
on_tap-Gives w name dir peer r s =
    if-Leaves s.json_mode (write_json w (tap_report name dir peer r) s) _
      (write_json-Gives w (tap_report name dir peer r) s) (in_text (to_json w.floats r))
  where
    in_text :
        (x : Result Bytes)
        → Leaves [] [] s (elim x as (λ _. Activation) [
          | ok json ↦ finish s (writes (tap_line name dir peer json) ∷ writes newline ∷ []) goes_on
          | err e ↦ finish s [] (throws (what e))
          | out_of_fuel ↦ finish s [] stuck
        ])
    in_text (ok json) = λ _.
        finish-quiet s (writes (tap_line name dir peer json) ∷ writes newline ∷ []) goes_on
          (refl, refl)
    in_text (err e) = dead
    in_text out_of_fuel = dead

pub on_message-Gives :
    (w : World) (sender m : Bytes) (s : Session) → Leaves [] [] s (on_message w sender m s)
unfolding on_message finish answered_ids started
on_message-Gives w sender m s =
    if-Leaves s.json_mode (write_json w (message_report (shown_name sender) m) s) _
      (write_json-Gives w (message_report (shown_name sender) m) s) (in_text (to_json w.floats m))
  where
    in_text :
        (x : Result Bytes)
        → Leaves [] [] s (elim x as (λ _. Activation) [
          | ok json ↦
              finish s
                (writes (shown_name sender)
                  ∷ writes (codes " ")
                  ∷ writes json
                  ∷ writes newline
                  ∷ [])
                goes_on
          | err e ↦
              finish s (writes (shown_name sender) ∷ writes (codes " ") ∷ []) (throws (what e))
          | out_of_fuel ↦ finish s [] stuck
        ])
    in_text (ok json) = λ _.
        finish-quiet s
          (writes (shown_name sender) ∷ writes (codes " ") ∷ writes json ∷ writes newline ∷ [])
          goes_on (refl, refl)
    in_text (err e) = dead
    in_text out_of_fuel = dead
