-- ===== src/Debug/Tests.antt =====
-- The registry and the taps at concrete states.
use thespian.Prelude.{ℕ, ◌≡◌, refl, Bool, true, false, List, [], ◌∷◌, ◌==◌, if◌then◌else◌, length}
use thespian.Prelude.Tests.{bytes_eq}
use thespian.Prelude.Text.{codes}
use thespian.Cbor.Result.{Bytes}
use thespian.Prelude.{none}
use thespian.Cbor.Decode.{decode_array_header, decode_type, decode_pint, decode_string, advance}
use thespian.Cbor.Scalar.{match_string}
use thespian.Actor.Messages.{concat}
use thespian.Actor.Send.{sent}
use thespian.Prelude.{not}
use thespian.Debug.Session.{Session, World}
use thespian.Debug.Dialogue.{
  State, line, report, Report, Run, here, next, opened, numbers, count, waiting_ids,
}
use thespian.Debug.Dialogue
use thespian.Debug.Balance.{Run-balance}
use thespian.Debug.Lines.{reads, lines_of, reads-lines_of}
use thespian.Prelude.{◌&&◌, ◌+◌, arith}
use thespian.Debug.Unwritten.{
  SocketOp, writes, acknowledges, ends, runs, fresh, reported, written, write_complete,
  write_complete-runs,
}
use thespian.Debug.Registry.{Registry, get_name}
use thespian.Debug.Taps.{Taps}
use thespian.Debug.TapCount.{Op, add, exit, applies, no_taps, applies-tap_count}

abbrev registry_of_two : Registry
registry_of_two = record { debug_enabled = 1; registry = (codes "a", 7) ∷ (codes "log", 3) ∷ [] }

abbrev all_but_three : ℕ → Bool
all_but_three a = if a == 3 then false else true

abbrev history : List Op
history =
    add (λ _. true) (codes "log") 3
    ∷ add (λ _. true) (codes "a") 4
    ∷ exit all_but_three (codes "log") []
    ∷ []

applies-tap_count_example :
    (applies history no_taps).tap_count ≡ length (applies history no_taps).taps
applies-tap_count_example = applies-tap_count history

abbrev one_tap : Taps
one_tap = record { taps = (codes "log", 3) ∷ []; tap_count = 1 }

-- "a\nb" and "c\n\nd"
abbrev two_reads : List Bytes
two_reads = (97 ∷ 10 ∷ 98 ∷ []) ∷ (99 ∷ 10 ∷ 10 ∷ 100 ∷ []) ∷ []

reads-lines_of_example : reads two_reads [] ≡ lines_of (concat two_reads)
unfolding lines_of
reads-lines_of_example = reads-lines_of two_reads [] (tt, (tt, tt)) refl

reads_run : reads two_reads [] ≡ ((97 ∷ []) ∷ (98 ∷ 99 ∷ []) ∷ [] ∷ [], 100 ∷ [])
unfolding reads
reads_run = refl

abbrev pong : Bytes
pong = 129 ∷ 100 ∷ codes "pong"

abbrev object_line : Bytes
object_line = codes " {}"

-- Two writes, of which a part is reported, and the wish to end.
abbrev ending : List SocketOp
ending = writes (codes "bye") ∷ acknowledges 2 ∷ writes (codes "!") ∷ ends ∷ []

write_complete-runs_example :
    (write_complete 2 (runs ending fresh)).0
    ≡ ((runs ending fresh).close_on_write_complete && (reported ending + 2 == written ending))
write_complete-runs_example = write_complete-runs ending 2 (omega arith, tt) (omega arith)

-- A connection to a context with one actor, named log, and one call of it that times out.
abbrev quiet_world : World
quiet_world = record {
  expired = λ h. not (h == 5);
  instance_name = λ h. codes "log";
  answer = λ h m. sent;
  spawn_error = none;
  from_chars = λ s. none;
  floats = record { is_finite = λ x. true; to_chars = λ x. [] };
  position = λ s. 0;
}

abbrev new_session : Session
new_session = record {
  prompt = codes "> ";
  self = 9;
  prev_buf = [];
  json_mode = false;
  writer = record { unwritten = 0; close_on_write_complete = false };
  next_call = 0;
  pending_calls = [];
  registry = record { debug_enabled = 1; registry = (codes "log", 5) ∷ [] };
  taps = no_taps;
}

abbrev call_line : Bytes
call_line = codes "{\"id\":7,\"cmd\":\"call\",\"to\":\"log\",\"msg\":[\"hi\"]}"

timed_out_call : State
timed_out_call =
    Dialogue.advance quiet_world (report 0 Report.timed_out)
      (Dialogue.advance quiet_world (line call_line) (opened new_session))

timed_out_run : Run (opened new_session) timed_out_call
unfolding timed_out_call Dialogue.advance thespian.Debug.Commands.dispatch
    thespian.Cbor.Json.Parse.push_json thespian.Cbor.Json.skip_wsp thespian.Debug.Fields.get_fields
    thespian.Cbor.Skip.match_type decode_type thespian.Cbor.Buffer.map_header
    thespian.Cbor.Buffer.push_typed_val thespian.Cbor.Skip.skip_value_type decode_pint
    thespian.Cbor.Skip.skip_value thespian.Cbor.Buffer.push_string advance
    thespian.Cbor.Buffer.push_int thespian.Cbor.Buffer.array_header thespian.Cbor.Kind.kind_eq
    thespian.Cbor.Decode.decode_range_header match_string bytes_eq get_name
    thespian.Debug.Fields.find thespian.Debug.Fields.require_string
    thespian.Debug.Fields.optional_int thespian.Cbor.Json.Number.push_number
    thespian.Cbor.Json.Number.from_chars_int thespian.Cbor.Json.Print.to_json
    thespian.Debug.Dialogue.holds thespian.Cbor.Buffer.push_bool thespian.Actor.Messages.concat
    thespian.Actor.Messages.null_value thespian.Cbor.Buffer.push_null
    thespian.Debug.Commands.take_call decode_string thespian.Debug.Answers.started
timed_out_run =
    next (next here quiet_world (line call_line) (omega arith) refl) quiet_world
      (report 0 Report.timed_out) refl refl

Run-balance_example :
    (numbers timed_out_call.session.pending_calls ≡ timed_out_call.open_calls)
    × ((id : Bytes)
        → count id timed_out_call.asked
          ≡ count id timed_out_call.answered
            + count id (waiting_ids timed_out_call.session.pending_calls))
Run-balance_example = Run-balance refl timed_out_run
