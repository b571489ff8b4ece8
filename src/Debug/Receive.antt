-- ===== src/Debug/Receive.antt =====
-- `connection::receive` of src/instance.cpp: all that a debug connection does with a message.
use thespian.Prelude.{ℕ, true, List, [], ◌∷◌, ◌++◌, if◌then◌else◌}
use thespian.Prelude.Int.{ℤ, pos, negsuc}
use Prim.Native.String.{String}
use thespian.Prelude.Text.{codes}
use thespian.Cbor.Result.{Bytes, Error}
use thespian.Cbor.Match.{
  Extracted, Patterns, extract_int, extract_uint, extract_string, extract_range, last, next,
}
use thespian.Cbor.Dispatch.{when, word}
use thespian.Actor.Messages.{text, what, null_value, exit_message}
use thespian.Debug.Taps.{tap_remove}
use thespian.Debug.Commands.{Command, dispatch_json, expected_object, ignored, take_call}
use thespian.Debug.Commands
use thespian.Debug.Lines
use thespian.Debug.Unwritten
use thespian.Debug.Session.{
  Session, World, Effect, writes, to_self, read_socket, close_socket, Ending, goes_on, says_bye,
  throws, exits, Activation, finish, live, dispatch_text,
}
use thespian.Debug.Reports.{on_call_reply, on_call_timeout, on_call_error, on_tap, on_message}
use thespian.Debug.Json.{reply_error, run_json}

-- The prompt follows a text command that goes on.
unfoldable pub prompted : Ending → Activation → Activation
prompted goes_on a =
    let b = finish a.session (writes a.session.prompt ∷ []) goes_on in
    record b { effects = a.effects ++ b.effects }
prompted _ a = a

unfoldable pub then_prompt : Activation → Activation
unfolding prompted
then_prompt a = prompted a.ending a

-- What `Commands.dispatch` finds is done.
unfoldable pub run_command : World → Command → Session → Activation
unfolding run_json then_prompt dispatch_text reply_error
run_command w (dispatch_json line) s = run_json w line s
run_command w expected_object s = reply_error w null_value (codes "expected a JSON object") s []
run_command w ignored s = finish s [] goes_on
run_command w (Command.dispatch_text line) s = then_prompt (dispatch_text w line s)

unfoldable pub dispatch : World → Bytes → Session → Activation
unfolding run_command
dispatch w buf s =
    let (mode, c) = Commands.dispatch s.json_mode buf in
    run_command w c (record s { json_mode = mode })

-- The branch of `dispatch`: `bye` waits for what is not written.
unfoldable pub on_bye : Ending → Activation → Activation
on_bye says_bye a = record a {
  session = record a.session {
    writer = record (a.session.writer) { close_on_write_complete = true };
  };
  ending = goes_on;
}
on_bye _ a = a

unfoldable pub on_dispatch : World → Bytes → Session → Activation
unfolding dispatch on_bye
on_dispatch w buf s = let a = dispatch w buf s in on_bye a.ending a

abbrev pub line_effect : Lines.Effect → Effect
line_effect (Lines.Effect.dispatch line) = to_self line
line_effect Lines.Effect.read_socket = read_socket
line_effect Lines.Effect.close_socket = close_socket

abbrev pub line_effects : List Lines.Effect → List Effect
line_effects [] = []
line_effects (e ∷ es) = line_effect e ∷ line_effects es

unfoldable pub on_read : Bytes → Session → Activation
on_read buf s =
    let (es, left) = Lines.read_complete buf s.prev_buf in
    finish (record s { prev_buf = left }) (line_effects es) goes_on

-- `static_cast<size_t>(written)`: a negative number is larger than all that is unwritten.
abbrev pub written_of : Session → ℤ → ℕ
written_of s (pos n) = n
written_of s (negsuc n) = s.writer.unwritten

unfoldable pub on_written : ℤ → Session → Activation
on_written n s =
    let (closes, v) = Unwritten.write_complete (written_of s n) s.writer in
    finish (record s { writer = v }) (if closes then close_socket ∷ [] else []) goes_on

abbrev details : Bytes → List Bytes
details [] = []
details (c ∷ cs) = text (c ∷ cs) ∷ []

-- `shutdown(reason, msg)`
unfoldable pub shutdown : World → Bytes → Bytes → Session → Activation
shutdown w reason msg s =
    let t = (tap_remove (live w) [] s.self s.taps).1 in
    finish (record s { taps = t }) [] (exits (exit_message reason (details msg)))

-- The last branches: the taps, and any other message.
unfoldable pub receive_other : World → Bytes → Bytes → Session → Activation
unfolding on_tap on_message
receive_other w sender m s =
    when (λ e. finish s [] (throws (what e))) m
      (next (word "debug_tap")
        (next extract_string (next extract_string (next extract_string (last extract_range)))))
      (λ xs. elim xs [
        | Extracted.text name ∷ Extracted.text dir ∷ Extracted.text peer ∷ Extracted.range r ∷ _ ↦
            on_tap w name dir peer r s
        | _ ↦ on_message w sender m s
      ])
      (on_message w sender m s)

-- The reports of the calls.
unfoldable pub receive_call : World → Bytes → Bytes → Session → Activation
unfolding on_call_reply on_call_timeout on_call_error receive_other
receive_call w sender m s =
    let raise = λ (e : Error). finish s [] (throws (what e)) in
    let other = receive_other w sender m s in
    when raise m
      (next (word "debug_call_reply")
        (next (extract_uint 64) (next extract_string (last extract_range))))
      (λ xs. elim xs [
        | Extracted.uint seq ∷ Extracted.text name ∷ Extracted.range r ∷ _ ↦
            on_call_reply w seq name r s
        | _ ↦ other
      ])
      (when raise m (next (word "debug_call_timeout") (last (extract_uint 64)))
        (λ xs. elim xs [ Extracted.uint seq ∷ _ ↦ on_call_timeout w seq s | _ ↦ other ])
        (when raise m (next (word "debug_call_error") (next (extract_uint 64) (last extract_range)))
          (λ xs. elim xs [
            | Extracted.uint seq ∷ Extracted.range r ∷ _ ↦ on_call_error w seq r s
            | _ ↦ other
          ])
          other))

abbrev of_socket : String → Patterns → Patterns
of_socket what ps = next (word "socket") (next (word "debug_connection") (next (word what) ps))

-- The reports of the socket.
unfoldable pub receive_socket : World → Bytes → Bytes → Session → Activation
unfolding on_written shutdown receive_call
receive_socket w sender m s =
    let raise = λ (e : Error). finish s [] (throws (what e)) in
    let other = receive_call w sender m s in
    let failed : Bytes → List Extracted → Activation =
      λ reason xs. elim xs [ _ ∷ Extracted.text msg ∷ _ ↦ shutdown w reason msg s | _ ↦ other ] in
    let details = next (extract_int 32) (last extract_string) in
    when raise m (of_socket "write_complete" (last (extract_int 32)))
      (λ xs. elim xs [ Extracted.int n ∷ _ ↦ on_written n s | _ ↦ other ])
      (when raise m (next (word "socket") (next (word "debug_connection") (last (word "closed"))))
        (λ _. shutdown w (codes "closed") [] s)
        (when raise m (of_socket "read_error" details) (failed (codes "read_error"))
          (when raise m (of_socket "write_error" details) (failed (codes "write_error")) other)))

-- The first tests of `receive`.
unfoldable pub receive : World → Bytes → Bytes → Session → Activation
unfolding on_dispatch on_read receive_socket
receive w sender m s =
    let raise = λ (e : Error). finish s [] (throws (what e)) in
    let other = receive_socket w sender m s in
    when raise m (next (word "dispatch") (last extract_string))
      (λ xs. elim xs [ Extracted.text buf ∷ _ ↦ on_dispatch w buf s | _ ↦ other ])
      (when raise m (of_socket "read_complete" (last extract_string))
        (λ xs. elim xs [ Extracted.text buf ∷ _ ↦ on_read buf s | _ ↦ other ]) other)
