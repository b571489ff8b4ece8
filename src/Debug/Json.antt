-- ===== src/Debug/Json.antt =====
-- The JSON commands of a debug connection, `dispatch` and the calls that it waits for
-- (`connection` of src/instance.cpp).
use thespian.Prelude.{
  ℕ, ◌+◌, ◌%◌, ◌^◌, true, false, List, [], ◌∷◌, ◌++◌, Option, none, some, if◌then◌else◌, bytes_eq,
  ◌==◌,
}
use thespian.Prelude.Int.{ℤ, pos}
use thespian.Prelude.Text.{codes}
use thespian.Cbor.Result.{Bytes, Result, ok, err, out_of_fuel}
use thespian.Cbor.Buffer.{push_bool}
use thespian.Cbor.Json.Parse.{Outcome, push_json}
use thespian.Cbor.Json.Print.{to_json}
use thespian.Actor.Messages.{text, what, null_value}
use thespian.Actor.Send.{Sent, sent, refused, raised}
use thespian.Debug.Registry.{get_name, get_names}
use thespian.Debug.Fields.{
  Attempt, done, domain_error, out_of_range, lift, ◌>>=◌, Fields, find, get_fields, require,
  require_string, optional_int,
}
use thespian.Debug.Commands.{Command, dispatch_json, expected_object, ignored, dispatch_text}
use thespian.Debug.Commands
use thespian.Debug.Session.{
  Session, World, Effect, replies, sends, starts, Ending, goes_on, says_bye, throws, throws_range,
  stuck, Activation, is_expired, object, finish, invalid_json, tap, untap,
}

-- What a command answers. `ok_result` has a value, and `later` is a call that was started.
pub data Reply : Type 0 where
  ok_reply : Reply
  ok_result : Bytes → Reply
  error_reply : Bytes → Reply
  later : Reply

-- A command that threw nothing: the session after it, and what it did but for its answer.
pub record Handled : Type 0 where
  pub session : Session
  pub effects : List Effect
  pub reply : Reply
  pub ending : Ending

abbrev pub handled : Session → List Effect → Reply → Handled
handled s es r = record { session = s; effects = es; reply = r; ending = goes_on }

-- The buffers of `reply_ok`, of the answer to `list`, and of `reply_error`.
unfoldable pub reply_buffer : Bytes → Reply → Bytes
unfolding object
reply_buffer id ok_reply = object (text (codes "id") ∷ id ∷ text (codes "ok") ∷ push_bool true ∷ [])
reply_buffer id (ok_result r) =
    object
      (text (codes "id") ∷ id ∷ text (codes "ok") ∷ push_bool true ∷ text (codes "result") ∷ r ∷ [])
reply_buffer id (error_reply e) = object (
    text (codes "id")
    ∷ id
    ∷ text (codes "ok")
    ∷ push_bool false
    ∷ text (codes "error")
    ∷ text e
    ∷ [])
reply_buffer id later = []

-- `reply_error`, where nothing catches what it throws.
unfoldable pub reply_error : World → Bytes → Bytes → Session → List Effect → Activation
unfolding reply_buffer finish
reply_error w id e s es = elim (to_json w.floats (reply_buffer id (error_reply e))) [
  | ok line ↦ finish s (es ++ (replies id line ∷ [])) goes_on
  | err x ↦ finish s es (throws (what x))
  | out_of_fuel ↦ finish s es stuck
]

-- The answer within the `try`: where it cannot be printed, the handler answers with that error.
unfoldable pub give_answer : World → Bytes → Handled → Activation
unfolding reply_error
give_answer w id d = elim (to_json w.floats (reply_buffer id d.reply)) [
  | ok line ↦ finish d.session (d.effects ++ (replies id line ∷ [])) d.ending
  | err x ↦ reply_error w id (what x) d.session d.effects
  | out_of_fuel ↦ finish d.session d.effects stuck
]

unfoldable pub answered : World → Bytes → Handled → Activation
unfolding give_answer
answered w id d = elim d.reply [
  | later ↦ finish d.session d.effects d.ending
  | _ ↦ give_answer w id d
]

-- `lookup(name)`
unfoldable pub lookup : World → Session → Bytes → Attempt ℕ
lookup w s name =
    let a = get_name name s.registry in
    if is_expired w a then domain_error (name ++ codes " not found") else done a

-- What the send answers is printed or thrown where it is an error.
unfoldable pub on_sent : World → Session → ℕ → Bytes → Sent → Attempt Handled
on_sent w s a msg sent = done (handled s (sends a msg ∷ []) ok_reply)
on_sent w s a msg (refused e) = do
  line ← lift (to_json w.floats e)
  done (handled s [] (error_reply line))
on_sent w s a msg (raised e) = domain_error e

unfoldable pub run_send : World → Session → Fields → Attempt Handled
unfolding lookup on_sent
run_send w s f = do
  name ← require_string f (codes "to")
  a ← lookup w s name
  msg ← require f (codes "msg")
  on_sent w s a msg (w.answer a msg)

-- `pending_calls[seq] = id`
unfoldable pub put_call : ℕ → Bytes → List (ℕ × Bytes) → List (ℕ × Bytes)
put_call seq id [] = (seq, id) ∷ []
put_call seq id ((n, i) ∷ calls) =
    let rest = put_call seq id calls in if n == seq then (n, id) ∷ calls else (n, i) ∷ rest

-- The text of an error that is answered; one that cannot be printed is caught, and its own error is.
unfoldable pub printed_error : Result Bytes → Attempt Bytes
printed_error (ok line) = done line
printed_error (err x) = done (what x)
printed_error out_of_fuel = Attempt.stuck

-- The call is waited for before it is started; one that cannot be started is taken back.
unfoldable pub on_started :
    World → Session → Bytes → ℕ → Bytes → Option ℤ → Option Bytes → Attempt Handled
unfolding put_call
on_started w s id a msg timeout_ms none = done (
    handled
      (record s {
        next_call = (s.next_call + 1) % 2 ^ 64;
        pending_calls = put_call s.next_call id s.pending_calls;
      })
      (starts s.next_call a msg timeout_ms ∷ []) later)
on_started w s id a msg timeout_ms (some e) = do
  line ← printed_error (to_json w.floats e)
  let calls = (Commands.take_call s.next_call (put_call s.next_call id s.pending_calls)).1
  done (
      handled (record s { next_call = (s.next_call + 1) % 2 ^ 64; pending_calls = calls }) []
        (error_reply line))

unfoldable pub run_call : World → Session → Bytes → Fields → Attempt Handled
unfolding lookup on_started
run_call w s id f = do
  name ← require_string f (codes "to")
  a ← lookup w s name
  msg ← require f (codes "msg")
  timeout_ms ← optional_int f (codes "timeout_ms") (pos 5000)
  on_started w s id a msg timeout_ms w.spawn_error

abbrev pub tap_reply : Option Bytes → Reply
tap_reply none = ok_reply
tap_reply (some e) = error_reply e

unfoldable pub run_tap : World → Session → Fields → Attempt Handled
unfolding tap
run_tap w s f = do
  name ← require_string f (codes "name")
  let (e, s') = tap w name s
  done (handled s' [] (tap_reply e))

unfoldable pub run_untap : World → Session → Fields → Attempt Handled
run_untap w s f = do
  name ← require_string f (codes "name")
  let (found, s') = untap w name s
  done (handled s' [] (if found then ok_reply else error_reply (name ++ codes " not tapped")))

unfoldable pub run_op : World → Session → Bytes → Fields → Bytes → Attempt Handled
unfolding run_send run_call run_tap run_untap
run_op w s id f op =
    let bye = record (handled s [] ok_reply) { ending = says_bye } in
    if bytes_eq op (codes "list")
    then done (handled s [] (ok_result (get_names (is_expired w) s.registry)))
    else if bytes_eq op (codes "send")
    then run_send w s f
    else if bytes_eq op (codes "call")
    then run_call w s id f
    else if bytes_eq op (codes "tap")
    then run_tap w s f
    else if bytes_eq op (codes "untap")
    then run_untap w s f
    else if bytes_eq op (codes "bye")
    then done bye
    else done (handled s [] (error_reply (codes "unknown cmd: " ++ op)))

-- The command of a line.
unfoldable pub fields_of : World → Bytes → Attempt Fields
unfolding invalid_json
fields_of w line = elim (push_json w.from_chars line) [
  | Outcome.pushes cmd _ ↦ get_fields cmd
  | Outcome.invalid ↦ domain_error (invalid_json w line)
  | Outcome.out_of_fuel ↦ Attempt.stuck
]

abbrev pub or_null : Option Bytes → Bytes
or_null none = null_value
or_null (some id) = id

unfoldable pub id_of : Attempt Fields → Bytes
id_of (done f) = or_null (find (codes "id") f)
id_of _ = null_value

-- The end of the `try`: a `domain_error` is answered.
unfoldable pub caught : World → Bytes → Session → Attempt Handled → Activation
unfolding answered reply_error
caught w id s (done d) = answered w id d
caught w id s (domain_error e) = reply_error w id e s []
caught w id s out_of_range = finish s [] throws_range
caught w id s Attempt.stuck = finish s [] stuck

unfoldable pub run_line : World → Session → Bytes → Attempt Fields → Attempt Handled
unfolding run_op
run_line w s id fields = do f ← fields; op ← require_string f (codes "cmd"); run_op w s id f op

unfoldable pub run_json : World → Bytes → Session → Activation
unfolding fields_of id_of caught run_line
run_json w line s =
    let fields = fields_of w line in let id = id_of fields in caught w id s (run_line w s id fields)
