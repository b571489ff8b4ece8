-- ===== src/Debug/Reports.antt =====
-- What a debug connection writes of the calls, the taps and the messages that come to it
-- (`connection::receive` of src/instance.cpp).
use thespian.Prelude.{ℕ, true, [], ◌∷◌, ◌++◌, if◌then◌else◌, bytes_eq}
use thespian.Prelude.Text.{codes}
use thespian.Cbor.Result.{Bytes, ok, err, out_of_fuel}
use thespian.Cbor.Buffer.{push_bool}
use thespian.Cbor.Json.Print.{to_json}
use thespian.Actor.Messages.{text, what}
use thespian.Debug.Commands.{take_call}
use thespian.Debug.Session.{
  Session, World, writes, replies, goes_on, throws, stuck, Activation, object, newline, finish,
}
use thespian.Debug.Json.{reply_error, or_null}

-- `write_json(b)`, of a report that answers no command.
unfoldable pub write_json : World → Bytes → Session → Activation
write_json w b s = elim (to_json w.floats b) [
  | ok line ↦ finish s (writes line ∷ writes newline ∷ []) goes_on
  | err e ↦ finish s [] (throws (what e))
  | out_of_fuel ↦ finish s [] stuck
]

-- `map("id", take_call(seq), "ok", true, "from", name, "result", r)`
unfoldable pub result_buffer : Bytes → Bytes → Bytes → Bytes
unfolding object
result_buffer id name r = object (
    text (codes "id")
    ∷ id
    ∷ text (codes "ok")
    ∷ push_bool true
    ∷ text (codes "from")
    ∷ text name
    ∷ text (codes "result")
    ∷ r
    ∷ [])

abbrev pub taken : ℕ → Session → Session
taken seq s = record s { pending_calls = (take_call seq s.pending_calls).1 }

abbrev pub call_id : ℕ → Session → Bytes
call_id seq s = or_null ((take_call seq s.pending_calls).0)

unfoldable pub on_call_reply : World → ℕ → Bytes → Bytes → Session → Activation
unfolding result_buffer
on_call_reply w seq name r s = elim (to_json w.floats (result_buffer (call_id seq s) name r)) [
  | ok line ↦ finish (taken seq s) (replies (call_id seq s) line ∷ []) goes_on
  | err e ↦ finish (taken seq s) [] (throws (what e))
  | out_of_fuel ↦ finish (taken seq s) [] stuck
]

unfoldable pub on_call_timeout : World → ℕ → Session → Activation
unfolding reply_error
on_call_timeout w seq s = reply_error w (call_id seq s) (codes "timeout") (taken seq s) []

-- The error is printed before or after the call is taken: an exception leaves the actor in both.
unfoldable pub on_call_error : World → ℕ → Bytes → Session → Activation
unfolding reply_error
on_call_error w seq r s = elim (to_json w.floats r) [
  | ok line ↦ reply_error w (call_id seq s) line (taken seq s) []
  | err e ↦ finish s [] (throws (what e))
  | out_of_fuel ↦ finish s [] stuck
]

-- The report of a tap, as JSON or as a line of text.
unfoldable pub tap_report : Bytes → Bytes → Bytes → Bytes → Bytes
unfolding object
tap_report name dir peer r =
    let start =
      text (codes "event")
      ∷ text (codes "tap")
      ∷ text (codes "actor")
      ∷ text name
      ∷ text (codes "dir")
      ∷ text dir
      ∷ [] in
    let msg = text (codes "msg") ∷ r ∷ [] in
    if bytes_eq dir (codes "exit")
    then object (start ++ msg)
    else object (start ++ (text (codes "peer") ∷ text peer ∷ msg))

unfoldable pub tap_line : Bytes → Bytes → Bytes → Bytes → Bytes
tap_line name dir peer json =
    if bytes_eq dir (codes "exit")
    then codes "tap " ++ (name ++ (codes " exit " ++ json))
    else codes "tap "
      ++ (name ++ (codes " " ++ (dir ++ (codes " " ++ (peer ++ (codes " " ++ json))))))

unfoldable pub on_tap : World → Bytes → Bytes → Bytes → Bytes → Session → Activation
unfolding tap_report tap_line write_json
on_tap w name dir peer r s =
    let in_text : Activation = elim (to_json w.floats r) [
      | ok json ↦ finish s (writes (tap_line name dir peer json) ∷ writes newline ∷ []) goes_on
      | err e ↦ finish s [] (throws (what e))
      | out_of_fuel ↦ finish s [] stuck
    ] in
    if s.json_mode then write_json w (tap_report name dir peer r) s else in_text

-- Any other message is shown, with the name of its sender.
unfoldable pub message_report : Bytes → Bytes → Bytes
unfolding object
message_report name m = object (
    text (codes "event")
    ∷ text (codes "message")
    ∷ text (codes "from")
    ∷ text name
    ∷ text (codes "msg")
    ∷ m
    ∷ [])

abbrev pub shown_name : Bytes → Bytes
shown_name [] = codes "expired"
shown_name (c ∷ cs) = c ∷ cs

unfoldable pub on_message : World → Bytes → Bytes → Session → Activation
unfolding message_report write_json
on_message w sender m s =
    let name = shown_name sender in
    let in_text : Activation = elim (to_json w.floats m) [
      | ok json ↦
          finish s (writes name ∷ writes (codes " ") ∷ writes json ∷ writes newline ∷ []) goes_on
      | err e ↦ finish s (writes name ∷ writes (codes " ") ∷ []) (throws (what e))
      | out_of_fuel ↦ finish s [] stuck
    ] in
    if s.json_mode then write_json w (message_report name m) s else in_text
