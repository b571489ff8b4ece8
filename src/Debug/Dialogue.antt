-- ===== src/Debug/Dialogue.antt =====
-- The whole of a debug connection: the messages that come to it, in any order, with what is asked, what is
-- answered, and the calls whose proxies have not reported.
use thespian.Prelude.{
  ℕ, ◌+◌, ◌<◌, ◌^◌, ◌≡◌, Bool, true, false, List, [], ◌∷◌, ◌++◌, if◌then◌else◌, bytes_eq, ◌==◌, suc,
}
use thespian.Prelude.Int.{ℤ}
use thespian.Cbor.Result.{Bytes}
use thespian.Actor.Messages.{null_value}
use thespian.Debug.Commands.{
  Command, dispatch_json, expected_object, ignored, dispatch_text, without_return,
}
use thespian.Debug.Commands
use thespian.Debug.Session.{Session, World, Activation}
use thespian.Debug.Json.{fields_of, id_of}
use thespian.Debug.Reports.{on_call_reply, on_call_timeout, on_call_error, on_tap, on_message}
use thespian.Debug.Receive.{on_dispatch, on_read, on_written}
use thespian.Debug.Answers.{answered_ids, started, lives}

-- The messages that do not end the actor; `reports` is one of the three of a `call_proxy`.
pub data Report : Type 0 where
  replied : Bytes → Bytes → Report
  timed_out : Report
  failed : Bytes → Report

pub data Input : Type 0 where
  line : Bytes → Input
  report : ℕ → Report → Input
  chunk : Bytes → Input
  written : ℤ → Input
  tapped : Bytes → Bytes → Bytes → Bytes → Input
  message : Bytes → Bytes → Input

unfoldable pub on_report : World → ℕ → Report → Session → Activation
unfolding on_call_reply on_call_timeout on_call_error
on_report w seq (replied name r) s = on_call_reply w seq name r s
on_report w seq timed_out s = on_call_timeout w seq s
on_report w seq (failed r) s = on_call_error w seq r s

unfoldable pub handle : World → Input → Session → Activation
unfolding on_dispatch on_report on_read on_written on_tap on_message
handle w (line buf) s = on_dispatch w buf s
handle w (report seq r) s = on_report w seq r s
handle w (chunk buf) s = on_read buf s
handle w (written n) s = on_written n s
handle w (tapped name dir peer r) s = on_tap w name dir peer r s
handle w (message sender m) s = on_message w sender m s

-- The id that a line asks an answer for: a JSON object its own, and another line that is not blank, after
-- the first object, a null.
abbrev pub command_ids : World → Command → List Bytes
command_ids w (dispatch_json l) = id_of (fields_of w l) ∷ []
command_ids w expected_object = null_value ∷ []
command_ids w ignored = []
command_ids w (dispatch_text l) = []

abbrev pub asked_by : World → Input → Session → List Bytes
asked_by w (line buf) s = command_ids w (Commands.dispatch s.json_mode buf).1
asked_by w _ s = []

unfoldable pub remove : ℕ → List ℕ → List ℕ
remove seq [] = []
remove seq (n ∷ ns) = let rest = remove seq ns in if n == seq then ns else n ∷ rest

unfoldable pub holds : ℕ → List ℕ → Bool
holds seq [] = false
holds seq (n ∷ ns) = let rest = holds seq ns in if n == seq then true else rest

pub record State : Type 0 where
  pub session : Session
  pub open_calls : List ℕ
  pub asked : List Bytes
  pub answered : List Bytes

-- A proxy reports once, and only a call that was started; 2^64 calls are not reached.
abbrev pub Comes : Input → State → Type 0
Comes (line buf) st = st.session.next_call + 1 < 2 ^ 64
Comes (report seq r) st = holds seq st.open_calls ≡ true
Comes _ st = Unit

abbrev pub left_open : Input → List ℕ → List ℕ
left_open (report seq r) calls = remove seq calls
left_open _ calls = calls

unfoldable pub advance : World → Input → State → State
unfolding handle remove
advance w i st =
    let a = handle w i st.session in
    record {
      session = a.session;
      open_calls = left_open i st.open_calls ++ started a.effects;
      asked = st.asked ++ asked_by w i st.session;
      answered = st.answered ++ answered_ids a.effects;
    }

-- A run of the connection, each message in its own world, as long as no exception ends the actor.
pub data Run (st : State) : State → Type 0 where
  here : Run st st
  next :
      {u : State}
      → Run st u
      → (w : World) (i : Input) → Comes i u
      → lives (handle w i u.session).ending ≡ true
      → Run st (advance w i u)

-- A connection that has taken no command.
abbrev pub opened : Session → State
opened s = record { session = s; open_calls = []; asked = []; answered = [] }

-- How often an id stands in a list.
unfoldable pub count : Bytes → List Bytes → ℕ
count id [] = 0
count id (x ∷ xs) = let rest = count id xs in if bytes_eq x id then suc rest else rest

abbrev pub numbers : List (ℕ × Bytes) → List ℕ
numbers [] = []
numbers ((n, i) ∷ calls) = n ∷ numbers calls

abbrev pub waiting_ids : List (ℕ × Bytes) → List Bytes
waiting_ids [] = []
waiting_ids ((n, i) ∷ calls) = i ∷ waiting_ids calls
