-- ===== src/Debug/Handlers.antt =====
-- What each handler of a debug connection answers and starts.
use thespian.Prelude.{ℕ, ◌≡◌, refl, true, List, [], ◌∷◌, inl, inr, ◌⊎◌}
use thespian.Prelude.Text.{codes}
use thespian.Cbor.Result.{Bytes, Result, ok, err, out_of_fuel}
use thespian.Cbor.Json.Print.{to_json}
use thespian.Actor.Messages.{null_value}
use thespian.Debug.Commands.{
  Command, dispatch_json, expected_object, ignored, dispatch_text, take_call,
}
use thespian.Debug.Commands
use thespian.Debug.Session.{Session, World, Ending, goes_on, says_bye, Activation, finish}
use thespian.Debug.Json.{id_of, fields_of}
use thespian.Debug.Reports.{
  on_call_reply, on_call_timeout, on_call_error, call_id, taken, result_buffer,
}
use thespian.Debug.Receive.{on_dispatch, on_bye, dispatch, run_command}
use thespian.Debug.Answers.{
  answered_ids, started, lives, Gives, finish-quiet, finish-replies, Leaves, dead,
  reply_error-Gives,
}
use thespian.Debug.TextAnswers.{then_prompt-Gives}
use thespian.Debug.JsonAnswers.{IsFree, Starts, run_json-LeavesOne}
use thespian.Debug.Dialogue.{
  Report, replied, timed_out, failed, line, on_report, command_ids, asked_by,
}

-- What a line leaves: an answer for each id that it asks for, or a call that is waited for.
abbrev pub LeavesIds : List Bytes → Session → Activation → Type 0
LeavesIds ids s a =
    lives a.ending ≡ true
    → Gives ids [] s a ⊎ ((id : Bytes) × (ids ≡ id ∷ []) × Starts id s a.session a.effects)

run_command-LeavesIds :
    (w : World) (c : Command) (s : Session)
    → IsFree s
    → LeavesIds (command_ids w c) s (run_command w c s)
unfolding run_command finish answered_ids started
run_command-LeavesIds w (dispatch_json l) s free = λ alive.
    elim (run_json-LeavesOne w l s free alive) [
      | inl g ↦ inl g
      | inr g ↦ inr (id_of (fields_of w l), refl, g)
    ]
run_command-LeavesIds w expected_object s free = λ alive.
    inl (reply_error-Gives w null_value (codes "expected a JSON object") s [] (refl, refl) alive)
run_command-LeavesIds w ignored s free = λ _. inl (finish-quiet s [] goes_on (refl, refl))
run_command-LeavesIds w (dispatch_text l) s free = λ alive. inl (then_prompt-Gives w l s alive)

-- `bye` changes nothing that is waited for.
on_bye-LeavesIds :
    (ids : List Bytes) (s : Session) (a : Activation) (e : Ending)
    → (lives e ≡ true
        → Gives ids [] s a ⊎ ((id : Bytes) × (ids ≡ id ∷ []) × Starts id s a.session a.effects))
    → LeavesIds ids s a
    → LeavesIds ids s (on_bye e a)
unfolding on_bye
on_bye-LeavesIds ids s a says_bye g h = λ _. elim (g refl) [
  | inl x ↦
      inl
        (record { answers = x.answers; begins = x.begins; pending = x.pending; number = x.number })
  | inr (id, p, x) ↦ inr (
    id,
    p,
    record { answers = x.answers; begins = x.begins; pending = x.pending; number = x.number },
  )
]
on_bye-LeavesIds ids s a _ g h = h

pub on_dispatch-LeavesIds :
    (w : World) (buf : Bytes) (s : Session)
    → IsFree s
    → LeavesIds (asked_by w (line buf) s) s (on_dispatch w buf s)
unfolding on_dispatch dispatch
on_dispatch-LeavesIds w buf s free =
    let (mode, c) = Commands.dispatch s.json_mode buf in
    let s' = record s { json_mode = mode } in
    let a = run_command w c s' in
    let h = run_command-LeavesIds w c s' free in
    let kept : LeavesIds (command_ids w c) s a = λ alive. elim (h alive) [
      | inl x ↦ inl (record {
        answers = x.answers;
        begins = x.begins;
        pending = x.pending;
        number = x.number;
      })
      | inr (id, p, x) ↦ inr (
        id,
        p,
        record { answers = x.answers; begins = x.begins; pending = x.pending; number = x.number },
      )
    ] in
    on_bye-LeavesIds (command_ids w c) s a a.ending kept kept

-- A report answers the id of its call.
pub on_report-Gives :
    (w : World) (seq : ℕ) (r : Report) (s : Session)
    → Leaves (call_id seq s ∷ []) [] (taken seq s) (on_report w seq r s)
unfolding on_report on_call_reply on_call_timeout on_call_error finish answered_ids started
on_report-Gives w seq (replied name r) s =
    printed (to_json w.floats (result_buffer (call_id seq s) name r)) refl
  where
    printed :
        (x : Result Bytes)
        → to_json w.floats (result_buffer (call_id seq s) name r) ≡ x
        → Leaves (call_id seq s ∷ []) [] (taken seq s) (on_call_reply w seq name r s)
    printed (ok text) p =
        rw (p, on_call_reply)
          (λ _. finish-replies (taken seq s) [] (call_id seq s) text goes_on (refl, refl))
    printed (err e) p = rw (p, on_call_reply) dead
    printed out_of_fuel p = rw (p, on_call_reply) dead
on_report-Gives w seq timed_out s =
    reply_error-Gives w (call_id seq s) (codes "timeout") (taken seq s) [] (refl, refl)
on_report-Gives w seq (failed r) s = printed (to_json w.floats r) refl
  where
    printed :
        (x : Result Bytes)
        → to_json w.floats r ≡ x
        → Leaves (call_id seq s ∷ []) [] (taken seq s) (on_call_error w seq r s)
    printed (ok text) p =
        rw (p, on_call_error)
          (reply_error-Gives w (call_id seq s) text (taken seq s) [] (refl, refl))
    printed (err e) p = rw (p, on_call_error) dead
    printed out_of_fuel p = rw (p, on_call_error) dead
