-- ===== src/Debug/JsonAnswers.antt =====
-- A JSON command of a debug connection is answered at once, or starts one call that is waited for.
use thespian.Prelude.{
  ℕ, ◌+◌, ◌^◌, ◌<◌, ◌≡◌, refl, Bool, true, false, List, [], ◌∷◌, ◌++◌, Option, none, some,
  if◌then◌else◌, bytes_eq, All, arith, inl, inr, ◌⊎◌,
}
use thespian.Prelude.Int.{ℤ, pos}
use thespian.Prelude.Text.{codes}
use thespian.Cbor.Result.{Bytes, Result, ok, err, out_of_fuel}
use thespian.Cbor.Json.Print.{to_json}
use thespian.Actor.Messages.{what}
use thespian.Actor.Send.{Sent, sent, refused, raised}
use thespian.Debug.Registry.{get_names}
use thespian.Debug.Commands.{take_call}
use thespian.Debug.Fields.{
  Attempt, done, domain_error, out_of_range, lift, ◌>>=◌, Fields, require, require_string,
  optional_int,
}
use thespian.Debug.Session.{
  Session, World, Effect, sends, Ending, goes_on, says_bye, Activation, is_expired, finish, tap,
  untap,
}
use thespian.Debug.Json.{
  Reply, ok_reply, ok_result, error_reply, later, Handled, handled, reply_buffer, give_answer,
  answered, lookup, run_send, put_call, on_sent, printed_error, on_started, run_call, run_tap,
  tap_reply, run_untap, run_op, run_line, fields_of, id_of, caught, run_json,
}
use thespian.Debug.Answers.{
  answered_ids, started, lives, Gives, IsQuiet, finish-replies, Leaves, dead, Keeps, Gives-Keeps,
  reply_error-Gives,
}
use thespian.Debug.TextAnswers.{tap-Keeps}

abbrev pub IsFree : Session → Type 0
IsFree s = All (λ c. c.0 < s.next_call) s.pending_calls × (s.next_call + 1 < 2 ^ 64)

abbrev IsAnswer : Reply → Type 0
IsAnswer later = ⊥
IsAnswer _ = Unit

-- A call that is started: it is waited for under its number.
pub record Starts (id : Bytes) (s s' : Session) (es : List Effect) : Type 0 where
  pub answers : answered_ids es ≡ []
  pub begins : started es ≡ s.next_call ∷ []
  pub pending : s'.pending_calls ≡ put_call s.next_call id s.pending_calls
  pub number : s'.next_call ≡ s.next_call + 1

record Answers (s : Session) (d : Handled) : Type 0 where
  answer : IsAnswer d.reply
  quiet : IsQuiet d.effects
  keeps : Keeps s d.session

record Waits (id : Bytes) (s : Session) (d : Handled) : Type 0 where
  waits : d.reply ≡ later
  starts : Starts id s d.session d.effects

abbrev IsHandled : Bytes → Session → Handled → Type 0
IsHandled id s d = (lives d.ending ≡ true) × (Answers s d ⊎ Waits id s d)

-- A command that throws nothing is handled.
abbrev Handles : Bytes → Session → Attempt Handled → Type 0
Handles id s (done d) = IsHandled id s d
Handles id s _ = Unit

>>=-Handles {ℓ} :
    {A : Type ℓ} (id : Bytes) (s : Session) (x : Attempt A) (f : A → Attempt Handled)
    → ((a : A) → Handles id s (f a))
    → Handles id s (x >>= f)
>>=-Handles id s (done a) f h = h a
>>=-Handles id s (domain_error e) f h = tt
>>=-Handles id s out_of_range f h = tt
>>=-Handles id s Attempt.stuck f h = tt

answers :
    (id : Bytes) (s s' : Session) (es : List Effect) (r : Reply)
    → IsAnswer r
    → IsQuiet es
    → Keeps s s'
    → IsHandled id s (handled s' es r)
answers id s s' es r a q k = (refl, inl (record { answer = a; quiet = q; keeps = k }))

on_sent-Handles :
    (w : World) (id : Bytes) (s : Session) (a : ℕ) (msg : Bytes) (r : Sent)
    → Handles id s (on_sent w s a msg r)
unfolding on_sent answered_ids started
on_sent-Handles w id s a msg sent =
    answers id s s (sends a msg ∷ []) ok_reply tt (refl, refl) (refl, omega arith)
on_sent-Handles w id s a msg (refused e) =
    >>=-Handles id s (lift (to_json w.floats e)) _
      λ line. answers id s s [] (error_reply line) tt (refl, refl) (refl, omega arith)
on_sent-Handles w id s a msg (raised e) = tt

run_send-Handles :
    (w : World) (id : Bytes) (s : Session) (f : Fields) → Handles id s (run_send w s f)
unfolding run_send
run_send-Handles w id s f = >>=-Handles id s (require_string f (codes "to")) _ λ name.
    >>=-Handles id s (lookup w s name) _ λ a.
      >>=-Handles id s (require f (codes "msg")) _
        λ msg. on_sent-Handles w id s a msg (w.answer a msg)

-- A number that is above all others is put behind them, and can be taken back.
pub take_call-put_call :
    (n : ℕ) (id : Bytes) (calls : List (ℕ × Bytes))
    → All (λ c. c.0 < n) calls
    → (take_call n (put_call n id calls)).1 ≡ calls
unfolding take_call put_call
take_call-put_call n id [] h = ground arith
take_call-put_call n id ((m, i) ∷ calls) h = ground (arith, take_call-put_call n id calls)

on_started-Handles :
    (w : World) (id : Bytes) (s : Session) (a : ℕ) (msg : Bytes) (t : Option ℤ) (e : Option Bytes)
    → IsFree s
    → Handles id s (on_started w s id a msg t e)
unfolding on_started answered_ids started
on_started-Handles w id s a msg t none (below, small) = (
  refl,
  inr (record {
    waits = refl;
    starts = record { answers = refl; begins = refl; pending = refl; number = omega arith };
  }),
)
on_started-Handles w id s a msg t (some e) (below, small) =
    >>=-Handles id s (printed_error (to_json w.floats e)) _ λ line.
      answers id s _ [] (error_reply line) tt (refl, refl)
        (take_call-put_call s.next_call id s.pending_calls below, omega arith)

run_call-Handles :
    (w : World) (id : Bytes) (s : Session) (f : Fields)
    → IsFree s
    → Handles id s (run_call w s id f)
unfolding run_call
run_call-Handles w id s f free = >>=-Handles id s (require_string f (codes "to")) _ λ name.
    >>=-Handles id s (lookup w s name) _ λ a. >>=-Handles id s (require f (codes "msg")) _ λ msg.
      >>=-Handles id s (optional_int f (codes "timeout_ms") (pos 5000)) _
        λ t. on_started-Handles w id s a msg t w.spawn_error free

tap_reply-IsAnswer : (e : Option Bytes) → IsAnswer (tap_reply e)
tap_reply-IsAnswer none = tt
tap_reply-IsAnswer (some e) = tt

if-IsAnswer : (b : Bool) (x y : Reply) → IsAnswer x → IsAnswer y → IsAnswer (if b then x else y)
if-IsAnswer true x y p q = p
if-IsAnswer false x y p q = q

run_tap-Handles : (w : World) (id : Bytes) (s : Session) (f : Fields) → Handles id s (run_tap w s f)
unfolding run_tap answered_ids started
run_tap-Handles w id s f = >>=-Handles id s (require_string f (codes "name")) _ λ name.
    answers id s (tap w name s).1 [] (tap_reply (tap w name s).0)
      (tap_reply-IsAnswer (tap w name s).0) (refl, refl) (tap-Keeps w name s)

run_untap-Handles :
    (w : World) (id : Bytes) (s : Session) (f : Fields) → Handles id s (run_untap w s f)
unfolding run_untap answered_ids started
run_untap-Handles w id s f = >>=-Handles id s (require_string f (codes "name")) _ λ name.
    let missing = error_reply (name ++ codes " not tapped") in
    let found = (untap w name s).0 in
    answers id s (untap w name s).1 [] (if found then ok_reply else missing)
      (if-IsAnswer found ok_reply missing tt tt) (refl, refl) (refl, omega arith)

if-Handles :
    (id : Bytes) (s : Session) (b : Bool) (x y : Attempt Handled)
    → Handles id s x
    → Handles id s y
    → Handles id s (if b then x else y)
if-Handles id s true x y p q = p
if-Handles id s false x y p q = q

-- A branch that only answers.
at_once-IsHandled :
    (id : Bytes) (s : Session) (r : Reply) (e : Ending)
    → IsAnswer r
    → lives e ≡ true
    → IsHandled id s (record (handled s [] r) { ending = e })
unfolding answered_ids started
at_once-IsHandled id s r e a l =
    (l, inl (record { answer = a; quiet = (refl, refl); keeps = (refl, omega arith) }))

run_op-Handles :
    (w : World) (id : Bytes) (s : Session) (f : Fields) (op : Bytes)
    → IsFree s
    → Handles id s (run_op w s id f op)
unfolding run_op
run_op-Handles w id s f op free =
    if-Handles id s (bytes_eq op (codes "list")) _ _
      (at_once-IsHandled id s (ok_result (get_names (is_expired w) s.registry)) goes_on tt refl)
      (if-Handles id s (bytes_eq op (codes "send")) _ _ (run_send-Handles w id s f) (
        if-Handles id s (bytes_eq op (codes "call")) _ _ (run_call-Handles w id s f free) (
          if-Handles id s (bytes_eq op (codes "tap")) _ _ (run_tap-Handles w id s f) (
            if-Handles id s (bytes_eq op (codes "untap")) _ _ (run_untap-Handles w id s f) (
              if-Handles id s (bytes_eq op (codes "bye")) _ _
                (at_once-IsHandled id s ok_reply says_bye tt refl)
                (at_once-IsHandled id s (error_reply (codes "unknown cmd: " ++ op)) goes_on tt
                  refl))))))

run_line-Handles :
    (w : World) (s : Session) (id : Bytes) (fields : Attempt Fields)
    → IsFree s
    → Handles id s (run_line w s id fields)
unfolding run_line
run_line-Handles w s id fields free =
    >>=-Handles id s fields _
      λ f. >>=-Handles id s (require_string f (codes "cmd")) _ λ op. run_op-Handles w id s f op free

give_answer-Gives :
    (w : World) (id : Bytes) (s : Session) (d : Handled)
    → IsQuiet d.effects
    → Keeps s d.session
    → Leaves (id ∷ []) [] s (give_answer w id d)
unfolding give_answer finish
give_answer-Gives w id s d quiet keeps = printed (to_json w.floats (reply_buffer id d.reply)) refl
  where
    printed :
        (r : Result Bytes)
        → to_json w.floats (reply_buffer id d.reply) ≡ r
        → Leaves (id ∷ []) [] s (give_answer w id d)
    printed (ok line) p =
        rw (p, give_answer)
          (λ _. Gives-Keeps keeps (finish-replies d.session d.effects id line d.ending quiet))
    printed (err x) p =
        rw (p, give_answer)
          (λ l. Gives-Keeps keeps (reply_error-Gives w id (what x) d.session d.effects quiet l))
    printed out_of_fuel p = rw (p, give_answer) dead

-- What a line leaves: an answer, or a call that is waited for.
abbrev pub LeavesOne : Bytes → Session → Activation → Type 0
LeavesOne id s a = lives a.ending ≡ true → Gives (id ∷ []) [] s a ⊎ Starts id s a.session a.effects

answered-LeavesOne :
    (w : World) (id : Bytes) (s : Session) (d : Handled)
    → IsHandled id s d
    → LeavesOne id s (answered w id d)
unfolding answered finish
answered-LeavesOne w id s d (l, inl h) = by_reply d.reply refl h.answer
  where
    by_reply : (r : Reply) → d.reply ≡ r → IsAnswer r → LeavesOne id s (answered w id d)
    by_reply later p a = absurd a
    by_reply r p a = rw (p, answered) (λ l. inl (give_answer-Gives w id s d h.quiet h.keeps l))
answered-LeavesOne w id s d (l, inr h) =
    rw (h.waits, answered)
      (λ _. inr (record {
        answers = h.starts.answers;
        begins = h.starts.begins;
        pending = h.starts.pending;
        number = h.starts.number;
      }))

-- A JSON command that does not end the actor by an exception is answered once under its id, or starts
-- the call with the next number, which is waited for under this id.
pub run_json-LeavesOne :
    (w : World) (line : Bytes) (s : Session)
    → IsFree s
    → LeavesOne (id_of (fields_of w line)) s (run_json w line s)
unfolding run_json answered_ids started
run_json-LeavesOne w line s free =
    ends (run_line w s id (fields_of w line)) (run_line-Handles w s id (fields_of w line) free)
  where
    id : Bytes
    id = id_of (fields_of w line)

    ends : (r : Attempt Handled) → Handles id s r → LeavesOne id s (caught w id s r)
    ends (done d) h = answered-LeavesOne w id s d h
    ends (domain_error e) h = λ l. inl (reply_error-Gives w id e s [] (refl, refl) l)
    ends out_of_range h = dead
    ends Attempt.stuck h = dead
