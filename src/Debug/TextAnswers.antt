-- ===== src/Debug/TextAnswers.antt =====
-- A text command of a debug connection answers no JSON command, and starts no call.
use thespian.Prelude.{
  ℕ, ◌≡◌, refl, ap, ◌∙◌, Bool, true, false, not, ◌&&◌, ◌||◌, List, [], ◌∷◌, ◌++◌, Option, none,
  some, if◌then◌else◌, bytes_eq, arith,
}
use thespian.Prelude.Text.{codes}
use thespian.Cbor.Result.{Bytes, Result, ok, err, out_of_fuel}
use thespian.Cbor.Json.Parse.{Outcome, push_json}
use thespian.Cbor.Json.Print.{to_json}
use thespian.Actor.Send.{Sent, sent, refused, raised}
use thespian.Debug.Registry.{get_name}
use thespian.Debug.Commands.{getword}
use thespian.Debug.Session.{
  Session, World, Effect, writes, Ending, goes_on, says_bye, Activation, finish, name_list,
  is_expired, tap, untap, tap_text, untap_text, send_text, to_actor, dispatch_text, dispatch_words,
  newline, unregister_expired, is_empty,
}
use thespian.Debug.Receive.{prompted, then_prompt}
use thespian.Debug.Answers.{
  answered_ids, answered_ids-append, started, started-append, lives, Gives, IsQuiet, finish-quiet,
  Leaves, dead, Keeps, Gives-Keeps, if-Leaves,
}

name_list-IsQuiet :
    (w : World) (first : Bool) (r : List (Bytes × ℕ)) → IsQuiet (name_list w first r)
unfolding name_list answered_ids started
name_list-IsQuiet w first [] = (refl, refl)
name_list-IsQuiet w first ((n, h) ∷ r) =
    let (p, q) = name_list-IsQuiet w false r in
    let (p', q') = name_list-IsQuiet w first r in (ground arith, ground arith)

append-IsQuiet : (es fs : List Effect) → IsQuiet es → IsQuiet fs → IsQuiet (es ++ fs)
append-IsQuiet es fs (p, q) (p', q') = (
  answered_ids-append es fs ∙ ap (λ l. l ++ answered_ids fs) p ∙ p',
  started-append es fs ∙ ap (λ l. l ++ started fs) q ∙ q',
)

send_text-Gives :
    (w : World) (a : ℕ) (buf : Bytes) (s : Session) → Leaves [] [] s (send_text w a buf s)
unfolding send_text finish answered_ids started
send_text-Gives w a buf s = parsed (push_json w.from_chars buf) refl
  where
    printed :
        (m r : Bytes) (p : Result Bytes)
        → to_json w.floats r ≡ p
        → w.answer a m ≡ refused r
        → (rest : Bytes) → push_json w.from_chars buf ≡ Outcome.pushes m rest
        → Leaves [] [] s (send_text w a buf s)
    printed m r (ok line) e f rest g =
        rw (g, send_text)
          (rw (f, send_text) (rw (e, send_text) (λ _. finish-quiet s _ goes_on (refl, refl))))
    printed m r (err x) e f rest g =
        rw (g, send_text)
          (rw (f, send_text) (rw (e, send_text) (λ _. finish-quiet s _ goes_on (refl, refl))))
    printed m r out_of_fuel e f rest g =
        rw (g, send_text) (rw (f, send_text) (rw (e, send_text) dead))

    answered :
        (m : Bytes) (r : Sent)
        → w.answer a m ≡ r
        → (rest : Bytes) → push_json w.from_chars buf ≡ Outcome.pushes m rest
        → Leaves [] [] s (send_text w a buf s)
    answered m sent f rest g =
        rw (g, send_text) (rw (f, send_text) (λ _. finish-quiet s _ goes_on (refl, refl)))
    answered m (raised e) f rest g =
        rw (g, send_text) (rw (f, send_text) (λ _. finish-quiet s _ goes_on (refl, refl)))
    answered m (refused r) f rest g = printed m r (to_json w.floats r) refl f rest g

    parsed : (o : Outcome) → push_json w.from_chars buf ≡ o → Leaves [] [] s (send_text w a buf s)
    parsed Outcome.invalid g = rw (g, send_text) (λ _. finish-quiet s _ goes_on (refl, refl))
    parsed Outcome.out_of_fuel g = rw (g, send_text) dead
    parsed (Outcome.pushes m rest) g = answered m (w.answer a m) refl rest g

to_actor-Gives :
    (w : World) (name rest : Bytes) (s : Session) → Leaves [] [] s (to_actor w name rest s)
unfolding to_actor finish answered_ids started
to_actor-Gives w name rest s =
    if-Leaves (is_expired w (get_name name s.registry)) _ _
      (λ _. finish-quiet s _ goes_on (refl, refl))
      (send_text-Gives w (get_name name s.registry) rest s)

tap_text-Gives : (e : Option Bytes) (s : Session) → Leaves [] [] s (tap_text e s)
unfolding answered_ids started
tap_text-Gives none s _ = finish-quiet s [] goes_on (refl, refl)
tap_text-Gives (some e) s _ = finish-quiet s _ goes_on (refl, refl)

untap_text-Gives :
    (name : Bytes) (found : Bool) (s : Session) → Leaves [] [] s (untap_text name found s)
unfolding answered_ids started
untap_text-Gives name true s _ = finish-quiet s [] goes_on (refl, refl)
untap_text-Gives name false s l = tap_text-Gives (some (name ++ codes " not tapped")) s l

pub tap-Keeps : (w : World) (name : Bytes) (s : Session) → Keeps s (tap w name s).1
unfolding tap
tap-Keeps w name s = ground arith

words-Gives :
    (w : World) (name rest : Bytes) (s : Session) → Leaves [] [] s (dispatch_words w name rest s)
unfolding dispatch_words
words-Gives w name rest s l =
    if-Leaves
      ((bytes_eq name (codes "tap") || bytes_eq name (codes "untap")) && not (is_empty rest))
      (if bytes_eq name (codes "tap")
        then tap_text (tap w rest s).0 (tap w rest s).1
        else untap_text rest (untap w rest s).0 (untap w rest s).1)
      (to_actor w name rest s)
      (if-Leaves (bytes_eq name (codes "tap")) (tap_text (tap w rest s).0 (tap w rest s).1)
        (untap_text rest (untap w rest s).0 (untap w rest s).1)
        (λ l. Gives-Keeps (tap-Keeps w rest s) (tap_text-Gives (tap w rest s).0 (tap w rest s).1 l))
        (λ l.
          Gives-Keeps (refl, omega arith)
            (untap_text-Gives rest (untap w rest s).0 (untap w rest s).1 l)))
      (to_actor-Gives w name rest s) l

dispatch_text-Gives :
    (w : World) (line : Bytes) (s : Session) → Leaves [] [] s (dispatch_text w line s)
unfolding dispatch_text finish answered_ids started
dispatch_text-Gives w [] s _ =
    Gives-Keeps (refl, omega arith)
      (finish-quiet (record s { registry = unregister_expired w s.registry.registry s.registry })
        (name_list w true s.registry.registry ++ (writes newline ∷ [])) goes_on
        (append-IsQuiet (name_list w true s.registry.registry) (writes newline ∷ [])
          (name_list-IsQuiet w true s.registry.registry) (refl, refl)))
dispatch_text-Gives w (c ∷ cs) s l =
    let (name, rest) = getword (c ∷ cs) in
    if-Leaves (bytes_eq (c ∷ cs) (codes "bye")) (finish s (writes (codes "bye\n") ∷ []) says_bye)
      (dispatch_words w name rest s)
      (λ _. finish-quiet s (writes (codes "bye\n") ∷ []) says_bye (refl, refl))
      (words-Gives w name rest s) l

prompted-Gives :
    (s : Session) (a : Activation) (e : Ending)
    → (lives e ≡ true → Gives [] [] s a)
    → Leaves [] [] s a
    → Leaves [] [] s (prompted e a)
unfolding prompted finish answered_ids started
prompted-Gives s a goes_on g h l =
    let r = g refl in
    let quiet =
      append-IsQuiet a.effects (writes a.session.prompt ∷ []) (r.answers, r.begins) (refl, refl) in
    record { answers = quiet.0; begins = quiet.1; pending = r.pending; number = r.number }
prompted-Gives s a _ g h l = h l

pub then_prompt-Gives :
    (w : World) (line : Bytes) (s : Session) → Leaves [] [] s (then_prompt (dispatch_text w line s))
unfolding then_prompt
then_prompt-Gives w line s =
    let a = dispatch_text w line s in
    let h = dispatch_text-Gives w line s in prompted-Gives s a a.ending h h
