-- ===== src/Actor/DeadLetter.antt =====
-- What a send to an actor that is gone, or that has stopped, answers.
use thespian.Prelude.{
  ℕ, ◌≡◌, refl, ap, ◌∙◌, Bool, true, false, [], ◌∷◌, none, some, if◌then◌else◌, bytes_eq,
}
use thespian.Prelude.Text.{codes}
use thespian.Cbor.Result.{Bytes, Result, ok, ◌>>=◌}
use thespian.Cbor.Value.{Value, Values, nil, cons, push_value, IsValid}
use thespian.Cbor.Kind.{Kind, kind_eq}
use thespian.Cbor.Match.{A, is, str, last, next, is_more}
use thespian.Cbor.Accepts.{elements, text_of, accepts, accepts_all, accepts_scalar}
use thespian.Cbor.Refinement.{match_message-push_value}
use thespian.Actor.Messages.{exit_message, is_any_exit, is_match, what}
use thespian.Actor.State.{Instance, System}
use thespian.Actor.Send.{Sent, sent, refused, raised, send_raw, deadsend, dead_letter, pid}

-- A message that begins with the word `w`.
abbrev pub tagged : Bytes → Values → Value
tagged w vs = Value.array (cons (Value.text w) vs)

pub more_left : (vs : Values) → accepts_all (last (is Kind.more)) vs ≡ ok (some [])
unfolding accepts is_more kind_eq
more_left nil = refl
more_left (cons v nil) = refl
more_left (cons v (cons u vs)) = refl

is_any_exit-push :
    (w : Bytes) (vs : Values)
    → IsValid (tagged w vs)
    → is_any_exit (push_value (tagged w vs)) ≡ ok (bytes_eq w (codes "exit"))
unfolding is_any_exit accepts accepts_scalar elements text_of
is_any_exit-push w vs h =
    ap (λ r. r >>= λ m. ok (is_match m)) (match_message-push_value _ (tagged w vs) h)
    ∙ by_word (bytes_eq w (codes "exit")) refl
  where
    by_word :
        (b : Bool)
        → bytes_eq w (codes "exit") ≡ b
        → (accepts (A (next (str (codes "exit")) (last (is Kind.more)))) (tagged w vs) >>= λ m.
            ok (is_match m))
          ≡ ok b
    by_word true e = rw (e, more_left vs) refl
    by_word false e = rw e refl

-- An actor that has not stopped sends a message that begins with a word to an actor that is gone. If
-- the word is "exit" the send succeeds, and else it answers "DEADSEND" with the message and the names
-- of both. No one is sent anything, in both cases.
pub send_raw-gone :
    (s : System) (me to : ℕ) (i : Instance) (w : Bytes) (vs : Values)
    → s.instances me ≡ some i
    → i.in_shutdown ≡ false
    → s.instances to ≡ none
    → IsValid (tagged w vs)
    → send_raw s (some me) to (push_value (tagged w vs)) ≡ (
      (if bytes_eq w (codes "exit")
          then sent
          else refused (
              exit_message
                (codes "DEADSEND")
                (push_value (tagged w vs) ∷ pid s to ∷ pid s me ∷ []))),
      s,
    )
unfolding send_raw deadsend dead_letter
send_raw-gone s me to i w vs there up gone valid =
    rw (gone, there, up, is_any_exit-push w vs valid, send_raw, deadsend, dead_letter)
      (by_word (bytes_eq w (codes "exit")) _)
  where
    by_word :
        (b : Bool) (e : Bytes)
        → ◌≡◌ {A = Sent × System}
            (
              elim (ok b) as (λ (_ : Result Bool). Sent) [
                | ok true ↦ sent
                | ok false ↦ refused e
                | Result.err x ↦ raised (what x)
                | Result.out_of_fuel ↦ sent
              ],
              s,
            )
            (if b then sent else refused e, s)
    by_word true e = refl
    by_word false e = refl
