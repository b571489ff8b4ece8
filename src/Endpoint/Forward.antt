-- ===== src/Endpoint/Forward.antt =====
-- The last branches of `endpoint::connection::receive`: a message that the connection is to write.
use thespian.Prelude.{ℕ, ◌≡◌, refl, ap, ◌∙◌, Bool, true, false, none}
use thespian.Prelude.Text.{codes}
use thespian.Prelude.Tests.{bytes_eq}
use thespian.Cbor.Result.{Bytes, ok, ◌>>=◌}
use thespian.Cbor.Kind.{Kind, kind_eq}
use thespian.Cbor.Value.{Values, nil, cons, push_value, IsValid}
use thespian.Cbor.Match.{Patterns, A, str, is, next, last, match_message, is_more}
use thespian.Cbor.Accepts.{accepts, accepts_scalar, elements, text_of}
use thespian.Cbor.Refinement.{match_message-push_value}
use thespian.Cbor.Dispatch.{when-none, word}
use thespian.Actor.Messages.{is_exit_msg, is_match}
use thespian.Actor.Send.{Sent}
use thespian.Actor.DeadLetter.{tagged, more_left}
use thespian.Endpoint.Connection.{Connection, receive, forward}

-- A message that begins with a word other than "socket".
module _ (c : Connection) (w : Bytes) (vs : Values) (valid : IsValid (tagged w vs))
    (other : bytes_eq w (codes "socket") ≡ false) where
  not_socket :
      (ps : Patterns) → match_message (next (word "socket") ps) (push_value (tagged w vs)) ≡ ok none
  unfolding accepts accepts_scalar elements text_of
  not_socket ps = match_message-push_value _ (tagged w vs) valid ∙ rw other refl

  pub receive-forward :
      (answers : ℕ → Sent)
      → receive answers c (push_value (tagged w vs)) ≡ forward (push_value (tagged w vs)) c
  unfolding receive
  receive-forward answers =
      when-none _ _ _ _ _ (not_socket _)
      ∙ when-none _ _ _ _ _ (not_socket _)
      ∙ when-none _ _ _ _ _ (not_socket _)
      ∙ when-none _ _ _ _ _ (not_socket _)
      ∙ when-none _ _ _ _ _ (not_socket _)

-- The matcher reads it, so that it is or is not an exit message.
pub is_exit_msg-push :
    (w : Bytes) (vs : Values)
    → IsValid (tagged w vs)
    → (b : Bool) × (is_exit_msg (push_value (tagged w vs)) ≡ ok b)
unfolding is_exit_msg accepts accepts_scalar elements text_of is_more kind_eq
is_exit_msg-push w vs h =
    let (b, e) = by_word (bytes_eq w (codes "exit")) refl vs in
    (b, ap (λ r. r >>= λ m. ok (is_match m)) (match_message-push_value _ (tagged w vs) h) ∙ e)
  where
    by_word :
        (b : Bool)
        → bytes_eq w (codes "exit") ≡ b
        → (us : Values)
        → (x : Bool) × ((accepts
                (A (next (str (codes "exit")) (next (is Kind.any) (last (is Kind.more)))))
                (tagged w us)
              >>= λ m. ok (is_match m))
            ≡ ok x)
    by_word false e us = (false, rw e refl)
    by_word true e nil = (false, rw e refl)
    by_word true e (cons u us) = (true, rw (e, more_left us) refl)
