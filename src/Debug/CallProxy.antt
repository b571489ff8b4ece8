-- ===== src/Debug/CallProxy.antt =====
-- `call_proxy` of src/instance.cpp: the actor that carries one call of a debug connection.
use thespian.Prelude.{ℕ, Bool, true, false, List, [], ◌∷◌}
use thespian.Prelude.Text.{codes}
use thespian.Cbor.Result.{Bytes, Error}
use thespian.Cbor.Buffer.{push_uint}
use thespian.Cbor.Dispatch.{when, only}
use thespian.Actor.Messages.{array, text}
use thespian.Actor.Send.{Sent, sent, refused, raised}

pub record CallProxy : Type 0 where
  pub seq : ℕ
  pub timed_out : Bool

pub data Effect : Type 0 where
  to_connection : Bytes → Effect
  cancel_timeout : Effect

-- How the receiver ends: `return ok()`, `return exit()`, what a send answers, or an exception of the
-- matcher.
pub data Ending : Type 0 where
  returned : Ending
  exited : Ending
  answered : Sent → Ending
  thrown : Error → Ending

pub record Activation : Type 0 where
  pub proxy : CallProxy
  pub effects : List Effect
  pub ending : Ending

-- `array("debug_call_timeout", seq)` and `array("debug_call_reply", seq, name, m)`
unfoldable pub timeout_report : ℕ → Bytes
timeout_report seq = array (text (codes "debug_call_timeout") ∷ push_uint seq ∷ [])

unfoldable pub reply_report : ℕ → Bytes → Bytes → Bytes
reply_report seq name m =
    array (text (codes "debug_call_reply") ∷ push_uint seq ∷ text name ∷ m ∷ [])

-- `name` is that of the sender, and `answer` what the send of a timeout answers.
unfoldable pub receive : Sent → Bytes → Bytes → CallProxy → Activation
unfolding timeout_report reply_report
receive answer name m p = elim p.timed_out [
  | true ↦ record { proxy = p; effects = []; ending = returned }
  | false ↦
      when (λ e. record { proxy = p; effects = []; ending = thrown e }) m
        (only "debug_call_timeout")
        (λ _. record {
          proxy = record p { timed_out = true };
          effects = to_connection (timeout_report p.seq) ∷ [];
          ending = answered answer;
        })
        (record {
          proxy = p;
          effects = cancel_timeout ∷ to_connection (reply_report p.seq name m) ∷ [];
          ending = exited;
        })
]

-- `array("debug_call_error", seq, e)`
unfoldable pub error_report : ℕ → Bytes → Bytes
error_report seq e = array (text (codes "debug_call_error") ∷ push_uint seq ∷ e ∷ [])

-- What the actor of a call does first: its timer is made and the request is sent, which answers
-- `answer`. The actor then waits, reports the error and exits, or is ended by an exception.
pub data Start : Type 0 where
  waits : CallProxy → Start
  fails : Bytes → Start
  throws : Bytes → Start

unfoldable pub start : Sent → ℕ → Start
unfolding error_report
start sent seq = waits (record { seq = seq; timed_out = false })
start (refused e) seq = fails (error_report seq e)
start (raised w) seq = throws w
