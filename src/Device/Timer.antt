-- ===== src/Device/Timer.antt =====
-- `timeout_impl` and `signal_impl`. The executor calls the callback; `fired` is what it sends.
use thespian.Prelude.{Bool, true, false, Option, none, some, if◌then◌else◌}
use thespian.Prelude.Text.{codes}
use thespian.Cbor.Result.{Bytes}
use thespian.Actor.Messages.{exit_message}
use thespian.Device.Report.{ErrorCode, error_parts}

-- What the callback shares with the object: the message, whether the owner had its lifetime when the
-- timer was set, and `dtor_cancelled_`. `cancelled` is the request to the executor.
pub record Timer : Type 0 where
  pub message : Bytes
  pub locked : Bool
  pub dtor_cancelled : Bool
  pub cancelled : Bool

unfoldable pub timeout : Bool → Bytes → Timer
timeout locked m = record {
  message = m;
  locked = locked;
  dtor_cancelled = false;
  cancelled = false;
}

unfoldable pub timeout_expired : Timer → Option ErrorCode → Option Bytes
timeout_expired t ec =
    let sent : Option Bytes = elim ec [
      | none ↦ some t.message
      | some e ↦
          if t.dtor_cancelled
          then none
          else some (exit_message (codes "timeout_error") (error_parts e))
    ] in
    if t.locked then sent else none

unfoldable pub cancel_timeout : Timer → Timer
cancel_timeout t = record t { cancelled = true }

unfoldable pub destroy_timeout : Timer → Timer
unfolding cancel_timeout
destroy_timeout t = cancel_timeout (record t { dtor_cancelled = true })

unfoldable pub signal : Bool → Bytes → Timer
signal locked m = record { message = m; locked = locked; dtor_cancelled = false; cancelled = false }

unfoldable pub signal_fired : Timer → Option ErrorCode → Option Bytes
signal_fired t ec =
    let sent : Option Bytes = elim ec [
      | none ↦ some t.message
      | some e ↦
          if t.dtor_cancelled
          then none
          else some (exit_message (codes "signal_error") (error_parts e))
    ] in
    if t.locked then sent else none

unfoldable pub cancel_signal : Timer → Timer
cancel_signal t = record t { cancelled = true }

unfoldable pub destroy_signal : Timer → Timer
unfolding cancel_signal
destroy_signal t = cancel_signal (record t { dtor_cancelled = true })
