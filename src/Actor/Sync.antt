-- ===== src/Actor/Sync.antt =====
-- `dispatch_sync_raw` of src/instance.cpp: a callback of the executor, on the strand of an actor, hands a
-- message to it at once.
use thespian.Prelude.{ℕ, none, some, if◌then◌else◌}
use thespian.Cbor.Result.{Bytes}
use thespian.Actor.State.{System}
use thespian.Actor.Send.{Sent, sent, deadsend}
use thespian.Actor.Run.{run, settle}

-- No instance is current in a callback, so that the message has no sender. The callback holds the object
-- for the time of the call; it does not call one that is gone.
unfoldable pub dispatch_sync : ℕ → Bytes → System → Sent × System
dispatch_sync me m s = elim (s.instances me) [
  | none ↦ (sent, s)
  | some i ↦ if i.in_shutdown then (deadsend s none m 0, s) else (sent, settle me (run me 0 m i s))
]
