-- ===== src/Actor/Reach.antt =====
-- The states that a context can come to, and what holds in each of them.
use thespian.Prelude.{ℕ, suc, ◌<◌, ◌≡◌, refl, [], Option, none, some, arith, ◌==◌, if◌then◌else◌}
use thespian.Cbor.Result.{Bytes}
use thespian.Actor.State.{Called, Reason, Code, Instance, System}
use thespian.Actor.Send.{spawn, send_raw}
use thespian.Actor.Run.{destroy, step, release}
use thespian.Actor.Sync.{dispatch_sync}
use thespian.Actor.Later.{population, IsCounted}
use thespian.Actor.ExecLater.{spawn-Later, send_raw-Later}
use thespian.Actor.StepCounted.{
  population-gone, step-IsCounted, release-IsCounted, dispatch_sync-IsCounted,
}

-- A context with no instances. The first id is 1.
abbrev pub initial : System
initial = record { instances = λ _. none; next_id = 1; active = 0; exits = []; last_exits = 0 }

-- What can happen next: a strand runs its oldest task, or a thread outside every actor spawns one
-- (`context::spawn` and `context::spawn_link`) or sends a message, a callback hands a message to its
-- actor at once, or a callback is done.
pub data Step (s : System) : System → Type 0 where
  runs : (me : ℕ) → Step s (step me s)
  spawns :
      (b : Code) (eh : Option (Reason → Called)) (name : Bytes)
      → Step s (spawn s none b eh name none).1
  posts : (to : ℕ) (m : Bytes) → Step s (send_raw s none to m).1
  dispatches : (me : ℕ) (m : Bytes) → Step s (dispatch_sync me m s).1
  completes : (me : ℕ) → Step s (release me s)

pub data Reach : System → Type 0 where
  start : Reach initial
  later : {s t : System} → Reach s → Step s t → Reach t

initial-IsCounted : IsCounted initial
unfolding population
initial-IsCounted = record {
  fresh = λ id h. refl;
  positive = omega arith;
  null = refl;
  counted = refl;
}

Step-IsCounted : {s t : System} → Step s t → IsCounted s → IsCounted t
Step-IsCounted {s} (runs me) c = step-IsCounted me s c
Step-IsCounted {s} (spawns b eh name) c = (spawn-Later s none b eh name none).counted c
Step-IsCounted {s} (posts to m) c = (send_raw-Later s none to m).counted c
Step-IsCounted {s} (dispatches me m) c = dispatch_sync-IsCounted me m s c
Step-IsCounted {s} (completes me) c = release-IsCounted me s c

-- In every state that a context can come to, by any order of tasks of its actors, of callbacks and of
-- calls from outside, `active` is the number of the instances that are alive, no id has been given to two of
-- them, and none has the id 0.
pub Reach-IsCounted : {s : System} → Reach s → IsCounted s
Reach-IsCounted start = initial-IsCounted
Reach-IsCounted (later r st) = Step-IsCounted st (Reach-IsCounted r)

-- In every state that a context can come to, the destructor of an instance calls `last_exit` exactly when no instance is
-- left after it.
pub destroy_lem :
    (s : System) (me : ℕ) (i : Instance)
    → Reach s
    → s.instances me ≡ some i
    → (destroy me s).last_exits ≡ (
        if population s.next_id (destroy me s).instances == 0
        then suc s.last_exits
        else s.last_exits)
unfolding destroy
destroy_lem s me i r e =
    let c = Reach-IsCounted r in
    let below : me < s.next_id = ground (arith, c.fresh me) in
    ground (arith, c.counted, population-gone s.next_id s.instances me i below e)
