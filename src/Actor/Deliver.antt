-- ===== src/Actor/Deliver.antt =====
-- One step of an actor on an exit message, on a link message and on any other message.
use thespian.Prelude.{
  ℕ, ◌≡◌, refl, ap, ◌∙◌, true, false, List, [], ◌∷◌, Option, none, some, arith, ◌==◌, if◌then◌else◌,
  bytes_eq,
}
use thespian.Cbor.Result.{Bytes, ok}
use thespian.Actor.Messages.{is_exit_msg, is_link_msg, exit_normal_msg}
use thespian.Actor.State.{Called, threw, ended, Instance, System, Task, Reason, with_instance}
use thespian.Actor.Run.{
  exit_caught, unhandled_msg, exit_reason, handle_exit, exit_with, deliver, run, settle, destroy,
  step,
}
use thespian.Actor.Send.{add_link}
use thespian.Actor.Exit.{handle_exit_throws, hear, times, handle_exit_notifies, handle_exit_stops}
use thespian.Actor.Handlers.{return_on, exited}

exit_with-eq :
    (me : ℕ) (m : Bytes) (s : System)
    → (handle_exit me m s).0 ≡ ended
    → exit_with me m s ≡ (handle_exit me m s).1
unfolding exit_with
exit_with-eq me m s h = ground (arith, h)

exit_with-threw :
    (me : ℕ) (m : Bytes) (w : Option Bytes) (s : System)
    → (handle_exit me m s).0 ≡ threw w
    → exit_with me m s ≡ (handle_exit me (unhandled_msg w) (handle_exit me m s).1).1
unfolding exit_with exit_caught
exit_with-threw me m w s h = rw (h, exit_with) refl

-- The strand takes the oldest task off the queue and runs it.
abbrev pub taken : Instance → List Task → Instance
taken i rest = record i { mailbox = rest }

step-eq :
    (me : ℕ) (s : System) (i : Instance) (t : Task) (rest : List Task)
    → s.instances me ≡ some i
    → i.mailbox ≡ t ∷ rest
    → step me s ≡ settle me (run me t.from t.msg (taken i rest) (with_instance s me (taken i rest)))
unfolding step
step-eq me s i t rest e q = by_mailbox i.mailbox q
  where
    by_mailbox :
        (l : List Task)
        → l ≡ t ∷ rest
        → step me s
          ≡ settle me (run me t.from t.msg (taken i rest) (with_instance s me (taken i rest)))
    by_mailbox l h = ground (arith, e, q)

run_exit :
    (me from : ℕ) (m : Bytes) (i : Instance) (s : System)
    → i.in_shutdown ≡ false
    → i.trap_exit ≡ false
    → is_link_msg m ≡ false
    → is_exit_msg m ≡ ok true
    → run me from m i s ≡ (if bytes_eq m exit_normal_msg then s else exit_with me m s)
unfolding run deliver
run_exit me from m i s a b c d = ground arith

settle_other :
    (me j : ℕ) (s : System) → (j == me) ≡ false → (settle me s).instances j ≡ s.instances j
unfolding settle destroy
settle_other me j s e = ground arith

-- What is left of an actor that has given up its lifetime.
abbrev pub survivor : Instance → List Task → Option Instance
survivor i [] = if i.lifelocks == 0 then none else some i
survivor i (t ∷ rest) = some i

pub settle_self :
    (me : ℕ) (s : System) (i : Instance)
    → s.instances me ≡ some i
    → i.lifetime ≡ false
    → (settle me s).instances me ≡ survivor i i.mailbox
unfolding settle destroy
settle_self me s i e l = by_mailbox i.mailbox refl
  where
    by_mailbox : (q : List Task) → i.mailbox ≡ q → (settle me s).instances me ≡ survivor i q
    by_mailbox [] h = ground (arith, h)
    by_mailbox (t ∷ rest) h = ground (arith, h)

settle_alive :
    (me : ℕ) (s : System) (i : Instance)
    → s.instances me ≡ some i
    → i.lifetime ≡ true
    → settle me s ≡ s
unfolding settle
settle_alive me s i e l = ground arith

-- What is left of an actor that has exited with a queue.
abbrev pub remains : Instance → List Task → Option Instance
remains i rest = survivor (exited (taken i rest)) rest

-- An actor that is not in shutdown takes an exit message from its queue and does not trap it.
module _ (me : ℕ) (s : System) (i : Instance) (t : Task) (rest : List Task)
    (there : s.instances me ≡ some i) (queued : i.mailbox ≡ t ∷ rest) (up : i.in_shutdown ≡ false)
    (untrapped : i.trap_exit ≡ false) (no_link : is_link_msg t.msg ≡ false)
    (exit : is_exit_msg t.msg ≡ ok true) where
  before : System
  before = with_instance s me (taken i rest)

  before_self : before.instances me ≡ some (taken i rest)
  unfolding before
  before_self = ground arith

  before_other : (j : ℕ) → (j == me) ≡ false → before.instances j ≡ s.instances j
  unfolding before
  before_other j e = ground arith

  step-before :
      step me s
      ≡ settle me (if bytes_eq t.msg exit_normal_msg then before else exit_with me t.msg before)
  unfolding before
  step-before =
      step-eq me s i t rest there queued
      ∙ ap (settle me) (run_exit me t.from t.msg (taken i rest) _ up untrapped no_link exit)

  -- The exit message "normal" is dropped: nothing but the queue of the actor changes.
  pub step_normal_exit :
      bytes_eq t.msg exit_normal_msg ≡ true
      → i.lifetime ≡ true
      → step me s ≡ with_instance s me (taken i rest)
  unfolding before
  step_normal_exit normal alive =
      step-before ∙ rw normal (settle_alive me before (taken i rest) before_self alive)

  pub step_exit_self :
      (r : Reason)
      → bytes_eq t.msg exit_normal_msg ≡ false
      → exit_reason t.msg ≡ ok r
      → return_on i.exit_handler r ≡ true
      → (step me s).instances me ≡ remains i rest
  step_exit_self r other valid quiet =
      let (stopped, log, ends) =
        handle_exit_stops before me t.msg (taken i rest) before_self r valid quiet in
      rw (step-before, other, exit_with-eq me t.msg before ends)
        (settle_self me (handle_exit me t.msg before).1 (exited (taken i rest)) stopped refl)

  -- An actor that is not in shutdown and does not trap exits takes an exit message other than "normal"
  -- from its queue, its reason can be read, and its exit handlers return. Every other actor that is
  -- alive hears the same message once for each link that the actor has to it, and is not touched
  -- otherwise. The actor itself is
  -- destroyed at once if its queue is empty and no callback of it is pending; if not, it stays, in
  -- shutdown and with no receiver.
  pub step_exit :
      (j : ℕ) (p : Instance) (r : Reason)
      → (j == me) ≡ false
      → s.instances j ≡ some p
      → bytes_eq t.msg exit_normal_msg ≡ false
      → exit_reason t.msg ≡ ok r
      → return_on i.exit_handler r ≡ true
      → ((step me s).instances j ≡ some (hear (times j i.links) me t.msg p))
        × ((step me s).instances me ≡ remains i rest)
  step_exit j p r e a other valid quiet = (heard, step_exit_self r other valid quiet)
    where
      ends : (handle_exit me t.msg before).0 ≡ ended
      ends = (handle_exit_stops before me t.msg (taken i rest) before_self r valid quiet).2

      heard : (step me s).instances j ≡ some (hear (times j i.links) me t.msg p)
      heard =
          rw (step-before, other, exit_with-eq me t.msg before ends)
            (settle_other me j (handle_exit me t.msg before).1 e
              ∙ handle_exit_notifies before me t.msg (taken i rest) before_self j p e
                  (before_other j e ∙ a))

  -- An actor that is not in shutdown and does not trap exits takes an exit message other than "normal"
  -- whose reason can be read, and an exit handler of it throws: each other actor that is alive hears that message once
  -- for each link, and then as often an exit message with what was thrown.
  pub step_exit_throws :
      (j : ℕ) (p : Instance) (eh : Reason → Called) (r : Reason) (w : Option Bytes)
      → (j == me) ≡ false
      → s.instances j ≡ some p
      → bytes_eq t.msg exit_normal_msg ≡ false
      → exit_reason t.msg ≡ ok r
      → i.exit_handler ≡ some eh
      → eh r ≡ threw w
      → (step me s).instances j
        ≡ some (hear (times j i.links) me (unhandled_msg w) (hear (times j i.links) me t.msg p))
  unfolding exit_caught
  step_exit_throws j p eh r w e a other valid has raises =
      let (thrown, self) =
        handle_exit_throws before me t.msg (taken i rest) before_self eh r w has valid raises in
      let first =
        handle_exit_notifies before me t.msg (taken i rest) before_self j p e
          (before_other j e ∙ a) in
      let s' = (handle_exit me t.msg before).1 in
      let again = record (taken i rest) { in_shutdown = true; exit_handler = none } in
      rw (step-before, other, exit_with-threw me t.msg w before thrown)
        (settle_other me j (handle_exit me (unhandled_msg w) s').1 e
          ∙ handle_exit_notifies s' me (unhandled_msg w) again self j _ e first)

-- After it has stopped: no code of an actor in shutdown runs again. A task of its queue changes
-- nothing but the queue, and the links if it is a link message.
pub step_in_shutdown :
    (me : ℕ) (s : System) (i : Instance) (t : Task) (rest : List Task)
    → s.instances me ≡ some i
    → i.mailbox ≡ t ∷ rest
    → i.in_shutdown ≡ true
    → step me s
      ≡ settle me (
          with_instance s me
            (if is_link_msg t.msg then add_link t.from (taken i rest) else taken i rest))
unfolding run
step_in_shutdown me s i t rest there queued stopped =
    step-eq me s i t rest there queued ∙ ground arith
