-- ===== src/Actor/StepCounted.antt =====
-- A whole step keeps the count of instances right, and the destructor takes one off.
use thespian.Prelude.{
  ℕ, zero, suc, ◌<◌, ◌≡◌, Bool, true, false, List, [], ◌∷◌, Option, none, some, arith, ◌==◌,
  if◌then◌else◌, Option-cases, inl, inr, Bool-cases, bytes_eq,
}
use thespian.Cbor.Result.{Bytes, Result, ok, err, out_of_fuel}
use thespian.Actor.Messages.{exit_normal_msg, is_exit_msg, is_link_msg, exit_noreceive_msg, what}
use thespian.Actor.State.{
  Outcome, returned, failed, thrown, thrown_unknown, Installed, init, empty, installed, Instance,
  System, Task, put, with_instance,
}
use thespian.Actor.Send.{Sent, add_link}
use thespian.Actor.Sync.{dispatch_sync}
use thespian.Actor.Run.{
  exit_with, activate, has_receiver, conclude, deliver, run, destroy, settle, step, exit_caught,
  release,
}
use thespian.Actor.Later.{population, IsCounted, population-put_above}
use thespian.Actor.ExecLater.{exec-IsCounted}
use thespian.Actor.Counted.{
  with_instance-IsCounted, modify-IsCounted, exit_with-IsCounted, exit_caught-IsCounted,
}

IsCounted-if :
    (b : Bool) (s t : System) → IsCounted s → IsCounted t → IsCounted (if b then s else t)
IsCounted-if true s t hs ht = hs
IsCounted-if false s t hs ht = ht

activate-IsCounted :
    (me from : ℕ) (m : Bytes) (r : Installed) (s : System)
    → IsCounted s
    → IsCounted (activate me from m r s).1
unfolding activate
activate-IsCounted me from m (init b) s c = exec-IsCounted b me _ (modify-IsCounted s me _ c)
activate-IsCounted me from m empty s c = c
activate-IsCounted me from m (installed r) s c = exec-IsCounted (r from m) me s c

conclude-IsCounted : (me : ℕ) (o : Outcome) (s : System) → IsCounted s → IsCounted (conclude me o s)
unfolding conclude
conclude-IsCounted me returned s c = elim (Option-cases (s.instances me)) [
  | inl e ↦ rw (e, conclude) c
  | inr (i, e) ↦
      rw (e, conclude)
        (IsCounted-if (has_receiver i.receiver) s _ c
          (exit_with-IsCounted me exit_noreceive_msg s c))
]
conclude-IsCounted me (failed e) s c = exit_with-IsCounted me e s c
conclude-IsCounted me (thrown w) s c = exit_caught-IsCounted me (some w) s c
conclude-IsCounted me thrown_unknown s c = exit_caught-IsCounted me none s c

deliver-IsCounted :
    (me from : ℕ) (m : Bytes) (i : Instance) (s : System)
    → IsCounted s
    → IsCounted (deliver me from m i s)
unfolding deliver
deliver-IsCounted me from m i s c = IsCounted-if i.trap_exit _ _ received (by_exit (is_exit_msg m))
  where
    result : Outcome × System
    result = activate me from m i.receiver s

    received : IsCounted (conclude me result.0 result.1)
    received = conclude-IsCounted me result.0 result.1 (activate-IsCounted me from m i.receiver s c)

    by_exit :
        (r : Result Bool)
        → IsCounted (elim r as (λ _. System) [
          | ok true ↦ if bytes_eq m exit_normal_msg then s else exit_with me m s
          | ok false ↦ conclude me result.0 result.1
          | err e ↦ exit_caught me (some (what e)) s
          | out_of_fuel ↦ s
        ])
    by_exit (ok true) =
        IsCounted-if (bytes_eq m exit_normal_msg) s _ c (exit_with-IsCounted me m s c)
    by_exit (ok false) = received
    by_exit (err e) = exit_caught-IsCounted me (some (what e)) s c
    by_exit out_of_fuel = c

run-IsCounted :
    (me from : ℕ) (m : Bytes) (i : Instance) (s : System)
    → s.instances me ≡ some i
    → IsCounted s
    → IsCounted (run me from m i s)
unfolding run
run-IsCounted me from m i s e c =
    let linked = with_instance-IsCounted s me i (add_link from i) e c in
    IsCounted-if (is_link_msg m) _ _
      (IsCounted-if i.observes_links _ _
        (IsCounted-if i.in_shutdown _ _ linked
          (deliver-IsCounted me from m (add_link from i) _ linked))
        linked)
      (IsCounted-if i.in_shutdown s _ c (deliver-IsCounted me from m i s c))

-- One id that was alive is free.
pub population-gone :
    (n : ℕ) (f : ℕ → Option Instance) (id : ℕ) (i : Instance)
    → id < n
    → f id ≡ some i
    → population n f ≡ suc (population n (put f id none))
unfolding population
population-gone zero f id i h e = absurd (omega arith)
population-gone (suc n) f id i h e = elim (Bool-cases (id == n)) [
  | inl same ↦ ground (arith, population-put_above n f id none)
  | inr other ↦ ground (arith, population-gone n f id i)
]

pub destroy-IsCounted :
    (me : ℕ) (s : System) (i : Instance)
    → s.instances me ≡ some i
    → IsCounted s
    → IsCounted (destroy me s)
unfolding destroy
destroy-IsCounted me s i e c =
    let below : me < s.next_id = ground (arith, c.fresh me) in
    record {
      fresh = λ j h. ground (arith, c.fresh j h);
      positive = c.positive;
      null = ground (arith, c.null);
      counted = omega (arith, c.counted, population-gone s.next_id s.instances me i below e);
    }

settle-IsCounted : (me : ℕ) (s : System) → IsCounted s → IsCounted (settle me s)
unfolding settle
settle-IsCounted me s c = elim (Option-cases (s.instances me)) [
  | inl e ↦ rw (e, settle) c
  | inr (i, e) ↦
      rw (e, settle)
        (IsCounted-if i.lifetime s _ c
          (IsCounted-if (i.lifelocks == 0) _ s (by_mailbox i e i.mailbox) c))
]
  where
    by_mailbox :
        (i : Instance)
        → s.instances me ≡ some i
        → (l : List Task) → IsCounted (elim l as (λ _. System) [ [] ↦ destroy me s | _ ∷ _ ↦ s ])
    by_mailbox i e [] = destroy-IsCounted me s i e c
    by_mailbox i e (t ∷ l) = c

pub release-IsCounted : (me : ℕ) (s : System) → IsCounted s → IsCounted (release me s)
unfolding release
release-IsCounted me s c = settle-IsCounted me _ (modify-IsCounted s me _ c)

pub dispatch_sync-IsCounted :
    (me : ℕ) (m : Bytes) (s : System) → IsCounted s → IsCounted (dispatch_sync me m s).1
unfolding dispatch_sync
dispatch_sync-IsCounted me m s c = elim (Option-cases (s.instances me)) [
  | inl e ↦ rw (e, dispatch_sync) c
  | inr (i, e) ↦
      rw (e, dispatch_sync)
        (by_shutdown _ _ i.in_shutdown c (settle-IsCounted me _ (run-IsCounted me 0 m i s e c)))
]
  where
    by_shutdown :
        (x y : Sent × System) (b : Bool)
        → IsCounted x.1
        → IsCounted y.1
        → IsCounted (if◌then◌else◌ {A = Sent × System} b x y).1
    by_shutdown x y true hx hy = hx
    by_shutdown x y false hx hy = hy

pub step-IsCounted : (me : ℕ) (s : System) → IsCounted s → IsCounted (step me s)
unfolding step
step-IsCounted me s c = elim (Option-cases (s.instances me)) [
  | inl e ↦ rw (e, step) c
  | inr (i, e) ↦ rw (e, step) (by_mailbox i e i.mailbox)
]
  where
    by_mailbox :
        (i : Instance)
        → s.instances me ≡ some i
        → (l : List Task)
        → IsCounted (elim l as (λ _. System) [
          | [] ↦ s
          | t ∷ rest ↦ settle me (
              run me t.from t.msg
                (record i { mailbox = rest })
                (with_instance s me (record i { mailbox = rest })))
        ])
    by_mailbox i e [] = c
    by_mailbox i e (t ∷ rest) =
        let i' = record i { mailbox = rest } in
        settle-IsCounted me _ (
          run-IsCounted me t.from t.msg i' _ (ground arith) (with_instance-IsCounted s me i i' e c))
