-- ===== src/Actor/Counted.antt =====
-- The count of instances over whole steps: the receiver, the exit, and the destructor.
use thespian.Prelude.{
  ℕ, ◌≡◌, sym, ◌∙◌, true, List, [], ◌∷◌, Option, none, some, arith, Option-cases, inl, inr,
}
use thespian.Cbor.Result.{Bytes, Result, ok, err, out_of_fuel}
use thespian.Actor.Messages.{what}
use thespian.Actor.State.{Called, ended, threw, Instance, Reason, System, with_instance, modify}
use thespian.Actor.Run.{
  send_links, exit_reason, retire, call_exit_handlers, handle_exit, exit_with, exit_caught,
  unhandled_msg, after_handlers,
}
use thespian.Actor.Later.{IsCounted, population-put}
use thespian.Actor.ExecLater.{send_raw-Later}

-- A change of one instance that is alive.
pub with_instance-IsCounted :
    (s : System) (id : ℕ) (p p' : Instance)
    → s.instances id ≡ some p
    → IsCounted s
    → IsCounted (with_instance s id p')
with_instance-IsCounted s id p p' e c = record {
  fresh = λ j h. ground (arith, c.fresh j h, c.fresh id);
  positive = c.positive;
  null = ground (arith, c.null);
  counted = c.counted ∙ sym (population-put s.next_id s.instances id (some p') (ground (arith, e)));
}

pub modify-IsCounted :
    (s : System) (id : ℕ) (f : Instance → Instance) → IsCounted s → IsCounted (modify id f s)
unfolding modify
modify-IsCounted s id f c = elim (Option-cases (s.instances id)) [
  | inl e ↦ rw (e, modify) c
  | inr (p, e) ↦ rw (e, modify) (with_instance-IsCounted s id p (f p) e c)
]

send_links-IsCounted :
    (hs : List ℕ) (me : ℕ) (m : Bytes) (s : System) → IsCounted s → IsCounted (send_links hs me m s)
unfolding send_links
send_links-IsCounted [] me m s c = c
send_links-IsCounted (h ∷ hs) me m s c =
    send_links-IsCounted hs me m _ ((send_raw-Later s (some me) h m).counted c)

-- The log of the exits is no part of the count.
logged-IsCounted :
    (s : System) (l : List (ℕ × Reason)) → IsCounted s → IsCounted (record s { exits = l })
logged-IsCounted s l c = record {
  fresh = c.fresh;
  positive = c.positive;
  null = c.null;
  counted = c.counted;
}

after_handlers-IsCounted :
    (me : ℕ) (c : Called) (s : System) → IsCounted s → IsCounted (after_handlers me c s).1
unfolding after_handlers
after_handlers-IsCounted me ended s c = modify-IsCounted s me retire c
after_handlers-IsCounted me (threw w) s c = c

call_exit_handlers-IsCounted :
    (me : ℕ) (m : Bytes) (eh : Option (Reason → Called)) (s : System)
    → IsCounted s
    → IsCounted (call_exit_handlers me m eh s).1
unfolding call_exit_handlers
call_exit_handlers-IsCounted me m none s c = modify-IsCounted s me retire c
call_exit_handlers-IsCounted me m (some eh) s c = by_reason (exit_reason m)
  where
    s' : System
    s' = modify me (λ i. record i { exit_handler = none }) s

    c' : IsCounted s'
    c' = modify-IsCounted s me _ c

    by_reason :
        (r : Result Reason)
        → IsCounted
            (elim r as (λ _. Called × System) [
              | ok r ↦ after_handlers me (eh r) (record s' { exits = (me, r) ∷ s'.exits })
              | err e ↦ (threw (some (what e)), s')
              | out_of_fuel ↦ (ended, s')
            ]).1
    by_reason (ok r) = after_handlers-IsCounted me (eh r) _ (logged-IsCounted s' _ c')
    by_reason (err e) = c'
    by_reason out_of_fuel = c'

handle_exit-IsCounted :
    (me : ℕ) (m : Bytes) (s : System) → IsCounted s → IsCounted (handle_exit me m s).1
unfolding handle_exit
handle_exit-IsCounted me m s c = elim (Option-cases (s.instances me)) [
  | inl e ↦ rw (e, handle_exit) c
  | inr (i, e) ↦
      rw (e, handle_exit)
        (call_exit_handlers-IsCounted me m i.exit_handler _ (
          send_links-IsCounted i.links me m _
            (with_instance-IsCounted s me i (record i { in_shutdown = true }) e c)))
]

pub exit_caught-IsCounted :
    (me : ℕ) (w : Option Bytes) (s : System) → IsCounted s → IsCounted (exit_caught me w s)
unfolding exit_caught
exit_caught-IsCounted me w s c = handle_exit-IsCounted me (unhandled_msg w) s c

pub exit_with-IsCounted :
    (me : ℕ) (m : Bytes) (s : System) → IsCounted s → IsCounted (exit_with me m s)
unfolding exit_with
exit_with-IsCounted me m s c = by_called (handle_exit me m s).0 (handle_exit-IsCounted me m s c)
  where
    by_called :
        (t : Called)
        → IsCounted (handle_exit me m s).1
        → IsCounted (elim t as (λ _. System) [
          | ended ↦ (handle_exit me m s).1
          | threw w ↦ exit_caught me w (handle_exit me m s).1
        ])
    by_called ended h = h
    by_called (threw w) h = exit_caught-IsCounted me w _ h
