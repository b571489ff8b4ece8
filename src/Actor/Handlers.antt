-- ===== src/Actor/Handlers.antt =====
-- The exit handlers: what their call does to the actor that exits, and that it touches no other.
use thespian.Prelude.{
  ℕ, ◌≡◌, refl, ◌∙◌, Bool, true, false, List, ◌∷◌, Option, none, some, arith, ◌==◌,
}
use thespian.Cbor.Result.{Bytes, Result, ok, err, out_of_fuel}
use thespian.Actor.Messages.{what}
use thespian.Actor.State.{Called, ended, threw, Instance, System, Reason, Installed, modify}
use thespian.Actor.Run.{exit_reason, after_handlers, retire, call_exit_handlers}

modify_other :
    (s : System) (me j : ℕ) (f : Instance → Instance)
    → (j == me) ≡ false
    → (modify me f s).instances j ≡ s.instances j
unfolding modify
modify_other s me j f e = ground arith

pub modify_self :
    (s : System) (me : ℕ) (f : Instance → Instance) (i : Instance)
    → s.instances me ≡ some i
    → (modify me f s).instances me ≡ some (f i)
unfolding modify
modify_self s me f i e = ground arith

after_handlers_other :
    (me j : ℕ) (c : Called) (s : System)
    → (j == me) ≡ false
    → (after_handlers me c s).1.instances j ≡ s.instances j
unfolding after_handlers
after_handlers_other me j ended s e = modify_other s me j _ e
after_handlers_other me j (threw w) s e = refl

pub call_exit_handlers_other :
    (me j : ℕ) (m : Bytes) (eh : Option (Reason → Called)) (s : System)
    → (j == me) ≡ false
    → (call_exit_handlers me m eh s).1.instances j ≡ s.instances j
unfolding call_exit_handlers
call_exit_handlers_other me j m none s e = modify_other s me j _ e
call_exit_handlers_other me j m (some eh) s e = by_reason (exit_reason m)
  where
    s' : System
    s' = modify me (λ i. record i { exit_handler = none }) s

    by_reason :
        (r : Result Reason)
        → (elim r as (λ _. Called × System) [
          | ok r ↦ after_handlers me (eh r) (record s' { exits = (me, r) ∷ s'.exits })
          | err e ↦ (threw (some (what e)), s')
          | out_of_fuel ↦ (ended, s')
        ]).1.instances
            j
          ≡ s.instances j
    by_reason (ok r) = after_handlers_other me j (eh r) _ e ∙ modify_other s me j _ e
    by_reason (err x) = modify_other s me j _ e
    by_reason out_of_fuel = modify_other s me j _ e

-- The exit handlers return when they are called.
unfoldable pub return_on : Option (Reason → Called) → Reason → Bool
return_on none r = true
return_on (some eh) r = elim (eh r) [ ended ↦ true | threw w ↦ false ]

pub return_on-ended :
    (eh : Reason → Called) (r : Reason) → return_on (some eh) r ≡ true → eh r ≡ ended
unfolding return_on
return_on-ended eh r h = by_called (eh r) h
  where
    by_called :
        (c : Called) → elim c as (λ _. Bool) [ ended ↦ true | threw w ↦ false ] ≡ true → c ≡ ended
    by_called ended e = refl
    by_called (threw w) e = cc

-- The instance that exits, in the end.
abbrev pub exited : Instance → Instance
exited i = record i {
  in_shutdown = true;
  exit_handler = none;
  receiver = Installed.empty;
  lifetime = false;
}

-- What the exit handlers leave, if they return.
call_exit_handlers_ended :
    (me : ℕ) (m : Bytes) (r : Reason) (eh : Option (Reason → Called)) (s : System)
    → exit_reason m ≡ ok r
    → return_on eh r ≡ true
    → call_exit_handlers me m eh s ≡ (elim eh [
      | none ↦ (ended, modify me retire s)
      | some _ ↦
          let s' = modify me (λ i. record i { exit_handler = none }) s in
          (ended, modify me retire (record s' { exits = (me, r) ∷ s'.exits }))
    ])
unfolding call_exit_handlers after_handlers
call_exit_handlers_ended me m r none s h q = refl
call_exit_handlers_ended me m r (some eh) s h q =
    rw (h, call_exit_handlers, return_on-ended eh r q, after_handlers) refl

pub call_exit_handlers_self :
    (me : ℕ) (m : Bytes) (r : Reason) (eh : Option (Reason → Called)) (s : System) (i : Instance)
    → s.instances me ≡ some i
    → i.exit_handler ≡ eh
    → exit_reason m ≡ ok r
    → return_on eh r ≡ true
    → (call_exit_handlers me m eh s).1.instances me
      ≡ some (record i { exit_handler = none; receiver = Installed.empty; lifetime = false })
unfolding modify
call_exit_handlers_self me m r none s i e n h q =
    rw (call_exit_handlers_ended me m r none s h q) (ground arith)
call_exit_handlers_self me m r (some eh) s i e n h q =
    rw (call_exit_handlers_ended me m r (some eh) s h q) (ground arith)

-- The log of the calls, with the call of the exit handlers if there are any.
abbrev pub logged : Option (Reason → Called) → ℕ → Reason → List (ℕ × Reason) → List (ℕ × Reason)
logged eh me r l = elim eh [ none ↦ l | some _ ↦ (me, r) ∷ l ]

pub call_exit_handlers_log :
    (me : ℕ) (m : Bytes) (r : Reason) (eh : Option (Reason → Called)) (s : System)
    → exit_reason m ≡ ok r
    → return_on eh r ≡ true
    → ((call_exit_handlers me m eh s).0 ≡ ended)
      × ((call_exit_handlers me m eh s).1.exits ≡ logged eh me r s.exits)
unfolding modify
call_exit_handlers_log me m r none s h q =
    rw (call_exit_handlers_ended me m r none s h q) (refl, ground arith)
call_exit_handlers_log me m r (some eh) s h q =
    rw (call_exit_handlers_ended me m r (some eh) s h q) (refl, ground arith)
