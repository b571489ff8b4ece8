-- ===== src/Actor/ExecLater.antt =====
-- No code that an actor runs can take an instance away, stop it, or touch what is queued for it.
use thespian.Prelude.{
  ℕ, ◌≡◌, refl, sym, ◌∙◌, append-nil, Bool, true, false, [], ◌∷◌, Option, none, some, arith,
  Option-cases, inl, inr, if◌then◌else◌,
}
use thespian.Cbor.Result.{Bytes}
use thespian.Actor.Messages.{link_msg, null_value}
use thespian.Actor.State.{
  Called, Reason, hold, Code, finish, trap, observe_links, Instance, System, installed,
}
use thespian.Actor.Send.{
  Sent, sent, refused, raised, queue, post, send_raw, sender, construct, schedule, spawn,
  spawn_link, link, fresh, add_link,
}
use thespian.Actor.Run.{exec, take_lifelock}
use thespian.Actor.Later.{
  IsCounted, Later, Later-refl, Later-trans, After, with_instance-Later, modify-Later,
  construct-Later,
}

post-After : (from : ℕ) (m : Bytes) (p : Instance) → After p (post from m p)
post-After from m p = record {
  posted = record { from = from; msg = m } ∷ [];
  mailbox = refl;
  in_shutdown = refl;
  lifetime = refl;
  name = refl;
}

-- A change of the fields that no other instance looks at.
still :
    (p q : Instance)
    → q.mailbox ≡ p.mailbox
    → q.in_shutdown ≡ p.in_shutdown
    → q.lifetime ≡ p.lifetime
    → q.name ≡ p.name
    → After p q
still p q a b c d = record {
  posted = [];
  mailbox = a ∙ sym (append-nil p.mailbox);
  in_shutdown = b;
  lifetime = c;
  name = d;
}

Later-if {ℓ} :
    {A : Type ℓ} (s : System) (b : Bool) (x y : A × System)
    → Later s x.1
    → Later s y.1
    → Later s (if b then x else y).1
Later-if s true x y hx hy = hx
Later-if s false x y hx hy = hy

-- A branch on what a send answered.
Later-sent :
    {A : Type 0} (s : System) (r : Sent) (x : A × System) (y z : Bytes → A × System)
    → Later s x.1
    → ((e : Bytes) → Later s (y e).1)
    → ((w : Bytes) → Later s (z w).1)
    → Later s (elim r as (λ _. A × System) [ sent ↦ x | refused e ↦ y e | raised w ↦ z w ]).1
Later-sent s sent x y z hx hy hz = hx
Later-sent s (refused e) x y z hx hy hz = hy e
Later-sent s (raised w) x y z hx hy hz = hz w

-- A branch on the handle of a new instance.
Later-spawned :
    {A : Type 0} (s : System) (r : Option ℕ) (x : A × System) (y : ℕ → A × System)
    → Later s x.1
    → ((h : ℕ) → Later s (y h).1)
    → Later s (elim r as (λ _. A × System) [ none ↦ x | some h ↦ y h ]).1
Later-spawned s none x y hx hy = hx
Later-spawned s (some h) x y hx hy = hy h

queue-Later :
    (s : System) (me : Option ℕ) (id : ℕ) (p : Instance) (from : ℕ) (m : Bytes)
    → s.instances id ≡ some p
    → Later s (queue s me id p from m).1
unfolding queue
queue-Later s me id p from m e =
    Later-if s p.in_shutdown _ _ (Later-refl s)
      (with_instance-Later s id p (post from m p) e (post-After from m p))

pub send_raw-Later :
    (s : System) (me : Option ℕ) (to : ℕ) (m : Bytes) → Later s (send_raw s me to m).1
unfolding send_raw
send_raw-Later s me to m = elim (Option-cases (s.instances to)) [
  | inl e ↦ rw (e, send_raw) (Later-refl s)
  | inr (p, e) ↦ rw (e, send_raw) (queue-Later s me to p (sender me) m e)
]

schedule-Later : (s : System) (me : Option ℕ) (id : ℕ) → Later s (schedule s me id).1
unfolding schedule
schedule-Later s me id = elim (Option-cases (s.instances id)) [
  | inl e ↦ rw (e, schedule) (Later-refl s)
  | inr (p, e) ↦
      let l = queue-Later s me id p 0 null_value e in
      rw (e, schedule)
        (Later-sent s (queue s me id p 0 null_value).0 _ (λ _. _) (λ _. _) l (λ _. l) (λ _. l))
]

linked-Later :
    (s : System) (me : Option ℕ) (p : Instance) (linked : Option ℕ)
    → Later s
        (elim linked as (λ _. Option ℕ × System) [
          | none ↦ schedule (construct s p) me s.next_id
          | some l ↦
              let (r, s₂) = queue (construct s p) me s.next_id p l link_msg in
              let y : Option ℕ × System = elim r [
                | sent ↦ schedule s₂ me s.next_id
                | _ ↦ (none, s₂)
              ] in
              y
        ]).1
linked-Later s me p none =
    Later-trans (construct-Later s p) (schedule-Later (construct s p) me s.next_id)
linked-Later s me p (some l) =
    let s₁ = construct s p in
    let own : s₁.instances s.next_id ≡ some p = ground arith in
    let posted = Later-trans (construct-Later s p) (queue-Later s₁ me s.next_id p l link_msg own) in
    let s₂ = (queue s₁ me s.next_id p l link_msg).1 in
    Later-sent s (queue s₁ me s.next_id p l link_msg).0 _ (λ _. _) (λ _. _)
      (Later-trans posted (schedule-Later s₂ me s.next_id)) (λ _. posted) (λ _. posted)

pub spawn-Later :
    (s : System) (me : Option ℕ) (b : Code) (eh : Option (Reason → Called)) (name : Bytes)
    (linked : Option ℕ)
    → Later s (spawn s me b eh name linked).1
unfolding spawn
spawn-Later s me b eh name linked = linked-Later s me (fresh b name eh) linked

add_link-After : (h : ℕ) (p : Instance) → After p (add_link h p)
add_link-After h p = still p (add_link h p) refl refl refl refl

spawn_link-Later :
    (s : System) (me : ℕ) (b : Code) (name : Bytes) → Later s (spawn_link s me b name).1
unfolding spawn_link
spawn_link-Later s me b name =
    let l = spawn-Later s (some me) b none name _ in
    Later-spawned s _ _ (λ _. _) l
      (λ h. Later-trans l (modify-Later _ me (add_link h) (add_link-After h)))

link-Later : (s : System) (me h : ℕ) → Later s (link s me h).1
unfolding link
link-Later s me h =
    let l = send_raw-Later s (some me) h link_msg in
    Later-sent s _ _ (λ _. _) (λ _. _)
      (Later-trans l (modify-Later _ me (add_link h) (add_link-After h))) (λ _. l) (λ _. l)

exec-Later : (c : Code) (me : ℕ) (s : System) → Later s (exec c me s).1
unfolding exec
exec-Later (finish o) me s = Later-refl s
exec-Later (Code.send to m k) me s =
    let l = send_raw-Later s (some me) to m in
    Later-sent s _ _ (λ _. _) (λ _. _) (Later-trans l (exec-Later (k none) me _))
      (λ e. Later-trans l (exec-Later (k (some e)) me _)) (λ _. l)
exec-Later (Code.receive r k) me s =
    Later-trans
      (modify-Later s me _ (λ p. still p (record p { receiver = installed r }) refl refl refl refl))
      (exec-Later k me _)
exec-Later (trap t k) me s =
    Later-trans
      (modify-Later s me _ (λ p. still p (record p { trap_exit = t }) refl refl refl refl))
      (exec-Later (k _) me _)
exec-Later (observe_links o k) me s =
    Later-trans
      (modify-Later s me _ (λ p. still p (record p { observes_links = o }) refl refl refl refl))
      (exec-Later (k _) me _)
exec-Later (Code.link h k) me s =
    let l = link-Later s me h in
    Later-sent s _ _ (λ _. _) (λ _. _) (Later-trans l (exec-Later k me _))
      (λ e. Later-trans l (exec-Later k me _)) (λ _. l)
exec-Later (Code.spawn b name k) me s =
    let l = spawn-Later s (some me) b none name none in
    Later-spawned s _ _ (λ _. _) (Later-trans l (exec-Later (k 0) me _))
      (λ h. Later-trans l (exec-Later (k h) me _))
exec-Later (Code.spawn_link b name k) me s =
    let l = spawn_link-Later s me b name in
    Later-spawned s _ _ (λ _. _) (Later-trans l (exec-Later (k 0) me _))
      (λ h. Later-trans l (exec-Later (k h) me _))
exec-Later (hold k) me s =
    Later-trans (modify-Later s me _ (λ p. still p (take_lifelock p) refl refl refl refl))
      (exec-Later k me _)

-- Whatever the code of an activation does, `active` counts the instances that are alive, and no id
-- is given out twice.
pub exec-IsCounted : (c : Code) (me : ℕ) (s : System) → IsCounted s → IsCounted (exec c me s).1
exec-IsCounted c me s counted = (exec-Later c me s).counted counted

-- Whatever the code of an activation does, each instance that was alive is alive after it, in
-- shutdown only if it was, and with what was queued for it in the same order, behind which there is
-- at most something new.
pub exec_keeps :
    (c : Code) (me j : ℕ) (s : System) (p : Instance)
    → IsCounted s
    → s.instances j ≡ some p
    → (q : Instance) × ((exec c me s).1.instances j ≡ some q) × After p q
exec_keeps c me j s p counted e = (exec-Later c me s).kept counted j p e
