-- ===== src/Actor/Later.antt =====
-- What the calls of the runtime leave of the instances that are alive: they stay alive, and their
-- mailboxes only grow at the end. The count of instances stays right.
use thespian.Prelude.{
  ℕ, zero, suc, ◌+◌, ◌≤◌, ◌<◌, ◌≡◌, refl, sym, ap, ◌∙◌, List, [], ◌++◌, append_assoc, append-nil,
  Option, none, some, arith, ◌==◌, Option-cases, inl, inr, Bool-cases, ==_iff, subst,
}
use thespian.Actor.Send.{construct}
use thespian.Actor.State.{Instance, System, Task, put, with_instance, modify}

abbrev pub alive : Option Instance → ℕ
alive none = 0
alive (some i) = 1

-- How many of the ids below `n` are alive.
unfoldable pub population : ℕ → (ℕ → Option Instance) → ℕ
population zero f = 0
population (suc n) f = alive (f n) + population n f

-- No id that is still to be given out is alive, nor is that of a null handle; `active` counts the
-- instances.
pub record IsCounted (s : System) : Type 0 where
  pub fresh : (id : ℕ) → s.next_id ≤ id → s.instances id ≡ none
  pub positive : 0 < s.next_id
  pub null : s.instances 0 ≡ none
  pub counted : s.active ≡ population s.next_id s.instances

-- An instance before and after some calls.
pub record After (p q : Instance) : Type 0 where
  pub posted : List Task
  pub mailbox : q.mailbox ≡ p.mailbox ++ posted
  pub in_shutdown : q.in_shutdown ≡ p.in_shutdown
  pub lifetime : q.lifetime ≡ p.lifetime
  pub name : q.name ≡ p.name

pub After-refl : (p : Instance) → After p p
After-refl p = record {
  posted = [];
  mailbox = sym (append-nil p.mailbox);
  in_shutdown = refl;
  lifetime = refl;
  name = refl;
}

pub After-trans : {p q r : Instance} → After p q → After q r → After p r
After-trans {p} a b = record {
  posted = a.posted ++ b.posted;
  mailbox =
      b.mailbox ∙ ap (λ l. l ++ b.posted) a.mailbox ∙ append_assoc p.mailbox a.posted b.posted;
  in_shutdown = b.in_shutdown ∙ a.in_shutdown;
  lifetime = b.lifetime ∙ a.lifetime;
  name = b.name ∙ a.name;
}

-- The instances of `s` in `s'`.
abbrev pub Kept : System → System → Type 0
Kept s s' =
    (j : ℕ) (p : Instance)
    → s.instances j ≡ some p
    → (q : Instance) × (s'.instances j ≡ some q) × After p q

pub record Later (s s' : System) : Type 0 where
  pub counted : IsCounted s → IsCounted s'
  pub kept : IsCounted s → Kept s s'

pub Later-refl : (s : System) → Later s s
Later-refl s = record { counted = λ c. c; kept = λ c j p e. (p, e, After-refl p) }

pub Later-trans : {s t u : System} → Later s t → Later t u → Later s u
Later-trans a b = record {
  counted = λ c. b.counted (a.counted c);
  kept = λ c j p e.
      let (q, e', x) = a.kept c j p e in
      let (r, e'', y) = b.kept (a.counted c) j q e' in (r, e'', After-trans x y);
}

pub population-put :
    (n : ℕ) (f : ℕ → Option Instance) (id : ℕ) (x : Option Instance)
    → alive x ≡ alive (f id)
    → population n (put f id x) ≡ population n f
unfolding population
population-put zero f id x h = refl
population-put (suc n) f id x h = ground (arith, population-put n f id x h)

pub population-put_above :
    (n : ℕ) (f : ℕ → Option Instance) (id : ℕ) (x : Option Instance)
    → n ≤ id
    → population n (put f id x) ≡ population n f
unfolding population
population-put_above zero f id x h = refl
population-put_above (suc n) f id x h = ground (arith, population-put_above n f id x)

kept-put :
    (f : ℕ → Option Instance) (id : ℕ) (p p' : Instance) (j : ℕ) (q : Instance)
    → f id ≡ some p
    → After p p'
    → f j ≡ some q
    → (x : Instance) × (put f id (some p') j ≡ some x) × After q x
kept-put f id p p' j q e a e' = elim (Bool-cases (j == id)) [
  | inl same ↦
      let there : j ≡ id = (==_iff j id).0 same in
      let old : p ≡ q = ground (arith, e, e', there) in (p', rw same, subst (λ x. After x p') old a)
  | inr other ↦ (q, rw other e', After-refl q)
]

-- Changing an instance that is alive.
pub with_instance-Later :
    (s : System) (id : ℕ) (p p' : Instance)
    → s.instances id ≡ some p
    → After p p'
    → Later s (with_instance s id p')
with_instance-Later s id p p' e a = record {
  counted = λ c. record {
    fresh = λ j h. ground (arith, c.fresh j h, c.fresh id);
    positive = c.positive;
    null = ground (arith, c.null);
    counted =
        c.counted ∙ sym (population-put s.next_id s.instances id (some p') (ground (arith, e)));
  };
  kept = λ c j q e'. kept-put s.instances id p p' j q e a e';
}

pub modify-Later :
    (s : System) (id : ℕ) (f : Instance → Instance)
    → ((p : Instance) → After p (f p))
    → Later s (modify id f s)
unfolding modify
modify-Later s id f a = elim (Option-cases (s.instances id)) [
  | inl e ↦ rw (e, modify) (Later-refl s)
  | inr (p, e) ↦ rw (e, modify) (with_instance-Later s id p (f p) e (a p))
]

-- The constructor takes an id that is not in use.
pub construct-Later : (s : System) (i : Instance) → Later s (construct s i)
unfolding population
construct-Later s i = record {
  counted = λ c. record {
    fresh = λ j h. ground (arith, c.fresh j);
    positive = omega arith;
    null = ground (arith, c.null, c.positive);
    counted = omega (
      arith,
      c.counted,
      population-put_above s.next_id s.instances s.next_id (some i) (omega arith),
      ap alive (own s.next_id),
    );
  };
  kept = λ c j q e. elim (Bool-cases (j == s.next_id)) [
    | inl same ↦
        let there : j ≡ s.next_id = (==_iff j s.next_id).0 same in
        absurd (ground (arith, c.fresh j, e, there))
    | inr other ↦ (q, rw other e, After-refl q)
  ];
}
  where
    own : (n : ℕ) → put s.instances n (some i) n ≡ some i
    own n = ground arith
