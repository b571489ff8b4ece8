-- ===== src/Executor/OneWait.antt =====
-- One wait for each side at a time, in every run of the executor.
use thespian.Prelude.{
  ℕ, ◌≡◌, refl, sym, ap, ◌∙◌, Bool, true, false, ◌&&◌, List, ◌++◌, ◌==◌, ==_iff, arith, Bool-cases,
  inl, inr,
}
use thespian.Executor.Async.{
  Side, reading, writing, Kind, fired, expired, received, connected, written, read, accepted,
  guarded, Op, Context, Call, Completion, sub_one, accept, handled, callback, post, run_posted,
  construct, destroy, Step, constructs, destroys, invokes, posts, runs, completes, Run, here, next,
  initial, set_progress,
}
use thespian.Executor.Guard.{
  is_guarded, is_wait, as_number, IsPlain, IsGuarded, IsTaken, plain-IsGuarded, progress-other,
  progress-same, invoke-IsGuarded, take-IsTaken, drop-IsGuarded, fired-IsPlain, expired-IsPlain,
  received-IsPlain, connected-IsPlain, written-IsPlain, read-IsPlain, accepted-IsPlain, waits,
}

none-IsGuarded :
    (k : Kind) (o : ℕ) {c : Context}
    → IsPlain k
    → IsTaken (record { kind = k; object = o }) c
    → IsGuarded c
none-IsGuarded k o p h = drop-IsGuarded (record { kind = k; object = o }) (λ s j a. rw (p s)) h

-- The end of a wait clears the flag.
guarded-IsGuarded :
    (side : Side) (o : ℕ) (c : Context)
    → IsTaken (record { kind = guarded side; object = o }) c
    → IsGuarded (record c { in_progress = set_progress side o false c.in_progress })
guarded-IsGuarded side o c h = record {
  unborn = h.unborn;
  unused = h.unused;
  one_wait = λ s j a.
      let r = h.one_wait s j a in
      elim (Bool-cases (is_guarded s (guarded side) && o == j)) [
        | inl e ↦
            let same = progress-same side o false c.in_progress s j e in
            rw (same.0) (ground (arith, (rw e at r)))
        | inr e ↦ rw (progress-other side o false c.in_progress s j e) (rw e at r)
      ];
}

handled-IsGuarded :
    (aborted : Bool) (k : Kind) (o : ℕ) (d : Completion) (c : Context)
    → IsTaken (record { kind = k; object = o }) c
    → IsGuarded (handled aborted k o d c).0
unfolding handled accept
handled-IsGuarded aborted fired o d c h = none-IsGuarded fired o fired-IsPlain h
handled-IsGuarded aborted expired o d c h = none-IsGuarded expired o expired-IsPlain h
handled-IsGuarded aborted received o d c h =
    let g = none-IsGuarded received o received-IsPlain h in
    record { unborn = g.unborn; unused = g.unused; one_wait = g.one_wait }
handled-IsGuarded aborted connected o d c h = none-IsGuarded connected o connected-IsPlain h
handled-IsGuarded aborted written o d c h = none-IsGuarded written o written-IsPlain h
handled-IsGuarded aborted read o d c h = none-IsGuarded read o read-IsPlain h
handled-IsGuarded true accepted o d c h =
    plain-IsGuarded accepted o accepted-IsPlain (none-IsGuarded accepted o accepted-IsPlain h)
handled-IsGuarded false accepted o d c h = none-IsGuarded accepted o accepted-IsPlain h
handled-IsGuarded aborted (guarded side) o d c h = guarded-IsGuarded side o c h

-- An object that is gone has no flag to keep.
gone-is_wait :
    (op : Op) (c : Context)
    → c.alive op.object ≡ false
    → (s : Side) (o : ℕ) → c.alive o ≡ true
    → is_wait s o op ≡ false
gone-is_wait op c e s o a = elim (Bool-cases (op.object == o)) [
  | inl same ↦ cc (e, a, (==_iff op.object o).0 same)
  | inr other ↦ rw other (ground arith)
]

callback-IsGuarded :
    (aborted : ℕ → Bool) (op : Op) (d : Completion) (c : Context)
    → IsTaken op (record c { pending = sub_one c.pending })
    → IsGuarded (callback aborted op d c).0
unfolding callback
callback-IsGuarded aborted op d c h = elim (Bool-cases (c.alive op.object)) [
  | inl e ↦ rw e (
      handled-IsGuarded (aborted d.ec) op.kind op.object d
        (record c { pending = sub_one c.pending }) h)
  | inr e ↦ rw e (drop-IsGuarded op (gone-is_wait op c e) h)
]

construct-IsGuarded : (c : Context) → IsGuarded c → IsGuarded (construct c)
unfolding construct
construct-IsGuarded c h = record {
  unborn = λ o l. ground (arith, h.unborn o);
  unused = λ s o l. h.unused s o (omega arith);
  one_wait = λ s o a. elim (Bool-cases (o == c.next_object)) [
    | inl e ↦
        let same = (==_iff o c.next_object).0 e in
        h.unused s o (omega (arith, same)) ∙ sym (ap as_number (cleared s o same))
    | inr e ↦ h.one_wait s o (rw e at a) ∙ ap as_number (sym (kept s o e))
  ];
}
  where
    cleared :
        (s : Side) (o : ℕ)
        → o ≡ c.next_object
        → set_progress reading c.next_object false
            (set_progress writing c.next_object false c.in_progress)
            s
            o
          ≡ false
    cleared reading o e = ground arith
    cleared writing o e = ground arith

    kept :
        (s : Side) (o : ℕ)
        → o == c.next_object ≡ false
        → set_progress reading c.next_object false
            (set_progress writing c.next_object false c.in_progress)
            s
            o
          ≡ c.in_progress s o
    kept reading o e = rw e
    kept writing o e = rw e

destroy-IsGuarded : (o : ℕ) (c : Context) → IsGuarded c → IsGuarded (destroy o c)
unfolding destroy
destroy-IsGuarded o c h = record {
  unborn = λ j l. ground (arith, h.unborn j);
  unused = h.unused;
  one_wait = λ s j a. h.one_wait s j (ground arith);
}

Step-IsGuarded :
    {aborted : ℕ → Bool} {c d : Context} {cs : List Call}
    → Step aborted c cs d
    → IsGuarded c
    → IsGuarded d
unfolding post run_posted
Step-IsGuarded {c = c} constructs h = construct-IsGuarded c h
Step-IsGuarded {c = c} (destroys o a) h = destroy-IsGuarded o c h
Step-IsGuarded {c = c} (invokes m o a) h = invoke-IsGuarded m o c a h
Step-IsGuarded (posts strand) h = record {
  unborn = h.unborn;
  unused = h.unused;
  one_wait = h.one_wait;
}
Step-IsGuarded (runs before after strand e) h = record {
  unborn = h.unborn;
  unused = h.unused;
  one_wait = h.one_wait;
}
Step-IsGuarded {aborted} {c} (completes before after op d e) h =
    callback-IsGuarded aborted op d (record c { outstanding = before ++ after })
      (take-IsTaken before after op e h)

-- In every run, asio has exactly one wait for a side of an object that is there while the flag of that
-- side is set, and none while it is clear.
pub Run-one_wait :
    {aborted : ℕ → Bool} {cs : List Call} {c : Context}
    → Run aborted initial cs c
    → (s : Side) (o : ℕ) → c.alive o ≡ true
    → waits s o c.outstanding ≡ as_number (c.in_progress s o)
unfolding waits
Run-one_wait r = (guarded_run r).one_wait
  where
    guarded_run :
        {aborted : ℕ → Bool} {cs : List Call} {c : Context} → Run aborted initial cs c → IsGuarded c
    guarded_run here = record {
      unborn = λ o l. refl;
      unused = λ s o l. refl;
      one_wait = λ s o a. (cc);
    }
    guarded_run (next r st) = Step-IsGuarded st (guarded_run r)
