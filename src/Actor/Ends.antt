-- ===== src/Actor/Ends.antt =====
-- How an actor ends: the tasks that are left when it has stopped, and the last instance.
use thespian.Prelude.{
  ℕ, zero, suc, ◌≡◌, refl, ap, ◌∙◌, Bool, true, false, List, [], ◌∷◌, Option, none, some, arith,
  ◌-◌, subst, sym, if◌then◌else◌, bytes_eq, length,
}
use thespian.Cbor.Result.{ok}
use thespian.Actor.Messages.{is_link_msg, is_exit_msg, exit_normal_msg}
use thespian.Actor.State.{Instance, System, Task, Reason, modify, with_instance}
use thespian.Actor.Send.{add_link}
use thespian.Actor.Run.{exit_reason, step, release}
use thespian.Actor.Handlers.{exited, return_on}
use thespian.Actor.Deliver.{survivor, taken, remains, settle_self, step_in_shutdown, step_exit_self}

-- The strand of `me` runs `n` tasks.
unfoldable pub steps : ℕ → ℕ → System → System
steps zero me s = s
steps (suc n) me s = steps n me (step me s)

-- One more task of an actor that has stopped.
module _ (me : ℕ) (s : System) (i : Instance) (t : Task) (rest : List Task)
    (there : s.instances me ≡ some i) (queued : i.mailbox ≡ t ∷ rest)
    (stopped : i.in_shutdown ≡ true) (given_up : i.lifetime ≡ false) where
  after : Instance
  after = if is_link_msg t.msg then add_link t.from (taken i rest) else taken i rest

  after-stopped :
      (after.mailbox ≡ rest)
      × (after.in_shutdown ≡ true)
      × (after.lifetime ≡ false)
      × (after.lifelocks ≡ i.lifelocks)
  unfolding after
  after-stopped = by_link (is_link_msg t.msg)
    where
      by_link :
          (b : Bool)
          → ((if b then add_link t.from (taken i rest) else taken i rest).mailbox ≡ rest)
            × ((if b then add_link t.from (taken i rest) else taken i rest).in_shutdown ≡ true)
            × ((if b then add_link t.from (taken i rest) else taken i rest).lifetime ≡ false)
            × ((if b then add_link t.from (taken i rest) else taken i rest).lifelocks ≡ i.lifelocks)
      by_link true = (refl, stopped, given_up, refl)
      by_link false = (refl, stopped, given_up, refl)

  step-after : (step me s).instances me ≡ survivor after after.mailbox
  unfolding after
  step-after =
      ap (λ (u : System). u.instances me) (step_in_shutdown me s i t rest there queued stopped)
      ∙ settle_self me (with_instance s me after) after (ground arith) after-stopped.2

-- `k` callbacks are pending, no task is queued and the lifetime is given up: with none of them the
-- object is destroyed.
Held : ℕ → Option Instance → Type 0
Held zero o = o ≡ none
Held (suc k) o =
    (x : Instance) × (o ≡ some x) × (x.mailbox ≡ []) × (x.lifetime ≡ false) × (x.lifelocks ≡ suc k)

survivor-Held :
    (k : ℕ) (x : Instance)
    → x.mailbox ≡ []
    → x.lifetime ≡ false
    → x.lifelocks ≡ k
    → Held k (survivor x [])
unfolding Held
survivor-Held zero x m l h = ground (arith, h)
survivor-Held (suc k) x m l h = (x, ground (arith, h), m, l, h)

-- The pending callbacks of `me` end, one by one.
unfoldable pub releases : ℕ → ℕ → System → System
releases zero me s = s
releases (suc k) me s = releases k me (release me s)

release-Held :
    (k me : ℕ) (s : System) → Held (suc k) (s.instances me) → Held k ((release me s).instances me)
unfolding Held release modify
release-Held k me s (x, there, m, l, h) =
    let x' = record x { lifelocks = x.lifelocks - 1 } in
    let s' = with_instance s me x' in
    rw (there, release, modify)
      (rw (settle_self me s' x' (ground arith) l) (
        subst (λ (q : List Task). Held k (survivor x' q)) (sym m)
          (survivor-Held k x' m l (omega (arith, h)))))

releases-Held :
    (k me : ℕ) (s : System) → Held k (s.instances me) → (releases k me s).instances me ≡ none
unfolding releases Held
releases-Held zero me s h = h
releases-Held (suc k) me s h = releases-Held k me (release me s) (release-Held k me s h)

stopped-Held :
    (l : List Task) (t : Task) (me : ℕ) (s : System) (i : Instance)
    → s.instances me ≡ some i
    → i.mailbox ≡ t ∷ l
    → i.in_shutdown ≡ true
    → i.lifetime ≡ false
    → Held i.lifelocks ((steps (suc (length l)) me s).instances me)
unfolding steps after
stopped-Held [] t me s i there queued stopped up =
    let (box, still, gone, locks) = after-stopped me s i t [] there queued stopped up in
    rw (step-after me s i t [] there queued stopped up, box)
      (survivor-Held i.lifelocks (after me s i t [] there queued stopped up) box gone locks)
stopped-Held (u ∷ l) t me s i there queued stopped up =
    let (box, still, gone, locks) = after-stopped me s i t (u ∷ l) there queued stopped up in
    subst (λ (k : ℕ). Held k ((steps (suc (length l)) me (step me s)).instances me)) locks
      (stopped-Held l u me (step me s) (after me s i t (u ∷ l) there queued stopped up)
        (step-after me s i t (u ∷ l) there queued stopped up ∙ rw box refl) box still gone)

-- An actor that is not in shutdown and does not trap exits takes an exit message other than "normal", its
-- reason can be read, and its exit handlers return: when its strand has run that message and the tasks that are queued behind it, and each of
-- its callbacks that were pending has ended, the actor is destroyed.
pub exit-gone :
    (me : ℕ) (s : System) (i : Instance) (t : Task) (rest : List Task) (r : Reason)
    → s.instances me ≡ some i
    → i.mailbox ≡ t ∷ rest
    → i.in_shutdown ≡ false
    → i.trap_exit ≡ false
    → is_link_msg t.msg ≡ false
    → is_exit_msg t.msg ≡ ok true
    → bytes_eq t.msg exit_normal_msg ≡ false
    → exit_reason t.msg ≡ ok r
    → return_on i.exit_handler r ≡ true
    → (releases i.lifelocks me (steps (suc (length rest)) me s)).instances me ≡ none
unfolding steps
exit-gone me s i t rest r there queued up untrapped no_link exit other valid quiet =
    releases-Held i.lifelocks me (steps (length rest) me (step me s)) (
      by_rest rest
        (step_exit_self me s i t rest there queued up untrapped no_link exit r other valid quiet))
  where
    by_rest :
        (l : List Task)
        → (step me s).instances me ≡ remains i l
        → Held i.lifelocks ((steps (length l) me (step me s)).instances me)
    by_rest [] e = rw e (survivor-Held i.lifelocks (exited (taken i [])) refl refl refl)
    by_rest (u ∷ l) e = stopped-Held l u me (step me s) (exited (taken i (u ∷ l))) e refl refl refl
