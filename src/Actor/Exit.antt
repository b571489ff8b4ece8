-- ===== src/Actor/Exit.antt =====
-- What an exit does to the actors that are linked, and what it leaves of the actor itself.
use thespian.Prelude.{
  ℕ, zero, suc, ◌≡◌, refl, sym, ap, ◌∙◌, Bool, true, false, List, [], ◌∷◌, Option, none, some,
  arith, inl, inr, Bool-cases, if◌then◌else◌, ◌==◌, ==_iff,
}
use thespian.Cbor.Result.{Bytes, ok}
use thespian.Actor.State.{Called, ended, threw, Instance, System, Reason, with_instance, modify}
use thespian.Actor.Send.{queue, send_raw, post}
use thespian.Actor.Run.{send_links, exit_reason, after_handlers, call_exit_handlers, handle_exit}
use thespian.Actor.Handlers.{
  modify_self, call_exit_handlers_other, call_exit_handlers_self, call_exit_handlers_log, exited,
  return_on, logged,
}

-- An instance that hears `n` times that `me` exits with the message `m`.
unfoldable pub hear : ℕ → ℕ → Bytes → Instance → Instance
hear zero me m p = p
hear (suc n) me m p = hear n me m (if p.in_shutdown then p else post me m p)

unfoldable pub times : ℕ → List ℕ → ℕ
times j [] = 0
times j (h ∷ hs) = let rest = times j hs in if j == h then suc rest else rest

send_raw_other :
    (s : System) (me h j : ℕ) (m : Bytes)
    → (j == h) ≡ false
    → (send_raw s (some me) h m).1.instances j ≡ s.instances j
unfolding send_raw queue
send_raw_other s me h j m e = ground arith

send_raw_self :
    (s : System) (me j : ℕ) (m : Bytes) (p : Instance)
    → s.instances j ≡ some p
    → (send_raw s (some me) j m).1.instances j ≡ some (if p.in_shutdown then p else post me m p)
unfolding send_raw queue
send_raw_self s me j m p e = ground arith

-- Each live actor hears the exit once for each link to it.
pub send_links_lem :
    (hs : List ℕ) (me j : ℕ) (m : Bytes) (s : System) (p : Instance)
    → s.instances j ≡ some p
    → (send_links hs me m s).instances j ≡ some (hear (times j hs) me m p)
unfolding send_links hear times
send_links_lem [] me j m s p e = e
send_links_lem (h ∷ hs) me j m s p e = elim (Bool-cases (j == h)) [
  | inl same ↦
      let there : h ≡ j = sym ((==_iff j h).0 same) in
      rw same (
        send_links_lem hs me j m _ (if p.in_shutdown then p else post me m p)
          (rw there (send_raw_self s me j m p e)))
  | inr other ↦ rw other (send_links_lem hs me j m _ p (send_raw_other s me h j m other ∙ e))
]

hear_stopped : (n me : ℕ) (m : Bytes) (p : Instance) → p.in_shutdown ≡ true → hear n me m p ≡ p
unfolding hear
hear_stopped zero me m p e = refl
hear_stopped (suc n) me m p e = rw (stays p.in_shutdown e) (hear_stopped n me m p e)
  where
    stays : (b : Bool) → b ≡ true → (if b then p else post me m p) ≡ p
    stays true h = refl
    stays false h = cc

send_raw-exits : (s : System) (me h : ℕ) (m : Bytes) → (send_raw s (some me) h m).1.exits ≡ s.exits
unfolding send_raw queue
send_raw-exits s me h m = ground arith

send_links-exits :
    (hs : List ℕ) (me : ℕ) (m : Bytes) (s : System) → (send_links hs me m s).exits ≡ s.exits
unfolding send_links
send_links-exits [] me m s = refl
send_links-exits (h ∷ hs) me m s = send_links-exits hs me m _ ∙ send_raw-exits s me h m

module _ (s : System) (me : ℕ) (m : Bytes) (i : Instance) (there : s.instances me ≡ some i) where
  stopping : System
  stopping = with_instance s me (record i { in_shutdown = true })

  stopping_other : (j : ℕ) → (j == me) ≡ false → stopping.instances j ≡ s.instances j
  unfolding stopping
  stopping_other j e = ground arith

  stopping_self : stopping.instances me ≡ some (record i { in_shutdown = true })
  unfolding stopping
  stopping_self = ground arith

  still : (send_links i.links me m stopping).instances me ≡ some (record i { in_shutdown = true })
  still =
      send_links_lem i.links me me m stopping _ stopping_self
      ∙ ap some (hear_stopped (times me i.links) me m (record i { in_shutdown = true }) refl)

  handle_exit-eq :
      handle_exit me m s ≡ call_exit_handlers me m i.exit_handler (send_links i.links me m stopping)
  unfolding handle_exit stopping
  handle_exit-eq = rw (there, handle_exit)

  -- Every other actor that is alive hears of the exit once for each link that the actor has to it.
  pub handle_exit_notifies :
      (j : ℕ) (p : Instance)
      → (j == me) ≡ false
      → s.instances j ≡ some p
      → (handle_exit me m s).1.instances j ≡ some (hear (times j i.links) me m p)
  handle_exit_notifies j p e a = rw handle_exit-eq (
      call_exit_handlers_other me j m i.exit_handler _ e
      ∙ send_links_lem i.links me j m stopping p (stopping_other j e ∙ a))

  -- The actor that exits is in shutdown, has no receiver and no exit handler left, and has given up
  -- its lifetime; its queue is as it was, and its exit handler is called once, if it had one. Its exit
  -- handlers return.
  pub handle_exit_stops :
      (r : Reason)
      → exit_reason m ≡ ok r
      → return_on i.exit_handler r ≡ true
      → ((handle_exit me m s).1.instances me ≡ some (exited i))
        × ((handle_exit me m s).1.exits ≡ logged i.exit_handler me r s.exits)
        × ((handle_exit me m s).0 ≡ ended)
  handle_exit_stops r h q =
      let (ends, log) =
        call_exit_handlers_log me m r i.exit_handler (send_links i.links me m stopping) h q in
      rw handle_exit-eq (
        call_exit_handlers_self me m r i.exit_handler _ (record i { in_shutdown = true }) still refl
            h q,
        log
            ∙ ap (λ (l : List (ℕ × Reason)). logged i.exit_handler me r l)
                (send_links-exits i.links me m stopping ∙ unfold stopping in refl),
        ends,
      )

  -- An exit handler throws: the actor is in shutdown, but has not given up its lifetime.
  pub handle_exit_throws :
      (eh : Reason → Called) (r : Reason) (w : Option Bytes)
      → i.exit_handler ≡ some eh
      → exit_reason m ≡ ok r
      → eh r ≡ threw w
      → ((handle_exit me m s).0 ≡ threw w)
        × ((handle_exit me m s).1.instances me
            ≡ some (record i { in_shutdown = true; exit_handler = none }))
  unfolding after_handlers call_exit_handlers modify
  handle_exit_throws eh r w e h q =
      let s' = send_links i.links me m stopping in
      let called : call_exit_handlers me m i.exit_handler s' ≡ (
        threw w,
        (let s₁ = modify me (λ p. record p { exit_handler = none }) s' in
            record s₁ { exits = (me, r) ∷ s₁.exits }),
      ) =
        rw (e, h, call_exit_handlers, q, after_handlers) refl in
      rw (handle_exit-eq, called)
        (refl, modify_self s' me _ (record i { in_shutdown = true }) still)
