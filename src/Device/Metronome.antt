-- ===== src/Device/Metronome.antt =====
-- `metronome_state`: a tick to the owner each `us_` microseconds.
use thespian.Prelude.{
  ℕ, zero, suc, ◌+◌, ◌*◌, ◌≡◌, refl, ap, ◌∙◌, Bool, true, false, List, [], ◌∷◌, Option, none, some,
  if◌then◌else◌, arith,
}
use thespian.Prelude.Text.{codes}
use thespian.Cbor.Result.{Bytes}
use thespian.Cbor.Buffer.{push_string, push_uint}
use thespian.Actor.Messages.{array}

-- `deadline` is the time that the timer waits for. The counter is below 2 ^ 64 for longer than any
-- clock runs, so it is a number here.
pub record Metronome : Type 0 where
  pub us : ℕ
  pub running : Bool
  pub last_tick : ℕ
  pub counter : ℕ
  pub deadline : Option ℕ

unfoldable pub create_metronome : ℕ → Metronome
create_metronome us = record {
  us = us;
  running = false;
  last_tick = 0;
  counter = 0;
  deadline = none;
}

unfoldable pub schedule_tick : Metronome → Metronome
schedule_tick m = record m { deadline = some (m.last_tick + m.us) }

-- At the time `now`, with the owner's lifetime or without.
unfoldable pub start : ℕ → Bool → Metronome → Metronome
unfolding schedule_tick
start now locked m =
    if m.running
    then m
    else if locked
    then schedule_tick (record m { running = true; last_tick = now })
    else m

unfoldable pub stop : Metronome → Metronome
stop m = record m { running = false; deadline = none }

-- The message of a tick.
unfoldable pub tick_msg : ℕ → Bytes
tick_msg n = array (push_string (codes "tick") ∷ push_uint n ∷ [])

-- The timer calls: with an error or not, and with what the send of the tick would answer. The result
-- has the message, if one is sent.
unfoldable pub tick : Bool → Bool → Metronome → Option Bytes × Metronome
unfolding schedule_tick stop
tick error ok m =
    if error
    then (none, m)
    else if m.running
    then (let m' = record m { last_tick = m.last_tick + m.us; counter = suc m.counter } in
        (some (tick_msg m.counter), if ok then schedule_tick m' else stop m'))
    else (none, m)

-- The timer calls again and again, and no send is refused.
unfoldable pub ticks : ℕ → Metronome → List (Option Bytes) × Metronome
unfolding tick
ticks zero m = ([], m)
ticks (suc n) m =
    let (sent, m') = tick false true m in let (rest, m'') = ticks n m' in (sent ∷ rest, m'')

-- The messages of `n` ticks from the counter `c` on.
unfoldable pub counted : ℕ → ℕ → List (Option Bytes)
counted zero c = []
counted (suc n) c = some (tick_msg c) ∷ counted n (suc c)

-- After one call.
abbrev ticked : Metronome → Metronome
ticked m = record m {
  last_tick = m.last_tick + m.us;
  counter = suc m.counter;
  deadline = some (m.last_tick + m.us + m.us);
}

if_true {ℓ} : {A : Type ℓ} (b : Bool) (x y : A) → b ≡ true → (if b then x else y) ≡ x
if_true true x y h = refl
if_true false x y h = cc

tick-ticked :
    (m : Metronome) → m.running ≡ true → tick false true m ≡ (some (tick_msg m.counter), ticked m)
unfolding tick schedule_tick
tick-ticked m h = if_true m.running _ _ h

next : (t us n : ℕ) → t + us + suc n * us ≡ t + suc (suc n) * us
next t us n = omega arith

-- A metronome that runs sends `n` ticks in `n` calls of its timer, counted one by one, and then waits
-- for the time that is `n + 1` periods after its last tick: the clock does not drift.
pub ticks_lem :
    (n : ℕ) (m : Metronome)
    → m.running ≡ true
    → m.deadline ≡ some (m.last_tick + m.us)
    → ((ticks n m).0 ≡ counted n m.counter)
      × ((ticks n m).1.deadline ≡ some (m.last_tick + suc n * m.us))
      × ((ticks n m).1.running ≡ true)
unfolding ticks counted
ticks_lem zero m h d = (refl, d ∙ ap some (omega arith), h)
ticks_lem (suc n) m h d =
    let (sent, deadline, on) = ticks_lem n (ticked m) h refl in
    rw (tick-ticked m h) (
      ap (λ l. some (tick_msg m.counter) ∷ l) sent,
      deadline ∙ ap some (next m.last_tick m.us n),
      on,
    )
