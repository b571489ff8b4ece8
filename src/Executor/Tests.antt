-- ===== src/Executor/Tests.antt =====
-- Runs of the executor on concrete objects.
use thespian.Prelude.{ℕ, ◌+◌, ◌%◌, ◌≤◌, ◌<◌, ◌≡◌, refl, Bool, false, List, [], arith}
use thespian.Executor.Async.{
  reading, fired, Context, Call, Completion, invoke, fires, waits_read, construct, destroy,
  callback, on_fired, begin, wait, wait_read, Run, here, next, constructs, invokes, completes,
  initial, handled,
}
use thespian.Executor.Counts.{IsCounted, Run-IsCounted}
use thespian.Executor.Guard.{waits, as_number}
use thespian.Executor.OneWait.{Run-one_wait}
use thespian.Executor.Silent.{IsQuiet, Run-IsQuiet}
use thespian.Executor.Threads.{worker_stack, worker_stack_bounds, max}

abbrev no_error : ℕ → Bool
no_error ec = false

-- One watcher, that waits.
abbrev waiting : Context
unfolding construct invoke wait_read wait begin
waiting = invoke waits_read 0 (construct initial)

waiting_run : Run no_error initial [] waiting
unfolding construct invoke waiting
waiting_run = next (next here constructs) (invokes waits_read 0 refl)

Run-IsCounted_example : IsCounted waiting
Run-IsCounted_example = Run-IsCounted waiting_run

Run-one_wait_example :
    waits reading 0 waiting.outstanding ≡ as_number (waiting.in_progress reading 0)
unfolding construct invoke wait_read wait begin
Run-one_wait_example = Run-one_wait waiting_run reading 0 refl

-- A signal that is destroyed while asio waits for it.
abbrev destroyed : Context
unfolding construct invoke on_fired begin destroy
destroyed = destroy 0 (invoke fires 0 (construct initial))

abbrev fire : Completion
fire = record { ec = 0; count = 15; endpoint = ([], 0) }

abbrev fired_late : Context × List Call
unfolding callback handled construct invoke on_fired begin destroy
fired_late =
    callback no_error (record { kind = fired; object = 0 }) fire
      (record destroyed { outstanding = [] })

late_run : Run no_error destroyed fired_late.1 fired_late.0
unfolding callback handled construct invoke on_fired begin destroy
late_run = next here (completes [] [] (record { kind = fired; object = 0 }) fire refl)

Run-IsQuiet_example : IsQuiet 0 fired_late
unfolding callback handled construct invoke on_fired begin destroy
Run-IsQuiet_example = Run-IsQuiet 0 (record { born = omega arith; gone = refl }) late_run

worker_stack_bounds_example :
    (8388608 ≤ worker_stack 8388608 16384 4096)
    × (16384 ≤ worker_stack 8388608 16384 4096)
    × (worker_stack 8388608 16384 4096 < max 8388608 16384 + 4096)
    × (worker_stack 8388608 16384 4096 % 4096 ≡ 0)
worker_stack_bounds_example =
    worker_stack_bounds 8388608 16384 4096 (omega arith) (omega arith) (omega arith)
