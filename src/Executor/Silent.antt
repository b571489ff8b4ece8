-- ===== src/Executor/Silent.antt =====
-- No handler of an object is called once the object is destroyed.
use thespian.Prelude.{
  ℕ, ◌<◌, ◌≡◌, ◌≢◌, Bool, true, false, List, ◌++◌, arith, Bool-cases, inl, inr, All, All-append,
}
use thespian.Executor.Async.{
  Side, reading, writing, Kind, fired, expired, received, connected, written, read, accepted,
  guarded, Op, Context, Call, Completion, sub_one, begin, wait, keep_bytes, start_write, accept,
  handled, callback, post, run_posted, Method, invoke, fires, expires, receives, connects, writes,
  reads, accepts, waits_read, waits_write, starts_read, starts_write, construct, destroy, Step,
  constructs, destroys, invokes, posts, runs, completes, Run, here, next, on_fired, on_expired,
  receive, connect, write, read_some, wait_read, wait_write, start_read,
}

-- The object was made, and is gone.
pub record IsGone (o : ℕ) (c : Context) : Type 0 where
  pub born : o < c.next_object
  pub gone : c.alive o ≡ false

abbrev pub NotOf : ℕ → Call → Type 0
NotOf o call = call.object ≢ o

begin-IsGone : (k : Kind) (j : ℕ) {o : ℕ} {c : Context} → IsGone o c → IsGone o (begin k j c)
unfolding begin
begin-IsGone k j h = record { born = h.born; gone = h.gone }

wait-IsGone : (side : Side) (j : ℕ) {o : ℕ} {c : Context} → IsGone o c → IsGone o (wait side j c)
unfolding wait
wait-IsGone side j {o} {c} h = elim (Bool-cases (c.in_progress side j)) [
  | inl e ↦ rw e h
  | inr e ↦ rw e (begin-IsGone (guarded side) j (record { born = h.born; gone = h.gone }))
]

invoke-IsGone : (m : Method) (j : ℕ) {o : ℕ} {c : Context} → IsGone o c → IsGone o (invoke m j c)
unfolding invoke on_fired on_expired receive connect write read_some accept wait_read wait_write
    start_read start_write
invoke-IsGone fires j h = begin-IsGone fired j h
invoke-IsGone expires j h = begin-IsGone expired j h
invoke-IsGone receives j h = begin-IsGone received j h
invoke-IsGone connects j h = begin-IsGone connected j h
invoke-IsGone writes j h = begin-IsGone written j h
invoke-IsGone reads j h = begin-IsGone read j h
invoke-IsGone accepts j h = begin-IsGone accepted j h
invoke-IsGone waits_read j h = wait-IsGone reading j h
invoke-IsGone waits_write j h = wait-IsGone writing j h
invoke-IsGone starts_read j h = wait-IsGone reading j h
invoke-IsGone (starts_write bytes) j {o} {c} h =
    wait-IsGone writing j {c = keep_bytes bytes j c} (record { born = h.born; gone = h.gone })

abbrev pub IsQuiet : ℕ → Context × List Call → Type 0
IsQuiet o r = IsGone o r.0 × All (NotOf o) r.1

handled-IsQuiet :
    (aborted : Bool) (k : Kind) (j : ℕ) (d : Completion) {o : ℕ} {c : Context}
    → j ≢ o
    → IsGone o c
    → IsQuiet o (handled aborted k j d c)
unfolding handled accept
handled-IsQuiet aborted fired j d n h = (h, (n, tt))
handled-IsQuiet aborted expired j d n h = (h, (n, tt))
handled-IsQuiet aborted received j d n h = (record { born = h.born; gone = h.gone }, (n, tt))
handled-IsQuiet aborted connected j d n h = (h, (n, tt))
handled-IsQuiet aborted written j d n h = (h, (n, tt))
handled-IsQuiet aborted read j d n h = (h, (n, tt))
handled-IsQuiet true accepted j d n h = (begin-IsGone accepted j h, tt)
handled-IsQuiet false accepted j d n h = (h, (n, tt))
handled-IsQuiet aborted (guarded side) j d n h = (record { born = h.born; gone = h.gone }, (n, tt))

callback-IsQuiet :
    (aborted : ℕ → Bool) (op : Op) (d : Completion) (o : ℕ) (c : Context)
    → IsGone o (record c { pending = sub_one c.pending })
    → IsQuiet o (callback aborted op d c)
unfolding callback
callback-IsQuiet aborted op d o c h = elim (Bool-cases (c.alive op.object)) [
  | inl e ↦
      rw e (handled-IsQuiet (aborted d.ec) op.kind op.object d (λ same. cc (h.gone, e, same)) h)
  | inr e ↦ rw e (h, tt)
]

Step-IsQuiet :
    {aborted : ℕ → Bool} {c d : Context} {cs : List Call}
    → Step aborted c cs d
    → (o : ℕ) → IsGone o c
    → IsQuiet o (d, cs)
unfolding construct destroy post run_posted
Step-IsQuiet constructs o h =
    (record { born = omega (arith, h.born); gone = ground (arith, h.gone, h.born) }, tt)
Step-IsQuiet (destroys j a) o h = (record { born = h.born; gone = ground (arith, h.gone) }, tt)
Step-IsQuiet (invokes m j a) o h = (invoke-IsGone m j h, tt)
Step-IsQuiet (posts strand) o h = (record { born = h.born; gone = h.gone }, tt)
Step-IsQuiet (runs before after strand e) o h = (record { born = h.born; gone = h.gone }, tt)
Step-IsQuiet {aborted} {c} (completes before after op d e) o h =
    callback-IsQuiet aborted op d o (record c { outstanding = before ++ after })
      (record { born = h.born; gone = h.gone })

-- From a state where an object was made and is gone, no run calls a handler of it, and it stays gone.
pub Run-IsQuiet :
    {aborted : ℕ → Bool} {c d : Context} {cs : List Call}
    → (o : ℕ) → IsGone o c
    → Run aborted c cs d
    → IsQuiet o (d, cs)
Run-IsQuiet o h here = (h, tt)
Run-IsQuiet o h (next {cs} {es} r st) =
    let (g, quiet) = Run-IsQuiet o h r in
    let (g', quiet') = Step-IsQuiet st o g in (g', All-append (NotOf o) cs es quiet quiet')
