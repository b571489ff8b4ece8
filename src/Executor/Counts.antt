-- ===== src/Executor/Counts.antt =====
-- The counters of the executor.
use thespian.Prelude.{
  ℕ, suc, ◌%◌, ◌^◌, ◌≡◌, ap, ◌∙◌, Bool, true, false, List, [], ◌∷◌, ◌++◌, length, length-append,
  arith, Bool-cases, inl, inr,
}
use thespian.Executor.Async.{
  Side, reading, writing, Kind, fired, expired, received, connected, written, read, accepted,
  guarded, Op, Context, Call, Completion, sub_one, begin, wait, keep_bytes, start_write, accept,
  handled, callback, post, run_posted, Method, invoke, fires, expires, receives, connects, writes,
  reads, accepts, waits_read, waits_write, starts_read, starts_write, construct, destroy, Step,
  constructs, destroys, invokes, posts, runs, completes, Run, here, next, initial, on_fired,
  on_expired, receive, connect, write, read_some, wait_read, wait_write, start_read,
}

pub record IsCounted (c : Context) : Type 0 where
  pub pending : c.pending ≡ length c.outstanding % 2 ^ 64
  pub posts : c.posts ≡ length c.posted % 2 ^ 64

begin-IsCounted : (k : Kind) (o : ℕ) {c : Context} → IsCounted c → IsCounted (begin k o c)
unfolding begin
begin-IsCounted k o h = ground arith

wait-IsCounted : (side : Side) (o : ℕ) {c : Context} → IsCounted c → IsCounted (wait side o c)
unfolding wait begin
wait-IsCounted side o h = ground arith

invoke-IsCounted : (m : Method) (o : ℕ) {c : Context} → IsCounted c → IsCounted (invoke m o c)
unfolding invoke on_fired on_expired receive connect write read_some accept wait_read wait_write
    start_read start_write
invoke-IsCounted fires o h = begin-IsCounted fired o h
invoke-IsCounted expires o h = begin-IsCounted expired o h
invoke-IsCounted receives o h = begin-IsCounted received o h
invoke-IsCounted connects o h = begin-IsCounted connected o h
invoke-IsCounted writes o h = begin-IsCounted written o h
invoke-IsCounted reads o h = begin-IsCounted read o h
invoke-IsCounted accepts o h = begin-IsCounted accepted o h
invoke-IsCounted waits_read o h = wait-IsCounted reading o h
invoke-IsCounted waits_write o h = wait-IsCounted writing o h
invoke-IsCounted starts_read o h = wait-IsCounted reading o h
invoke-IsCounted (starts_write bytes) o {c} h =
    wait-IsCounted writing o {c = keep_bytes bytes o c}
      (record { pending = h.pending; posts = h.posts })

handled-IsCounted :
    (aborted : Bool) (k : Kind) (o : ℕ) (d : Completion) {c : Context}
    → IsCounted c
    → IsCounted (handled aborted k o d c).0
unfolding handled accept
handled-IsCounted aborted fired o d h = h
handled-IsCounted aborted expired o d h = h
handled-IsCounted aborted received o d h = record { pending = h.pending; posts = h.posts }
handled-IsCounted aborted connected o d h = h
handled-IsCounted aborted written o d h = h
handled-IsCounted aborted read o d h = h
handled-IsCounted true accepted o d h = begin-IsCounted accepted o h
handled-IsCounted false accepted o d h = h
handled-IsCounted aborted (guarded side) o d h = record { pending = h.pending; posts = h.posts }

callback-IsCounted :
    (aborted : ℕ → Bool) (op : Op) (d : Completion) (c : Context)
    → IsCounted (record c { pending = sub_one c.pending })
    → IsCounted (callback aborted op d c).0
unfolding callback
callback-IsCounted aborted op d c h = elim (Bool-cases (c.alive op.object)) [
  | inl e ↦ rw e (handled-IsCounted (aborted d.ec) op.kind op.object d h)
  | inr e ↦ rw e h
]

length-middle {ℓ} :
    {A : Type ℓ} (before after : List A) (x : A)
    → length (before ++ (x ∷ after)) ≡ suc (length (before ++ after))
length-middle before after x =
    omega (arith, length-append before (x ∷ after), length-append before after)

fewer : (n p : ℕ) → p ≡ suc n % 2 ^ 64 → sub_one p ≡ n % 2 ^ 64
fewer n p h = omega arith

Step-IsCounted :
    {aborted : ℕ → Bool} {c d : Context} {cs : List Call}
    → Step aborted c cs d
    → IsCounted c
    → IsCounted d
unfolding construct destroy post run_posted
Step-IsCounted constructs h = record { pending = h.pending; posts = h.posts }
Step-IsCounted (destroys o a) h = record { pending = h.pending; posts = h.posts }
Step-IsCounted (invokes m o a) h = invoke-IsCounted m o h
Step-IsCounted {c = c} (posts strand) h = record {
  pending = h.pending;
  posts = omega (arith, h.posts, length-append c.posted (strand ∷ []));
}
Step-IsCounted {c = c} (runs before after strand e) h = record {
  pending = h.pending;
  posts =
      fewer (length (before ++ after)) c.posts
        (h.posts ∙ ap (λ (n : ℕ). n % 2 ^ 64) (ap length e ∙ length-middle before after strand));
}
Step-IsCounted {aborted} {c} (completes before after op d e) h =
    callback-IsCounted aborted op d (record c { outstanding = before ++ after })
      (record {
        pending =
            fewer (length (before ++ after)) c.pending (
              h.pending ∙ ap (λ (n : ℕ). n % 2 ^ 64) (ap length e ∙ length-middle before after op));
        posts = h.posts;
      })

-- In every run, `pending` is the number of the operations that asio has, and `posts` that of the
-- functions that it has not run, both modulo 2^64.
pub Run-IsCounted :
    {aborted : ℕ → Bool} {cs : List Call} {c : Context} → Run aborted initial cs c → IsCounted c
Run-IsCounted here = record { pending = omega arith; posts = omega arith }
Run-IsCounted (next r st) = Step-IsCounted st (Run-IsCounted r)
