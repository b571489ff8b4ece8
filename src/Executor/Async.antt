-- ===== src/Executor/Async.antt =====
-- The asynchronous operations of the executor. asio keeps each operation until it completes it with an
-- error code and a count; when and with what is left open.
use thespian.Prelude.{
  ℕ, ◌+◌, ◌%◌, ◌^◌, ◌-◌, suc, Bool, true, false, ◌&&◌, List, [], ◌∷◌, ◌++◌, ◌==◌, if◌then◌else◌,
  ◌≡◌,
}
use thespian.Cbor.Result.{Bytes}

-- The side of a watcher or a stream.
pub data Side : Type 0 where
  reading : Side
  writing : Side

-- What an operation is for. A `guarded` one is of a watcher or a stream.
pub data Kind : Type 0 where
  fired : Kind
  expired : Kind
  received : Kind
  connected : Kind
  written : Kind
  read : Kind
  accepted : Kind
  guarded : Side → Kind

-- `object` is the object that the operation is of.
pub record Op : Type 0 where
  pub kind : Kind
  pub object : ℕ

-- `context_impl`, with the objects that use it: `alive` tells whether the `token_` of an object is there.
-- `pending` and `posts` are size_t. `outstanding` is what asio has to complete, and `posted` the strands
-- of the functions that it has to run. Each new object gets the id `next_object`.
pub record Context : Type 0 where
  pub pending : ℕ
  pub posts : ℕ
  pub next_object : ℕ
  pub alive : ℕ → Bool
  pub outstanding : List Op
  pub posted : List ℕ
  pub in_progress : Side → ℕ → Bool
  pub remote_endpoint : ℕ → Bytes × ℕ
  pub write_buffer : ℕ → Bytes

-- A call of a handler.
pub record Call : Type 0 where
  pub kind : Kind
  pub object : ℕ
  pub ec : ℕ
  pub count : ℕ

-- How asio completes an operation: `ec` is 0 for success, and `count` the bytes, the number of the signal
-- or the new descriptor. `endpoint` is where a datagram came from.
pub record Completion : Type 0 where
  pub ec : ℕ
  pub count : ℕ
  pub endpoint : Bytes × ℕ

-- `fetch_add(1)` and `fetch_sub(1)`
abbrev pub add_one : ℕ → ℕ
add_one n = (n + 1) % 2 ^ 64

abbrev pub sub_one : ℕ → ℕ
sub_one n = (n + (2 ^ 64 - 1)) % 2 ^ 64

abbrev pub update {ℓ} : {A : Type ℓ} → ℕ → A → (ℕ → A) → ℕ → A
update o a f j = if j == o then a else f j

-- The first lines of each operation, and the call of asio.
unfoldable pub begin : Kind → ℕ → Context → Context
begin k o c = record c {
  pending = add_one c.pending;
  outstanding = record { kind = k; object = o } ∷ c.outstanding;
}

unfoldable pub on_fired : ℕ → Context → Context
unfolding begin
on_fired o c = begin fired o c

unfoldable pub on_expired : ℕ → Context → Context
unfolding begin
on_expired o c = begin expired o c

unfoldable pub receive : ℕ → Context → Context
unfolding begin
receive o c = begin received o c

unfoldable pub connect : ℕ → Context → Context
unfolding begin
connect o c = begin connected o c

unfoldable pub write : ℕ → Context → Context
unfolding begin
write o c = begin written o c

unfoldable pub read_some : ℕ → Context → Context
unfolding begin
read_some o c = begin read o c

unfoldable pub accept : ℕ → Context → Context
unfolding begin
accept o c = begin accepted o c

abbrev pub set_progress : Side → ℕ → Bool → (Side → ℕ → Bool) → Side → ℕ → Bool
set_progress reading o b f reading = update o b (f reading)
set_progress reading o b f writing = f writing
set_progress writing o b f reading = f reading
set_progress writing o b f writing = update o b (f writing)

-- `wait_read` and `wait_write`: nothing while one is in progress.
unfoldable pub wait : Side → ℕ → Context → Context
unfolding begin
wait side o c =
    if c.in_progress side o
    then c
    else begin (guarded side) o (record c { in_progress = set_progress side o true c.in_progress })

unfoldable pub wait_read : ℕ → Context → Context
unfolding wait
wait_read o c = wait reading o c

unfoldable pub wait_write : ℕ → Context → Context
unfolding wait
wait_write o c = wait writing o c

unfoldable pub start_read : ℕ → Context → Context
unfolding wait
start_read o c = wait reading o c

-- The bytes are kept for the operation, unless one is in progress.
abbrev pub keep_bytes : Bytes → ℕ → Context → Context
keep_bytes bytes o c = record c {
  write_buffer = if c.in_progress writing o then c.write_buffer else update o bytes c.write_buffer;
}

unfoldable pub start_write : Bytes → ℕ → Context → Context
unfolding wait
start_write bytes o c = wait writing o (keep_bytes bytes o c)

unfoldable pub post : ℕ → Context → Context
post strand c = record c { posts = add_one c.posts; posted = c.posted ++ (strand ∷ []) }

-- asio's error for an accept that the peer has given up, on a platform that has it.
unfoldable pub is_aborted_accept : Bool → ℕ → ℕ → Bool
is_aborted_accept apple invalid_argument ec = apple && (ec == invalid_argument)

-- What the callback of an operation does for an object that is there; `aborted` is the test of its error.
unfoldable pub handled : Bool → Kind → ℕ → Completion → Context → Context × List Call
unfolding accept
handled aborted fired o d c =
    (c, record { kind = fired; object = o; ec = d.ec; count = d.count } ∷ [])
handled aborted expired o d c =
    (c, record { kind = expired; object = o; ec = d.ec; count = 0 } ∷ [])
handled aborted received o d c = (
  record c { remote_endpoint = update o d.endpoint c.remote_endpoint },
  record { kind = received; object = o; ec = d.ec; count = d.count } ∷ [],
)
handled aborted connected o d c =
    (c, record { kind = connected; object = o; ec = d.ec; count = 0 } ∷ [])
handled aborted written o d c =
    (c, record { kind = written; object = o; ec = d.ec; count = d.count } ∷ [])
handled aborted read o d c =
    (c, record { kind = read; object = o; ec = d.ec; count = d.count } ∷ [])
handled true accepted o d c = (accept o c, [])
handled false accepted o d c = (
  c,
  record { kind = accepted; object = o; ec = d.ec; count = if d.ec == 0 then d.count else 0 } ∷ [],
)
handled aborted (guarded side) o d c = (
  record c { in_progress = set_progress side o false c.in_progress },
  record { kind = guarded side; object = o; ec = d.ec; count = d.count } ∷ [],
)

-- The callback of an operation, that asio has taken off its list.
unfoldable pub callback : (ℕ → Bool) → Op → Completion → Context → Context × List Call
unfolding handled
callback aborted op d c =
    let c' = record c { pending = sub_one c.pending } in
    let (c'', calls) = handled (aborted d.ec) op.kind op.object d c' in
    if c'.alive op.object then (c'', calls) else (c', [])

-- asio runs a function that was posted.
unfoldable pub run_posted : List ℕ → Context → Context
run_posted left c = record c { posts = sub_one c.posts; posted = left }

-- The constructor of an object, and the end of one.
unfoldable pub construct : Context → Context
construct c = record c {
  next_object = suc c.next_object;
  alive = update c.next_object true c.alive;
  in_progress =
      set_progress reading c.next_object false
        (set_progress writing c.next_object false c.in_progress);
}

unfoldable pub destroy : ℕ → Context → Context
destroy o c = record c { alive = update o false c.alive }

-- The methods that start an operation.
pub data Method : Type 0 where
  fires : Method
  expires : Method
  receives : Method
  connects : Method
  writes : Method
  reads : Method
  accepts : Method
  waits_read : Method
  waits_write : Method
  starts_read : Method
  starts_write : Bytes → Method

unfoldable pub invoke : Method → ℕ → Context → Context
unfolding on_fired on_expired receive connect write read_some accept wait_read wait_write start_read
    start_write
invoke fires o c = on_fired o c
invoke expires o c = on_expired o c
invoke receives o c = receive o c
invoke connects o c = connect o c
invoke writes o c = write o c
invoke reads o c = read_some o c
invoke accepts o c = accept o c
invoke waits_read o c = wait_read o c
invoke waits_write o c = wait_write o c
invoke starts_read o c = start_read o c
invoke (starts_write bytes) o c = start_write bytes o c

-- What can happen, with the handlers that are called: an object is made, used or destroyed, a function is
-- posted or run, and asio completes any operation that it has.
pub data Step (aborted : ℕ → Bool) (c : Context) : List Call → Context → Type 0 where
  constructs : Step aborted c [] (construct c)
  destroys : (o : ℕ) → c.alive o ≡ true → Step aborted c [] (destroy o c)
  invokes : (m : Method) (o : ℕ) → c.alive o ≡ true → Step aborted c [] (invoke m o c)
  posts : (strand : ℕ) → Step aborted c [] (post strand c)
  runs :
      (before after : List ℕ) (strand : ℕ)
      → c.posted ≡ before ++ (strand ∷ after)
      → Step aborted c [] (run_posted (before ++ after) c)
  completes :
      (before after : List Op) (op : Op) (d : Completion)
      → c.outstanding ≡ before ++ (op ∷ after)
      → Step aborted c
          (callback aborted op d (record c { outstanding = before ++ after })).1
          (callback aborted op d (record c { outstanding = before ++ after })).0

-- A run from one state to another.
pub data Run (aborted : ℕ → Bool) (c : Context) : List Call → Context → Type 0 where
  here : Run aborted c [] c
  next :
      {cs es : List Call} {d e : Context}
      → Run aborted c cs d
      → Step aborted d es e
      → Run aborted c (cs ++ es) e

abbrev pub initial : Context
initial = record {
  pending = 0;
  posts = 0;
  next_object = 0;
  alive = λ _. false;
  outstanding = [];
  posted = [];
  in_progress = λ _ _. false;
  remote_endpoint = λ _. ([], 0);
  write_buffer = λ _. [];
}
