-- ===== src/Executor/Threads.antt =====
-- The threads of the executor: how many there are, and the size of their stacks.
use native.Mathlib.Nat.{
  lt-div-mul-add, div-mul-le_self, add-mul-mod_self_right, zero-mod, mod-eq_of_lt,
}
use thespian.Prelude.{
  ℕ, ap, ◌∙◌, ◌+◌, ◌-◌, ◌*◌, ◌/◌, ◌%◌, ◌^◌, ◌≤◌, ◌<◌, ◌≡◌, ltb, if◌then◌else◌, arith,
}

abbrev pub max : ℕ → ℕ → ℕ
max a b = if ltb a b then b else a

abbrev min : ℕ → ℕ → ℕ
min a b = if ltb b a then b else a

-- `max(min(sysconf(_SC_NPROCESSORS_ONLN), MAX_THREAD), MIN_THREAD)`
unfoldable pub threads : ℕ → ℕ → ℕ → ℕ
threads processors max_thread min_thread = max (min processors max_thread) min_thread

-- `max(ref->thread_count - 1, 0L)`: the threads beside the one that calls `run`.
unfoldable pub spawn_threads : ℕ → ℕ
spawn_threads thread_count = max (thread_count - 1) 0

-- The size that `worker_attr` sets, in size_t: `stack_min` is PTHREAD_STACK_MIN.
unfoldable pub worker_stack : ℕ → ℕ → ℕ → ℕ
worker_stack stack_size stack_min page =
    let size = max stack_size stack_min in
    (size + page + (2 ^ 64 - 1)) % 2 ^ 64 / page * page % 2 ^ 64

rounded_bounds :
    (size page : ℕ)
    → 0 < page
    → (size ≤ (size + page - 1) / page * page) × ((size + page - 1) / page * page < size + page)
rounded_bounds size page h =
    let n = size + page - 1 in
    (omega (arith, lt-div-mul-add {a = n} {b = page} h), omega (arith, div-mul-le_self n page))

whole_pages : (k page : ℕ) → k * page % page ≡ 0
whole_pages k page =
    let sum : k * page ≡ 0 + k * page = omega arith in
    ap (λ (t : ℕ). t % page) sum ∙ add-mul-mod_self_right 0 k page ∙ zero-mod page

worker_stack-rounded :
    (stack_size stack_min page : ℕ)
    → 0 < page
    → max stack_size stack_min + page < 2 ^ 64
    → worker_stack stack_size stack_min page ≡ (max stack_size stack_min + page - 1) / page * page
unfolding worker_stack
worker_stack-rounded stack_size stack_min page hp h =
    let size = max stack_size stack_min in
    let first : (size + page + (2 ^ 64 - 1)) % 2 ^ 64 ≡ size + page - 1 = omega arith in
    ap (λ (t : ℕ). t / page * page % 2 ^ 64) first
    ∙ mod-eq_of_lt (omega (arith, rounded_bounds size page hp))

-- Where the page is not empty and the wish is a page below the range of size_t, the stack is as large as
-- the wish and as pthread wants it at least, by less than a page more, and made of whole pages.
pub worker_stack_bounds :
    (stack_size stack_min page : ℕ)
    → 0 < page
    → stack_size + page < 2 ^ 64
    → stack_min + page < 2 ^ 64
    → (stack_size ≤ worker_stack stack_size stack_min page)
      × (stack_min ≤ worker_stack stack_size stack_min page)
      × (worker_stack stack_size stack_min page < max stack_size stack_min + page)
      × (worker_stack stack_size stack_min page % page ≡ 0)
worker_stack_bounds stack_size stack_min page hp hs hm =
    let size = max stack_size stack_min in
    let fits : size + page < 2 ^ 64 = ground arith in
    let wish : stack_size ≤ size = ground arith in
    let least : stack_min ≤ size = ground arith in
    let rounded = worker_stack-rounded stack_size stack_min page hp fits in
    let (low, high) = rounded_bounds size page hp in
    (
      omega (arith, rounded),
      omega (arith, rounded),
      omega (arith, rounded),
      ap (λ (t : ℕ). t % page) rounded ∙ whole_pages ((size + page - 1) / page) page,
    )
