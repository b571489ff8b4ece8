-- ===== src/Hub/Receive.antt =====
-- `hub_impl::receive` and the queue of filters (src/hub.cpp).
use thespian.Prelude.{
  ◌≡◌, ℕ, Bool, true, false, List, [], ◌∷◌, ◌++◌, Option, none, some, if◌then◌else◌, drop, bytes_eq,
}
use Prim.Native.String.{String}
use thespian.Prelude.Text.{codes}
use thespian.Cbor.Result.{Bytes, Result}
use thespian.Cbor.Kind.{Kind}
use thespian.Cbor.Match.{
  Extracted, Patterns, is, str, extract_string, extract_range, last, next, match_message,
}
use thespian.Hub.Range.{
  Exception, domain_error, Walk, done, throws, stuck, lift, ◌>>=◌, range_strings,
}

-- `std::function<bool(const buffer &)>`, which may throw.
abbrev pub Filter : Type 0
Filter = Bytes → Walk Bool

-- `subscribers_`, and the deque of the `subscribe_queue` that the hub shares with its handles. The
-- filter of a plain subscription is empty.
pub record Hub : Type 0 where
  pub subscribers : List (ℕ × Option Filter)
  pub queued : List Filter

-- How an activation ends: `return ok()`; an exit with the given reason; an exit by `unexpected`,
-- whose reason ends in the JSON of the message; an exception; or the undefined behaviour of
-- `q_.front()` on an empty deque.
pub data Ending : Type 0 where
  ok : Ending
  exit : Bytes → Ending
  unexpected : Bytes → Ending
  thrown : Exception → Ending
  undefined : Ending

-- The activation: the hub after it, what it sent (whose results the hub does not read), the
-- endpoint that it asked for, and its end.
pub record Activation : Type 0 where
  pub hub : Hub
  pub sent : List (ℕ × Bytes)
  pub listening : Option Bytes
  pub ending : Ending

abbrev quiet : Hub → Ending → Activation
quiet h e = record { hub = h; sent = []; listening = none; ending = e }

-- The loop over the subscribers: a filter that throws ends it.
unfoldable pub deliver : List (ℕ × Option Filter) → Bytes → List (ℕ × Bytes) × Ending
deliver [] m = ([], Ending.ok)
deliver ((s, none) ∷ ss) m = let (out, e) = deliver ss m in ((s, m) ∷ out, e)
deliver ((s, some f) ∷ ss) m =
    let (out, e) = deliver ss m in
    elim (f m) [
      | done true ↦ ((s, m) ∷ out, e)
      | done false ↦ (out, e)
      | throws x ↦ ([], thrown x)
      | stuck ↦ ([], Ending.ok)
    ]

abbrev pub contains : List Bytes → Bytes → Bool
contains [] tag = false
contains (m ∷ ms) tag = let rest = contains ms tag in if bytes_eq m tag then true else rest

-- The filter of `subscribe_messages`: `m(extract(tag), more) && msgs.find(tag) != msgs.end()`.
unfoldable pub tag_filter : List Bytes → Filter
tag_filter msgs m = lift (match_message (next extract_string (last (is Kind.more))) m) >>= λ r.
    elim r [ some (Extracted.text tag ∷ _) ↦ done (contains msgs tag) | _ ↦ done false ]

abbrev subscribe_to : Hub → ℕ → Option Filter → Hub
subscribe_to h from f = record h { subscribers = h.subscribers ++ ((from, f) ∷ []) }

-- One `if` of `receive`: go on with `f` where the message matches, with `otherwise` where not.
unfoldable pub on : Hub → Bytes → Patterns → (List Extracted → Activation) → Activation → Activation
on h m ps f otherwise = elim (match_message ps m) [
  | Result.ok (some xs) ↦ f xs
  | Result.ok none ↦ otherwise
  | Result.err e ↦ quiet h (thrown (domain_error e))
  | Result.out_of_fuel ↦ otherwise
]

module _ (h : Hub) (m : Bytes) (ps : Patterns) (f : List Extracted → Activation)
    (otherwise : Activation) where
  pub on-some :
      (xs : List Extracted)
      → match_message ps m ≡ Result.ok (some xs)
      → on h m ps f otherwise ≡ f xs
  unfolding on
  on-some xs e = rw (e, on)

  pub on-none : match_message ps m ≡ Result.ok none → on h m ps f otherwise ≡ otherwise
  unfolding on
  on-none e = rw (e, on)

abbrev pub word : String → Patterns
word s = last (str (codes s))

-- The test of the last two lines.
unfoldable pub on_shutdown : Hub → Bytes → Activation
on_shutdown h m =
    on h m (word "shutdown") (λ _. quiet h (exit (codes "shutdown"))) (quiet h (unexpected m))

-- After `listen` the code goes on to the tests below it.
unfoldable pub on_listen : Hub → Bytes → Activation
unfolding on_shutdown
on_listen h m =
    on h m (next (str (codes "listen")) (last extract_string))
      (λ xs. record (on_shutdown h m) {
        listening = elim xs [ Extracted.text d ∷ _ ↦ some d | _ ↦ none ];
      })
      (on_shutdown h m)

unfoldable pub subscribe_messages : Hub → ℕ → List Extracted → Activation
subscribe_messages h from (Extracted.range r ∷ _) = elim (range_strings r) [
  | done msgs ↦ quiet (subscribe_to h from (some (tag_filter msgs))) Ending.ok
  | throws x ↦ quiet h (thrown x)
  | stuck ↦ quiet h Ending.ok
]
subscribe_messages h from _ = quiet h Ending.ok

unfoldable pub pop_filter : Hub → ℕ → List Filter → Activation
pop_filter h from [] = quiet h undefined
pop_filter h from (f ∷ q) = quiet (record (subscribe_to h from (some f)) { queued = q }) Ending.ok

unfoldable pub broadcast : Hub → Bytes → Activation
unfolding deliver
broadcast h m =
    let (out, e) = deliver h.subscribers (drop 11 m) in
    record { hub = h; sent = out; listening = none; ending = e }

unfoldable pub receive : Hub → ℕ → Bytes → Activation
unfolding broadcast pop_filter subscribe_messages on_listen
receive h from m =
    on h m (next (str (codes "broadcast")) (last (is Kind.array))) (λ _. broadcast h m)
      (on h m (word "subscribe") (λ _. quiet (subscribe_to h from none) Ending.ok)
        (on h m (word "subscribe_filtered") (λ _. pop_filter h from h.queued)
          (on h m (next (str (codes "subscribe_messages")) (last extract_range))
            (subscribe_messages h from) (on_listen h m))))
