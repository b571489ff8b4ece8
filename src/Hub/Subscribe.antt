-- ===== src/Hub/Subscribe.antt =====
-- The handles of a hub (`hub::subscribe` and `subscribe_queue` of src/hub.cpp): any number of actors that
-- subscribe at once, with the queue of filters that they share with the hub.
use thespian.Prelude.{
  ℕ, ◌≡◌, refl, sym, ap, ◌∙◌, List, [], ◌∷◌, ◌++◌, Option, none, some, append_assoc, append-nil,
  All, arith,
}
use thespian.Prelude.Text.{codes}
use thespian.Prelude.Tests.{bytes_eq}
use thespian.Cbor.Result.{Bytes}
use thespian.Cbor.Value
use thespian.Cbor.Value.{Value, Values, nil, cons, push_value, IsValid}
use thespian.Cbor.Kind.{Kind, kind_eq}
use thespian.Cbor.Match.{A, match_message, is, str, last, next, is_more}
use thespian.Cbor.Accepts.{elements, text_of, accepts, accepts_scalar}
use thespian.Cbor.Refinement.{match_message-push_value}
use thespian.Hub.Receive.{on-some, on-none, Hub, Filter, Activation, pop_filter, receive}
use thespian.Hub.Broadcast.{tagged, receive-broadcast, Answers}

-- The message of a word alone.
abbrev pub alone : Bytes → Value
alone s = Value.array (cons (Value.text s) nil)

-- What an actor asks of the hub through its handle. The link that `subscribe` makes first is seen by the
-- runtime, and not by the receiver of the hub.
pub data Request : Type 0 where
  subscribe : ℕ → Request
  subscribe_filtered : ℕ → Filter → Request
  broadcast : ℕ → Values → Request

abbrev pub sender : Request → ℕ
sender (subscribe from) = from
sender (subscribe_filtered from f) = from
sender (broadcast from vs) = from

unfoldable pub message : Request → Bytes
message (subscribe from) = push_value (alone (codes "subscribe"))
message (subscribe_filtered from f) = push_value (alone (codes "subscribe_filtered"))
message (broadcast from vs) = push_value (tagged (Value.array vs))

-- The hub with its mailbox, which tells what each message was sent for, and the subscriptions that were
-- asked for so far, oldest first.
pub record Net : Type 0 where
  pub hub : Hub
  pub mailbox : List Request
  pub asked : List (ℕ × Option Filter)

abbrev pub queue_filter : Request → List Filter
queue_filter (subscribe from) = []
queue_filter (subscribe_filtered from f) = f ∷ []
queue_filter (broadcast from vs) = []

abbrev pub subscription : Request → List (ℕ × Option Filter)
subscription (subscribe from) = (from, none) ∷ []
subscription (subscribe_filtered from f) = (from, some f) ∷ []
subscription (broadcast from vs) = []

-- `push` holds the lock from the entry of its filter to the end of its send, so that the two are one
-- move; so is the send of the other requests.
unfoldable pub ask : Request → Net → Net
ask r n = record {
  hub = record (n.hub) { queued = n.hub.queued ++ queue_filter r };
  mailbox = n.mailbox ++ (r ∷ []);
  asked = n.asked ++ subscription r;
}

-- The parameters of a broadcast fit, and the filters answer on it.
abbrev pub IsFit : Request → Hub → Type 0
IsFit (broadcast from vs) h =
    IsValid (Value.array vs) × All (Answers (push_value (Value.array vs))) h.subscribers
IsFit _ h = Unit

-- What can happen, in any order: an actor asks, or the hub takes the oldest message.
pub data Step (n : Net) : Net → Type 0 where
  asks : (r : Request) → Step n (ask r n)
  takes :
      (r : Request) (rs : List Request)
      → n.mailbox ≡ r ∷ rs
      → IsFit r n.hub
      → Step n (record n { hub = (receive n.hub (sender r) (message r)).hub; mailbox = rs })

abbrev pub empty_net : Net
empty_net = record { hub = record { subscribers = []; queued = [] }; mailbox = []; asked = [] }

pub data Run : Net → Type 0 where
  start : Run empty_net
  step : {n m : Net} → Run n → Step n m → Run m

abbrev pub filters : List Request → List Filter
filters [] = []
filters (r ∷ rs) = queue_filter r ++ filters rs

abbrev pub subscriptions : List Request → List (ℕ × Option Filter)
subscriptions [] = []
subscriptions (r ∷ rs) = subscription r ++ subscriptions rs

matches_word :
    (word s : Bytes)
    → IsValid (alone s)
    → match_message (last (str word)) (push_value (alone s))
      ≡ accepts (A (last (str word))) (alone s)
matches_word word s h = match_message-push_value (last (str word)) (alone s) h

no_broadcast :
    (s : Bytes)
    → IsValid (alone s)
    → match_message (next (str (codes "broadcast")) (last (is Kind.array))) (push_value (alone s))
      ≡ accepts (A (next (str (codes "broadcast")) (last (is Kind.array)))) (alone s)
no_broadcast s h = match_message-push_value _ (alone s) h

-- A plain subscription, and one whose filter is the first of the queue.
receive-subscribe :
    (h : Hub) (from : ℕ)
    → (receive h from (message (subscribe from))).hub
      ≡ record h { subscribers = h.subscribers ++ ((from, none) ∷ []) }
unfolding receive message accepts accepts_scalar elements text_of bytes_eq is_more kind_eq
    Value.kind
receive-subscribe h from =
    let valid : IsValid (alone (codes "subscribe")) = omega arith in
    ap (λ (a : Activation). a.hub)
      (on-none h _ _ _ _ (no_broadcast (codes "subscribe") valid)
        ∙ on-some h _ _ _ _ [] (matches_word (codes "subscribe") (codes "subscribe") valid))

receive-subscribe_filtered :
    (h : Hub) (from : ℕ) (f : Filter) (q : List Filter)
    → h.queued ≡ f ∷ q
    → (receive h from (message (subscribe_filtered from f))).hub
      ≡ record { subscribers = h.subscribers ++ ((from, some f) ∷ []); queued = q }
unfolding receive message pop_filter accepts accepts_scalar elements text_of bytes_eq is_more
    kind_eq Value.kind
receive-subscribe_filtered h from f q e =
    let word = codes "subscribe_filtered" in
    let valid : IsValid (alone word) = omega arith in
    ap (λ (a : Activation). a.hub)
      (on-none h _ _ _ _ (no_broadcast word valid)
        ∙ on-none h _ _ _ _ (matches_word (codes "subscribe") word valid)
        ∙ on-some h _ _ _ _ [] (matches_word word word valid)
        ∙ ap (pop_filter h from) e)

receive-other :
    (h : Hub) (from : ℕ) (vs : Values)
    → IsFit (broadcast from vs) h
    → (receive h from (message (broadcast from vs))).hub ≡ h
unfolding message
receive-other h from vs (valid, answers) =
    ap (λ (a : Activation). a.hub) (receive-broadcast h from vs valid answers)

-- The queue has the filters of the messages that wait, and every subscription is made or waits.
record IsServed (n : Net) : Type 0 where
  queue : n.hub.queued ≡ filters n.mailbox
  served : n.asked ≡ n.hub.subscribers ++ subscriptions n.mailbox

filters-append :
    (rs : List Request) (r : Request) → filters (rs ++ (r ∷ [])) ≡ filters rs ++ queue_filter r
filters-append [] r = append-nil (queue_filter r)
filters-append (x ∷ rs) r =
    ap (λ l. queue_filter x ++ l) (filters-append rs r)
    ∙ sym (append_assoc (queue_filter x) (filters rs) (queue_filter r))

subscriptions-append :
    (rs : List Request) (r : Request)
    → subscriptions (rs ++ (r ∷ [])) ≡ subscriptions rs ++ subscription r
subscriptions-append [] r = append-nil (subscription r)
subscriptions-append (x ∷ rs) r =
    ap (λ l. subscription x ++ l) (subscriptions-append rs r)
    ∙ sym (append_assoc (subscription x) (subscriptions rs) (subscription r))

ask-IsServed : (r : Request) (n : Net) → IsServed n → IsServed (ask r n)
unfolding ask
ask-IsServed r n h = record {
  queue = ap (λ l. l ++ queue_filter r) h.queue ∙ sym (filters-append n.mailbox r);
  served =
      ap (λ l. l ++ subscription r) h.served
      ∙ append_assoc n.hub.subscribers (subscriptions n.mailbox) (subscription r)
      ∙ ap (λ l. n.hub.subscribers ++ l) (sym (subscriptions-append n.mailbox r));
}

-- The hub after a message, by what it was sent for.
taken-IsServed :
    (n : Net) (r : Request) (rs : List Request) (h' : Hub)
    → h'.queued ≡ filters rs
    → h'.subscribers ≡ n.hub.subscribers ++ subscription r
    → n.mailbox ≡ r ∷ rs
    → IsServed n
    → IsServed (record n { hub = h'; mailbox = rs })
taken-IsServed n r rs h' q s e h = record {
  queue = q;
  served =
      h.served
      ∙ ap (λ l. n.hub.subscribers ++ subscriptions l) e
      ∙ sym (append_assoc n.hub.subscribers (subscription r) (subscriptions rs))
      ∙ ap (λ l. l ++ subscriptions rs) (sym s);
}

take-IsServed :
    (n : Net) (r : Request) (rs : List Request)
    → n.mailbox ≡ r ∷ rs
    → IsFit r n.hub
    → IsServed n
    → IsServed (record n { hub = (receive n.hub (sender r) (message r)).hub; mailbox = rs })
take-IsServed n (subscribe from) rs e fit h =
    let after = receive-subscribe n.hub from in
    taken-IsServed n (subscribe from) rs _
      (ap (λ (k : Hub). k.queued) after ∙ h.queue ∙ ap filters e)
      (ap (λ (k : Hub). k.subscribers) after) e h
take-IsServed n (subscribe_filtered from f) rs e fit h =
    let after = receive-subscribe_filtered n.hub from f (filters rs) (h.queue ∙ ap filters e) in
    taken-IsServed n (subscribe_filtered from f) rs _ (ap (λ (k : Hub). k.queued) after)
      (ap (λ (k : Hub). k.subscribers) after) e h
take-IsServed n (broadcast from vs) rs e fit h =
    let after = receive-other n.hub from vs fit in
    taken-IsServed n (broadcast from vs) rs _
      (ap (λ (k : Hub). k.queued) after ∙ h.queue ∙ ap filters e)
      (ap (λ (k : Hub). k.subscribers) after ∙ sym (append-nil n.hub.subscribers)) e h

Run-IsServed : {n : Net} → Run n → IsServed n
Run-IsServed start = record { queue = refl; served = refl }
Run-IsServed (step {n} r (asks q)) = ask-IsServed q n (Run-IsServed r)
Run-IsServed (step {n} r (takes q rs e fit)) = take-IsServed n q rs e fit (Run-IsServed r)

-- However the calls of the subscribers and the hub are interleaved, the hub has made the first of the
-- subscriptions that were asked for, each with the filter that its own actor gave, in the order of
-- the calls, and the others wait in its mailbox. Broadcasts go on meanwhile, as long as their
-- parameters fit and the filters answer.
pub Run-subscribers : {n : Net} → Run n → n.asked ≡ n.hub.subscribers ++ subscriptions n.mailbox
Run-subscribers r = (Run-IsServed r).served
