-- ===== src/Hub/Broadcast.antt =====
-- What the hub does with a broadcast, and with a request to listen.
use thespian.Prelude.{
  ℕ, ◌≡◌, refl, ◌∙◌, Bool, true, false, List, [], ◌∷◌, Option, none, some, if◌then◌else◌, drop, All,
  arith, append-nil,
}
use thespian.Prelude.Text.{codes}
use thespian.Cbor.Result
use thespian.Cbor.Result.{Bytes}
use thespian.Cbor.Buffer.{push_typed_val, push_string, array_header}
use thespian.Cbor.Value
use thespian.Cbor.Value.{
  Value, Values, nil, cons, count, push_value, push_values, IsValid, AreValid,
}
use thespian.Cbor.Kind.{Kind, kind_eq}
use thespian.Cbor.Match.{match_message, is, str, last, next, is_more}
use thespian.Prelude.Tests.{bytes_eq}
use thespian.Cbor.Accepts.{elements, text_of, accepts, accepts_scalar}
use thespian.Cbor.Refinement.{match_message-push_value}
use thespian.Hub.Range.{done}
use thespian.Hub.Receive.{on-some, Filter, Hub, Ending, deliver, receive}

-- The message of `hub::broadcast(parms...)`, with its parameters in an array.
abbrev pub tagged : Value → Value
tagged v = Value.array (cons (Value.text (codes "broadcast")) (cons v nil))

-- Whether a subscriber asks for a message.
abbrev pub wants : Bytes → ℕ × Option Filter → Bool
wants m (s, none) = true
wants m (s, some f) = elim (f m) [ done b ↦ b | _ ↦ false ]

-- The filter of a subscriber answers on a message.
abbrev pub Answers : Bytes → ℕ × Option Filter → Type 0
Answers m (s, none) = Unit
Answers m (s, some f) = (b : Bool) × (f m ≡ done b)

unfoldable pub addressed : Bytes → List (ℕ × Option Filter) → List (ℕ × Bytes)
addressed m [] = []
addressed m (s ∷ ss) = let rest = addressed m ss in if wants m s then (s.0, m) ∷ rest else rest

deliver-addressed :
    (ss : List (ℕ × Option Filter)) (m : Bytes)
    → All (Answers m) ss
    → deliver ss m ≡ (addressed m ss, Ending.ok)
unfolding deliver addressed
deliver-addressed [] m h = refl
deliver-addressed ((s, none) ∷ ss) m h = rw (deliver-addressed ss m h.1)
deliver-addressed ((s, some f) ∷ ss) m ((true, e), h) = rw (e, deliver-addressed ss m h)
deliver-addressed ((s, some f) ∷ ss) m ((false, e), h) = rw (e, deliver-addressed ss m h)

-- The eleven bytes that the hub cuts off are the outer header and the word.
drop-tagged : (v : Value) → drop 11 (push_value (tagged v)) ≡ push_value v
unfolding push_value array_header push_string push_typed_val
drop-tagged v = append-nil (push_value v)

tagged-IsValid : (v : Value) → IsValid v → IsValid (tagged v)
tagged-IsValid v h = (omega arith, ((omega arith, omega arith), (h, tt)))

is_broadcast :
    (vs : Values)
    → IsValid (Value.array vs)
    → match_message
        (next (str (codes "broadcast")) (last (is Kind.array)))
        (push_value (tagged (Value.array vs)))
      ≡ Result.ok (some [])
unfolding accepts accepts_scalar elements text_of bytes_eq is_more kind_eq Value.kind
is_broadcast vs h =
    match_message-push_value _ (tagged (Value.array vs)) (tagged-IsValid (Value.array vs) h)

pub receive-broadcast :
    (h : Hub) (from : ℕ) (vs : Values)
    → IsValid (Value.array vs)
    → All (Answers (push_value (Value.array vs))) h.subscribers
    → receive h from (push_value (tagged (Value.array vs))) ≡ record {
      hub = h;
      sent = addressed (push_value (Value.array vs)) h.subscribers;
      listening = none;
      ending = Ending.ok;
    }
unfolding receive
receive-broadcast h from vs valid answers =
    on-some h _ _ _ _ [] (is_broadcast vs valid)
    ∙ (rw (drop-tagged (Value.array vs), deliver-addressed h.subscribers _ answers))
