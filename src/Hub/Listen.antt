-- ===== src/Hub/Listen.antt =====
-- What the hub does with a request to listen: the `if` of src/hub.cpp that has no return.
use thespian.Prelude.{ℕ, ◌≡◌, refl, ap, ◌∙◌, [], ◌∷◌, none, some, arith}
use thespian.Prelude.Text.{codes}
use thespian.Prelude.Tests.{bytes_eq}
use thespian.Cbor.Result
use thespian.Cbor.Result.{Bytes}
use thespian.Cbor.Value
use thespian.Cbor.Value.{Value, nil, cons, push_value, IsValid}
use thespian.Cbor.Kind.{Kind, kind_eq}
use thespian.Cbor.Match.{
  Patterns, match_message, is, str, last, next, is_more, Extracted, extract_string, extract_range,
  A,
}
use thespian.Cbor.Accepts.{elements, text_of, accepts, accepts_scalar}
use thespian.Cbor.Refinement.{match_message-push_value}
use thespian.Hub.Receive.{
  on-some, on-none, Hub, Ending, Activation, on_shutdown, on_listen, receive,
}

-- The message of `hub::listen(desc)`.
abbrev pub listen_to : Bytes → Value
listen_to d = Value.array (cons (Value.text (codes "listen")) (cons (Value.text d) nil))

listen_to-IsValid : (d : Bytes) → IsValid (Value.text d) → IsValid (listen_to d)
listen_to-IsValid d h = (omega arith, ((omega arith, omega arith), (h, tt)))

module _ (d : Bytes) (valid : IsValid (Value.text d)) where
  rejected :
      (ps : Patterns)
      → accepts (A ps) (listen_to d) ≡ Result.ok none
      → match_message ps (push_value (listen_to d)) ≡ Result.ok none
  rejected ps e = match_message-push_value ps (listen_to d) (listen_to-IsValid d valid) ∙ e

  no_broadcast :
      match_message
        (next (str (codes "broadcast")) (last (is Kind.array)))
        (push_value (listen_to d))
      ≡ Result.ok none
  unfolding accepts accepts_scalar elements text_of bytes_eq is_more kind_eq Value.kind
  no_broadcast = rejected _ refl

  no_word : (s : Bytes) → match_message (last (str s)) (push_value (listen_to d)) ≡ Result.ok none
  unfolding accepts accepts_scalar elements text_of bytes_eq is_more kind_eq Value.kind
  no_word s = rejected _ refl

  no_messages :
      match_message
        (next (str (codes "subscribe_messages")) (last extract_range))
        (push_value (listen_to d))
      ≡ Result.ok none
  unfolding accepts accepts_scalar elements text_of bytes_eq is_more kind_eq Value.kind
  no_messages = rejected _ refl

  is_listen :
      match_message (next (str (codes "listen")) (last extract_string)) (push_value (listen_to d))
      ≡ Result.ok (some (Extracted.text d ∷ []))
  unfolding accepts accepts_scalar elements text_of bytes_eq is_more kind_eq Value.kind
  is_listen = match_message-push_value _ (listen_to d) (listen_to-IsValid d valid)

  no_shutdown :
      (h : Hub)
      → on_shutdown h (push_value (listen_to d)) ≡ record {
        hub = h;
        sent = [];
        listening = none;
        ending = Ending.unexpected (push_value (listen_to d));
      }
  unfolding on_shutdown
  no_shutdown h = on-none h _ _ _ _ (no_word (codes "shutdown"))

  -- A request to listen asks for the endpoint, and then ends the hub all the same, by `unexpected`.
  pub receive-listen :
      (h : Hub) (from : ℕ)
      → receive h from (push_value (listen_to d)) ≡ record {
        hub = h;
        sent = [];
        listening = some d;
        ending = Ending.unexpected (push_value (listen_to d));
      }
  unfolding receive on_listen on_shutdown
  receive-listen h from =
      on-none h _ _ _ _ no_broadcast
      ∙ on-none h _ _ _ _ (no_word (codes "subscribe"))
      ∙ on-none h _ _ _ _ (no_word (codes "subscribe_filtered"))
      ∙ on-none h _ _ _ _ no_messages
      ∙ on-some h _ _ _ _ _ is_listen
      ∙ ap (λ (a : Activation). record a { listening = some d }) (no_shutdown h)
