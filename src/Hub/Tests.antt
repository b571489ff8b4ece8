-- ===== src/Hub/Tests.antt =====
-- The hub at concrete messages.
use thespian.Prelude.{◌≡◌, refl, [], ◌∷◌, none, some, arith, length, leb}
use thespian.Prelude.Text.{codes}
use thespian.Cbor.Value.{Value, Values, nil, cons, push_value}
use thespian.Hub.Range.{done}
use thespian.Hub.Receive.{Filter, Hub, Ending, receive}
use thespian.Prelude.{◌++◌}
use thespian.Hub.Subscribe.{
  Net, empty_net, ask, subscribe, subscribe_filtered, message, Run, start, step, asks, takes,
  subscriptions, Run-subscribers,
}
use thespian.Hub.Listen.{listen_to, receive-listen}

abbrev is_short : Filter
is_short m = done (leb (length m) 4)

-- Two plain subscribers, and between them one that takes short messages only.
abbrev three : Hub
three = record { subscribers = (4, none) ∷ (5, some is_short) ∷ (6, none) ∷ []; queued = [] }

abbrev news : Values
news = cons (Value.text (codes "news")) (cons (Value.uint 1) nil)

receive-listen_example : receive three 9 (push_value (listen_to (codes "hub"))) ≡ record {
  hub = three;
  sent = [];
  listening = some (codes "hub");
  ending = Ending.unexpected (push_value (listen_to (codes "hub")));
}
receive-listen_example = receive-listen (codes "hub") (omega arith) three 9

-- Two actors subscribe, one with a filter, and the hub has taken the first message.
abbrev two_asked : Net
unfolding ask
two_asked = ask (subscribe 4) (ask (subscribe_filtered 5 is_short) empty_net)

abbrev one_taken : Net
unfolding ask message
one_taken = record two_asked {
  hub = (receive two_asked.hub 5 (message (subscribe_filtered 5 is_short))).hub;
  mailbox = subscribe 4 ∷ [];
}

one_taken_run : Run one_taken
unfolding one_taken two_asked ask
one_taken_run =
    step (step (step start (asks (subscribe_filtered 5 is_short))) (asks (subscribe 4)))
      (takes (subscribe_filtered 5 is_short) (subscribe 4 ∷ []) refl tt)

Run-subscribers_example :
    one_taken.asked ≡ one_taken.hub.subscribers ++ subscriptions one_taken.mailbox
unfolding one_taken
Run-subscribers_example = Run-subscribers one_taken_run
