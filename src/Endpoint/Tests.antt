-- ===== src/Endpoint/Tests.antt =====
-- A connection that reads a stream in chunks, and a connector that gives up.
use thespian.Device.Socket.{Socket}
use thespian.Prelude.{ℕ, ◌≡◌, refl, List, [], ◌∷◌, arith, map}
use thespian.Prelude.Text.{codes}
use thespian.Cbor.Result.{Bytes}
use thespian.Cbor.Buffer.{array_header, push_typed_val, push_string, push_uint}
use thespian.Cbor.Kind.{kind_eq}
use thespian.Cbor.Value
use thespian.Cbor.Value.{Value, nil, cons, push_value}
use thespian.Actor.Messages.{exit_message, text}
use thespian.Actor.Send.{Sent, sent}
use thespian.Endpoint.Connection.{start}
use thespian.Endpoint.Frames.{stream}
use thespian.Endpoint.Framing.{messages}
use thespian.Endpoint.Chunks.{feed, feed-stream}
use thespian.Endpoint.Wire.{Wire, send, complete, opened}
use thespian.Prelude.{true}
use thespian.Endpoint.Connector.{Connector, Ending, tcp_connected}
use thespian.Endpoint.Retry.{Failure, failing, backoff, failing_lem}

abbrev hello : Value
hello = Value.array (cons (Value.text (codes "hi")) (cons (Value.uint 300) nil))

abbrev answers : ℕ → ℕ → Sent
answers i j = sent

-- Two messages, cut in the middle of the first one and of the second one.
abbrev chunks : List Bytes
chunks =
    (130 ∷ 98 ∷ [])
    ∷ (104 ∷ 105 ∷ 25 ∷ 1 ∷ 44 ∷ 130 ∷ 98 ∷ 104 ∷ [])
    ∷ (105 ∷ 25 ∷ 1 ∷ 44 ∷ [])
    ∷ []

feed-stream_example :
    (messages (feed answers (start (codes "peer")).0 chunks).1
      ≡ map push_value (hello ∷ hello ∷ []))
    × ((feed answers (start (codes "peer")).0 chunks).0.read_buf ≡ [])
unfolding stream push_value array_header push_typed_val push_string push_uint kind_eq Value.kind
feed-stream_example =
    feed-stream (codes "peer") (hello ∷ hello ∷ []) chunks answers (λ i j. tt) (omega arith)
      ((omega arith, refl), ((omega arith, refl), tt))
      ((omega arith, λ e. cc), ((omega arith, λ e. cc), ((omega arith, λ e. cc), tt))) refl

abbrev connecting : Connector
connecting = record { tag = codes "tcp"; connection_count = 1; retry_time = 50; retry_count = 1 }

abbrev refusal : Failure
refusal = record { code = 111; message = codes "refused" }

failing_lem_example : failing (tcp_connected sent) connecting (refusal ∷ refusal ∷ []) ≡ (
  backoff 1 50 (codes "tcp"),
  Ending.exited (exit_message (codes "connect_error") (text (codes "refused") ∷ [])),
)
failing_lem_example =
    failing_lem (tcp_connected sent) (refusal ∷ []) [] refusal connecting (omega arith)
      (omega arith, tt) (omega arith) refl

-- One message is sent, and all of it is on the wire; the other side has read three bytes of it.
abbrev first_sent : Wire
first_sent = send hello (opened (codes "peer"))

abbrev written_out : Wire
written_out = complete 7 true first_sent
