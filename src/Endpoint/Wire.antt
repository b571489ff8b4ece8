-- ===== src/Endpoint/Wire.antt =====
-- An endpoint, its socket, and the bytes that the socket has put on the wire: from the messages that are
-- sent on the one side to those that the owner of the other side is sent.
use thespian.Prelude.{ℕ, ◌≡◌, refl, ap, ◌∙◌, Bool, true, false, List, [], ◌∷◌, ◌++◌, take, map, All}
use thespian.Cbor.Result.{Bytes}
use thespian.Cbor.Value.{Value, Values, push_value, IsValid}
use thespian.Actor.Send.{sent}
use thespian.Actor.DeadLetter.{tagged}
use thespian.Endpoint.Forward.{receive-forward, is_exit_msg-push}
use thespian.Actor.Messages.{is_exit_msg}
use thespian.Prelude.Text.{codes}
use thespian.Prelude.Tests.{bytes_eq}
use thespian.Cbor.Result
use thespian.Device.Socket.{Socket, Call, write_call, close_call, call, create_socket}
use thespian.Device.Socket
use thespian.Device.Pending.{pending, IsSteady}
use thespian.Endpoint.Connection.{
  Connection, Effect, to_owner, read_socket, write_socket, close_socket, start, write,
  write_complete, close, receive, forward, Activation,
}
use thespian.Endpoint.Frames.{IsMessage, stream}
use thespian.Endpoint.Framing.{messages}

-- `out` is what the executor has written so far, `sent` the messages that the endpoint was given.
pub record Wire : Type 0 where
  pub connection : Connection
  pub socket : Socket
  pub out : Bytes
  pub sent : List Value

-- What the endpoint asks of its socket.
unfoldable pub calls : List Effect → List Call
calls [] = []
calls (write_socket b ∷ es) = write_call b ∷ calls es
calls (close_socket ∷ es) = close_call ∷ calls es
calls (to_owner m ∷ es) = calls es
calls (read_socket ∷ es) = calls es

-- The endpoint takes a message; it sends nothing to its owner that could be refused.
unfoldable pub send : Value → Wire → Wire
unfolding calls
send v w =
    let a = receive (λ i. sent) w.connection (push_value v) in
    record w {
      connection = a.connection;
      socket = call (calls a.effects) w.socket;
      sent = w.sent ++ (v ∷ []);
    }

unfoldable pub shut : Wire → Wire
unfolding calls
shut w =
    let (c, es) = close w.connection in
    record w { connection = c; socket = call (calls es) w.socket }

-- The executor has written `len` bytes of what was submitted, and the endpoint hears of it.
unfoldable pub complete : ℕ → Bool → Wire → Wire
unfolding calls
complete len ok w =
    let a = write_complete w.connection in
    record w {
      connection = a.connection;
      socket = Socket.write_complete len (calls a.effects) ok w.socket;
      out = w.out ++ take len w.socket.submitted;
    }

-- What can happen on the sending side, in any order, until the endpoint ends. A message begins with a
-- word, and not with "socket", which the endpoint takes for one of its socket.
pub data Step (w : Wire) : Wire → Type 0 where
  sends :
      (s : Bytes) (vs : Values)
      → IsValid (tagged s vs)
      → bytes_eq s (codes "socket") ≡ false
      → Step w (send (tagged s vs) w)
  shuts : Step w (shut w)
  completes : (len : ℕ) (ok : Bool) → w.socket.write_pending ≡ true → Step w (complete len ok w)

pub data Run (w : Wire) : Wire → Type 0 where
  here : Run w w
  next : {u v : Wire} → Run w u → Step u v → Run w v

abbrev pub opened : Bytes → Wire
opened tag = record { connection = (start tag).0; socket = create_socket tag; out = []; sent = [] }

-- What is on the wire and what the socket holds are the messages, one behind the other.
pub record Carries (w : Wire) : Type 0 where
  pub flow : w.out ++ pending w.socket ≡ stream w.sent
  pub steady : IsSteady w.socket
  pub valid : All IsMessage w.sent

-- What the endpoint is sent it writes; an exit message closes it when all is written.
pub send-socket :
    (s : Bytes) (vs : Values) (w : Wire)
    → IsValid (tagged s vs)
    → bytes_eq s (codes "socket") ≡ false
    → (send (tagged s vs) w).socket ≡ call (write_call (push_value (tagged s vs)) ∷ []) w.socket
unfolding send forward write close calls
send-socket s vs w valid other =
    ap (λ (a : Activation). call (calls a.effects) w.socket)
      (receive-forward w.connection s vs valid other (λ i. sent))
    ∙ by_exit (is_exit_msg-push s vs valid)
  where
    m : Bytes
    m = push_value (tagged s vs)

    by_exit :
        (b : Bool) × (is_exit_msg m ≡ Result.ok b)
        → call (calls (forward m w.connection).effects) w.socket ≡ call (write_call m ∷ []) w.socket
    by_exit (true, e) = rw (e, forward) refl
    by_exit (false, e) = rw (e, forward) refl

-- What the owner on the other side was sent: the first of the messages, and all of them if nothing is
-- under way.
pub record Delivered (w : Wire) (rest : Bytes) (es : List Effect) : Type 0 where
  pub done : List Value
  pub todo : List Value
  pub split : w.sent ≡ done ++ todo
  pub delivered : messages es ≡ map push_value done
  pub complete : rest ++ pending w.socket ≡ [] → done ≡ w.sent
