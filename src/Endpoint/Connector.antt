-- ===== src/Endpoint/Connector.antt =====
-- `endpoint::tcp::connector` and `endpoint::unx::connector`: connect, try again after a while, give up.
use thespian.Prelude.{ℕ, suc, ◌*◌, true, List, [], ◌∷◌, ltb, if◌then◌else◌}
use thespian.Prelude.Int.{ℤ}
use thespian.Prelude.Text.{codes}
use thespian.Cbor.Result.{Bytes, Error, ok, err}
use thespian.Cbor.Match.{Extracted, Patterns, str, extract_int, extract_string, last, next}
use thespian.Cbor.Dispatch.{when, word, only}
use thespian.Actor.Messages.{array, exit_message, is_exit_msg, text}
use thespian.Actor.Send.{Sent, sent, refused, raised}

-- The times are numbers of milliseconds. The address is fixed and not part of the state.
pub record Connector : Type 0 where
  pub tag : Bytes
  pub connection_count : ℕ
  pub retry_time : ℕ
  pub retry_count : ℕ

-- Calls of the `connector` object, messages to the owner, timers, and the change into a connection.
pub data Effect : Type 0 where
  connect : Effect
  cancel : Effect
  to_owner : Bytes → Effect
  set_timeout : ℕ → Bytes → Effect
  cancel_timeout : Effect
  attach : ℤ → Effect
  close_socket : ℤ → Effect

-- `exited` has the error that the receiver returns; `unexpected` ends in the JSON of the message.
pub data Ending : Type 0 where
  returned : Ending
  exited : Bytes → Ending
  unexpected : Bytes → Ending
  thrown : Error → Ending
  thrown_by_send : Bytes → Ending

pub record Activation : Type 0 where
  pub connector : Connector
  pub effects : List Effect
  pub ending : Ending

-- The constructor: the first attempt.
unfoldable pub create : Bytes → ℕ → ℕ → Connector × List Effect
create tag retry_time retry_count = (
  record { tag = tag; connection_count = 1; retry_time = retry_time; retry_count = retry_count },
  connect ∷ [],
)

abbrev pub connected_msg : Bytes
connected_msg = array (text (codes "connected") ∷ [])

abbrev pub retry_msg : Bytes → Bytes
retry_msg tag = array (text (codes "connector") ∷ text tag ∷ text (codes "retry") ∷ [])

abbrev pub quit : Connector → Bytes → Activation
quit c e = record { connector = c; effects = []; ending = exited e }

-- The owner is told first; its refusal ends the actor, over the unix domain with the socket closed.
unfoldable pub tcp_connected : Sent → Connector → List Extracted → Activation
tcp_connected sent c (Extracted.int fd ∷ _) = record {
  connector = c;
  effects = to_owner connected_msg ∷ attach fd ∷ [];
  ending = returned;
}
tcp_connected (refused e) c (Extracted.int fd ∷ _) = record {
  connector = c;
  effects = to_owner connected_msg ∷ [];
  ending = exited e;
}
tcp_connected (raised w) c (Extracted.int fd ∷ _) = record {
  connector = c;
  effects = to_owner connected_msg ∷ [];
  ending = thrown_by_send w;
}
tcp_connected answer c _ = record { connector = c; effects = []; ending = returned }

unfoldable pub unx_connected : Sent → Connector → List Extracted → Activation
unx_connected sent c (Extracted.int fd ∷ _) = record {
  connector = c;
  effects = cancel_timeout ∷ to_owner connected_msg ∷ attach fd ∷ [];
  ending = returned;
}
unx_connected (refused e) c (Extracted.int fd ∷ _) = record {
  connector = c;
  effects = cancel_timeout ∷ to_owner connected_msg ∷ close_socket fd ∷ [];
  ending = exited e;
}
unx_connected (raised w) c (Extracted.int fd ∷ _) = record {
  connector = c;
  effects = cancel_timeout ∷ to_owner connected_msg ∷ [];
  ending = thrown_by_send w;
}
unx_connected answer c _ = record { connector = c; effects = []; ending = returned }

-- A failed attempt. `retry_time *= 2` is a product of numbers here: the source's milliseconds have at
-- least 45 bits.
unfoldable pub connect_error : Connector → List Extracted → Activation
connect_error c (Extracted.int ec ∷ Extracted.text err_msg ∷ []) =
    if ltb c.retry_count c.connection_count
    then quit c (exit_message (codes "connect_error") (text err_msg ∷ []))
    else record {
      connector = record c {
        connection_count = suc c.connection_count;
        retry_time = c.retry_time * 2;
      };
      effects = set_timeout c.retry_time (retry_msg c.tag) ∷ [];
      ending = returned;
    }
connect_error c _ = record { connector = c; effects = []; ending = returned }

abbrev does : Connector → Effect → Activation
does c e = record { connector = c; effects = e ∷ []; ending = returned }

-- The test of the last two branches.
unfoldable pub cancel_or_unexpected : Connector → Bytes → Activation
cancel_or_unexpected c m = elim (is_exit_msg m) [
  | ok true ↦ does c cancel
  | err e ↦ record { connector = c; effects = []; ending = thrown e }
  | _ ↦ record { connector = c; effects = []; ending = unexpected m }
]

-- `m("connector", tag, word, parms...)`
abbrev pub connector_msg : Connector → Patterns → Patterns
connector_msg c ps = next (word "connector") (next (str c.tag) ps)

-- The receiver, over its branch for a connection.
unfoldable pub receive : (Connector → List Extracted → Activation) → Connector → Bytes → Activation
unfolding connect_error cancel_or_unexpected
receive connected c m =
    let throw : Error → Activation =
      λ e. record { connector = c; effects = []; ending = thrown e } in
    when throw m (connector_msg c (next (word "connected") (last (extract_int 32)))) (connected c) (
      when throw m (connector_msg c (only "cancelled"))
        (λ _. quit c (exit_message (codes "cancelled") []))
        (when throw m
          (connector_msg c (next (word "error") (next (extract_int 32) (last extract_string))))
          (connect_error c)
          (when throw m (connector_msg c (only "retry")) (λ _. does c connect)
            (cancel_or_unexpected c m))))

unfoldable pub tcp_receive : Sent → Connector → Bytes → Activation
unfolding receive tcp_connected
tcp_receive answer c m = receive (tcp_connected answer) c m

unfoldable pub unx_receive : Sent → Connector → Bytes → Activation
unfolding receive unx_connected
unx_receive answer c m = receive (unx_connected answer) c m
