-- ===== src/Endpoint/Acceptor.antt =====
-- `endpoint::tcp::acceptor` and `endpoint::unx::acceptor`: a connection actor for each accepted socket.
use Prim.Native.String.{String}
use thespian.Prelude.{ℕ, true, List, [], ◌∷◌}
use thespian.Prelude.Int.{ℤ}
use thespian.Prelude.Text.{codes}
use thespian.Cbor.Result.{Bytes, Error, ok, err}
use thespian.Cbor.Buffer.{push_uint}
use thespian.Cbor.Match.{Extracted, Patterns, str, extract_int, extract_string, last, next}
use thespian.Cbor.Dispatch.{when, word, only}
use thespian.Actor.Messages.{array, exit_message, is_exit_msg, text}
use thespian.Actor.Send.{Sent, sent, refused, raised}

-- What the acceptor answers to `get`: the word that is asked for, and what is pushed.
pub record Acceptor : Type 0 where
  pub tag : Bytes
  pub key : String
  pub listens_at : Bytes

unfoldable pub tcp_acceptor : ℕ → Acceptor
tcp_acceptor port = record {
  tag = codes "endpoint::tcp::acceptor";
  key = "port";
  listens_at = push_uint port;
}

unfoldable pub unx_acceptor : Bytes → Acceptor
unx_acceptor path = record {
  tag = codes "endpoint::unx::acceptor";
  key = "path";
  listens_at = text path;
}

-- A connection actor is started for a descriptor, a message goes back to the sender, or the
-- `acceptor` object is closed.
pub data Effect : Type 0 where
  start_connection : ℤ → Effect
  reply : Bytes → Effect
  close_acceptor : Effect

pub data Ending : Type 0 where
  returned : Ending
  exited : Bytes → Ending
  unexpected : Bytes → Ending
  thrown : Error → Ending
  thrown_by_send : Bytes → Ending

pub record Activation : Type 0 where
  pub effects : List Effect
  pub ending : Ending

abbrev pub ends : List Effect → Ending → Activation
ends es e = record { effects = es; ending = e }

-- `return from.send(...)`: what the send answers is the result.
unfoldable pub answer_of : Sent → Ending
answer_of sent = returned
answer_of (refused e) = exited e
answer_of (raised w) = thrown_by_send w

unfoldable pub accepted : List Extracted → Activation
accepted (Extracted.int fd ∷ []) = ends (start_connection fd ∷ []) returned
accepted _ = ends [] returned

unfoldable pub listen_error : List Extracted → Activation
listen_error (Extracted.int c ∷ Extracted.text e ∷ []) =
    ends [] (exited (exit_message (codes "listen_error") (text e ∷ [])))
listen_error _ = ends [] returned

unfoldable pub close_or_unexpected : Bytes → Activation
close_or_unexpected m = elim (is_exit_msg m) [
  | ok true ↦ ends (close_acceptor ∷ []) returned
  | err e ↦ ends [] (thrown e)
  | _ ↦ ends [] (unexpected m)
]

-- `answer` is what the send of a reply would answer.
unfoldable pub receive : Sent → Acceptor → Bytes → Activation
unfolding accepted listen_error close_or_unexpected answer_of
receive answer a m =
    let throw : Error → Activation = λ e. ends [] (thrown e) in
    let acceptor_msg : Patterns → Patterns = λ ps. next (word "acceptor") (next (str a.tag) ps) in
    when throw m (acceptor_msg (next (word "accept") (last (extract_int 32)))) accepted (
      when throw m (acceptor_msg (only "closed"))
        (λ _. ends [] (exited (exit_message (codes "closed") [])))
        (when throw m
          (acceptor_msg (next (word "error") (next (extract_int 32) (last extract_string))))
          listen_error
          (when throw m (only "ping")
            (λ _. ends (reply (array (text (codes "pong") ∷ [])) ∷ []) (answer_of answer))
            (when throw m (next (word "get") (only a.key))
              (λ _.
                ends (reply (array (text (codes a.key) ∷ a.listens_at ∷ [])) ∷ [])
                  (answer_of answer))
              (close_or_unexpected m)))))
