-- ===== src/Debug/Acceptor.antt =====
-- The acceptors of debug connections (`acceptor`, `tcp_listener` and `unx_listener` of src/instance.cpp), and
-- how a connection starts.
use thespian.Prelude.{ℕ, false, List, [], ◌∷◌, Option, none, some}
use thespian.Prelude.Int.{ℤ}
use thespian.Prelude.Text.{codes}
use thespian.Cbor.Result.{Bytes, Error}
use thespian.Cbor.Match.{Extracted, str, extract_int, extract_string, last, next}
use thespian.Cbor.Dispatch.{when, word, only}
use thespian.Actor.Messages.{array, exit_message, text}
use thespian.Actor.Send.{Sent}
use thespian.Debug.Registry.{Registry}
use thespian.Debug.Taps.{Taps}
use thespian.Debug.Session.{Activation, writes, read_socket, finish, goes_on}

-- The constructor of `connection`: the prompt is written and a first read is asked for.
unfoldable pub start : ℕ → Bytes → Registry → Taps → Activation
unfolding finish
start self prompt registry taps =
    finish
      (record {
        prompt = prompt;
        self = self;
        prev_buf = [];
        json_mode = false;
        writer = record { unwritten = 0; close_on_write_complete = false };
        next_call = 0;
        pending_calls = [];
        registry = registry;
        taps = taps;
      })
      (writes prompt ∷ read_socket ∷ []) goes_on

-- What an acceptor does: `starts` is `connection::start(ctx, fd, prompt)`.
pub data Effect : Type 0 where
  starts : ℤ → Bytes → Effect
  to_sender : Bytes → Effect
  close_listener : Effect

-- How its receiver ends: `return ok()`, an error, what a send answers, or an exception.
pub data Ending : Type 0 where
  returned : Ending
  exited : Bytes → Ending
  answered : Sent → Ending
  thrown : Error → Ending

abbrev of_start : Option Bytes → Ending
of_start none = returned
of_start (some e) = exited e

-- `tag` is that of the listener; `start_error` is the error of the start, if it has one, and `answer` that
-- of the reply to a ping.
unfoldable pub receive : Bytes → Bytes → Option Bytes → Sent → Bytes → List Effect × Ending
receive tag prompt start_error answer m =
    let raise : Error → List Effect × Ending = λ e. ([], thrown e) in
    let other : List Effect × Ending = (close_listener ∷ [], returned) in
    when raise m
      (next (word "acceptor") (next (str tag) (next (word "accept") (last (extract_int 32)))))
      (λ xs. elim xs [
        | Extracted.int fd ∷ _ ↦ (starts fd prompt ∷ [], of_start start_error)
        | _ ↦ other
      ])
      (when raise m (next (word "acceptor") (next (str tag) (last (word "closed"))))
        (λ _. ([], exited (exit_message (codes "closed") [])))
        (when raise m
          (next (word "acceptor")
            (next (str tag) (next (word "error") (next (extract_int 32) (last extract_string)))))
          (λ xs. elim xs [
            | _ ∷ Extracted.text err ∷ _ ↦
                ([], exited (exit_message (codes "listen_error") (text err ∷ [])))
            | _ ↦ other
          ])
          (when raise m (only "ping")
            (λ _. (to_sender (array (text (codes "pong") ∷ [])) ∷ [], answered answer)) other)))
