-- ===== src/Endpoint/Connection.antt =====
-- `endpoint::connection`: messages of the owner are written to a socket, and bytes that are read from
-- it are cut into messages to the owner.
use thespian.Prelude.{
  ℕ, zero, suc, Bool, true, false, List, [], ◌∷◌, ◌++◌, none, some, if◌then◌else◌, length,
}
use Prim.Native.String.{String}
use thespian.Prelude.Text.{codes}
use thespian.Cbor.Result.{Bytes, Error, ok, err, out_of_fuel}
use thespian.Cbor.Match.{
  Extracted, Patterns, str, extract_int, extract_string, extract_range, last, next, match_scalar,
  passed,
}
use thespian.Cbor.Dispatch.{when, word, only}
use thespian.Actor.Messages.{exit_message, is_exit_msg, text}
use thespian.Actor.Send.{Sent, sent, refused, raised}

-- `tag` is the name of the endpoint.
pub record Connection : Type 0 where
  pub tag : Bytes
  pub read_buf : Bytes
  pub write_pending : Bool
  pub close_on_write_complete : Bool

-- What the actor does: a message to the owner, and calls of its socket.
pub data Effect : Type 0 where
  to_owner : Bytes → Effect
  read_socket : Effect
  write_socket : Bytes → Effect
  close_socket : Effect

-- How the receiver ends: `return ok()`, `exit("closed")`, or an exception of the matcher.
pub data Ending : Type 0 where
  returned : Ending
  closed : Ending
  thrown : Error → Ending

pub record Activation : Type 0 where
  pub connection : Connection
  pub effects : List Effect
  pub ending : Ending

-- The constructor, which asks for the first read.
unfoldable pub start : Bytes → Connection × List Effect
start tag = (
  record { tag = tag; read_buf = []; write_pending = false; close_on_write_complete = false },
  read_socket ∷ [],
)

unfoldable pub close : Connection → Connection × List Effect
close c =
    (record c { close_on_write_complete = true }, if c.write_pending then [] else close_socket ∷ [])

unfoldable pub write : Bytes → Connection → Connection × List Effect
write m c = (record c { write_pending = true }, write_socket m ∷ [])

-- `owner.exit(error, details...)`
abbrev owner_exit : Bytes → List Bytes → Effect
owner_exit error details = to_owner (exit_message error details)

-- The range that `extract(msg)` finds at the start of the buffer. `nothing` is the `domain_error`
-- that ends the loop.
pub data Frame : Type 0 where
  nothing : Frame
  frame : Bool → Bytes → Bytes → Frame

unfoldable pub next_frame : Bytes → Frame
next_frame buf = elim (match_scalar extract_range buf) [
  | ok (none, rest) ↦ frame false (passed buf rest) rest
  | ok (some _, rest) ↦ frame true (passed buf rest) rest
  | err e ↦ nothing
  | out_of_fuel ↦ nothing
]

-- One round of the loop over `read_buf`, before the send: a framing error closes, and the range is
-- sent all the same.
unfoldable pub framed : Bool → Connection → Connection × List Effect
unfolding close
framed true c = (c, [])
framed false c = let (c', es) = close c in (c', owner_exit (codes "framing_error") [] ∷ es)

-- After the send: its message is erased, and a refusal closes the socket.
unfoldable pub answered : Bool → Bytes → Connection → Connection × List Effect
unfolding close
answered true rest c = (record c { read_buf = rest }, [])
answered false rest c = close (record c { read_buf = rest })

-- A round over a frame: what the send answers, and the rounds that follow. A send that throws a
-- `domain_error` ends the loop with its message still in the buffer.
unfoldable pub deliver :
    Sent → (Connection → Connection × List Effect) → Frame → Connection → Connection × List Effect
unfolding framed answered
deliver answer continue nothing c = (c, [])
deliver sent continue (frame good msg rest) c =
    let (c₁, es₁) = framed good c in
    let (c₂, es₂) = answered true rest c₁ in
    let (c₃, es₃) = continue c₂ in (c₃, es₁ ++ (to_owner msg ∷ (es₂ ++ es₃)))
deliver (refused e) continue (frame good msg rest) c =
    let (c₁, es₁) = framed good c in
    let (c₂, es₂) = answered false rest c₁ in
    let (c₃, es₃) = continue c₂ in (c₃, es₁ ++ (to_owner msg ∷ (es₂ ++ es₃)))
deliver (raised w) continue (frame good msg rest) c =
    let (c₁, es₁) = framed good c in (c₁, es₁ ++ (to_owner msg ∷ []))

-- The loop. `answers` has what the sends to the owner answer, in turn. A round takes at least a byte
-- off the buffer, so its length is fuel enough.
unfoldable pub read_loop : ℕ → (ℕ → Sent) → Connection → Connection × List Effect
unfolding next_frame deliver
read_loop zero answers c = (c, [])
read_loop (suc f) answers c =
    let round =
      deliver (answers 0) (read_loop f (λ i. answers (suc i))) (next_frame c.read_buf) c in
    elim c.read_buf [ [] ↦ (c, []) | _ ∷ _ ↦ round ]

-- The branches of `receive`.
unfoldable pub read_complete : (ℕ → Sent) → Connection → List Extracted → Activation
unfolding read_loop close
read_complete answers c (Extracted.text [] ∷ []) =
    let (c', es) = close c in record { connection = c'; effects = es; ending = returned }
read_complete answers c (Extracted.text (b ∷ bs) ∷ []) =
    let buf = c.read_buf ++ (b ∷ bs) in
    let (c', es) = read_loop (length buf) answers (record c { read_buf = buf }) in
    record { connection = c'; effects = es ++ (read_socket ∷ []); ending = returned }
read_complete answers c _ = record { connection = c; effects = []; ending = returned }

unfoldable pub io_error : Bytes → Connection → List Extracted → Activation
unfolding close
io_error error c (Extracted.int e ∷ Extracted.text msg ∷ []) =
    let (c', es) = close c in
    record { connection = c'; effects = owner_exit error (text msg ∷ []) ∷ es; ending = returned }
io_error error c _ = record { connection = c; effects = []; ending = returned }

unfoldable pub write_complete : Connection → Activation
unfolding close
write_complete c =
    let c₁ = record c { write_pending = false } in
    let (c₂, es) = close c₁ in
    if c.close_on_write_complete
    then record { connection = c₂; effects = es; ending = returned }
    else record { connection = c₁; effects = []; ending = returned }

-- The last two branches: an exit message is written and closes, anything else is written.
unfoldable pub forward : Bytes → Connection → Activation
unfolding write close
forward m c =
    let (c₁, es₁) = write m c in
    let (c₂, es₂) = close c₁ in
    elim (is_exit_msg m) as (λ _. Activation) [
      | ok true ↦ record { connection = c₂; effects = es₁ ++ es₂; ending = returned }
      | err e ↦ record { connection = c; effects = []; ending = thrown e }
      | _ ↦ record { connection = c₁; effects = es₁; ending = returned }
    ]

-- `m("socket", tag, word, parms...)`
abbrev pub socket_msg : Connection → String → Patterns → Patterns
socket_msg c w ps = next (word "socket") (next (str c.tag) (next (word w) ps))

unfoldable pub receive : (ℕ → Sent) → Connection → Bytes → Activation
unfolding read_complete io_error write_complete forward
receive answers c m =
    let throw : Error → Activation =
      λ e. record { connection = c; effects = []; ending = thrown e } in
    when throw m (socket_msg c "read_error" (next (extract_int 32) (last extract_string)))
      (io_error (codes "read_error") c)
      (when throw m (socket_msg c "read_complete" (last extract_string)) (read_complete answers c) (
        when throw m (socket_msg c "write_error" (next (extract_int 32) (last extract_string)))
          (io_error (codes "write_error") c)
          (when throw m (socket_msg c "write_complete" (last (extract_int 32)))
            (λ _. write_complete c)
            (when throw m (next (word "socket") (next (str c.tag) (only "closed")))
              (λ _. record { connection = c; effects = []; ending = closed }) (forward m c)))))
