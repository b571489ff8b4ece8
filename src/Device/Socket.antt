-- ===== src/Device/Socket.antt =====
-- `socket_impl`: the bytes that the owner writes, and the writes that the executor is asked for.
use thespian.Prelude.{
  ℕ, Bool, true, false, List, [], ◌∷◌, ◌++◌, drop, length, ltb, Option, none, some, if◌then◌else◌,
}
use thespian.Prelude.Text.{codes}
use thespian.Prelude.Int.{pos, int_eq}
use thespian.Cbor.Result.{Bytes}
use thespian.Cbor.Buffer.{push_string}
use thespian.Device.Report.{ErrorCode, report, report_error}

-- `submitted` is what the executor was asked to write last, `closes` whether it was asked to close.
pub record Socket : Type 0 where
  pub tag : Bytes
  pub is_open : Bool
  pub write_buf : Bytes
  pub write_q : Bytes
  pub write_pending : Bool
  pub submitted : Bytes
  pub closes : Bool

unfoldable pub create_socket : Bytes → Socket
create_socket tag = record {
  tag = tag;
  is_open = true;
  write_buf = [];
  write_q = [];
  write_pending = false;
  submitted = [];
  closes = false;
}

-- The messages to the owner are built by the part after "socket" and the tag.
unfoldable pub socket_msg : Socket → Bytes → List Bytes → Bytes
socket_msg s what parms = report (codes "socket") s.tag what parms

unfoldable pub write_internal : Socket → Socket
write_internal s = record s { write_pending = true; submitted = s.write_buf }

unfoldable pub write : Bytes → Socket → Socket
unfolding write_internal
write buf s =
    if s.write_pending
    then record s { write_q = s.write_q ++ buf }
    else write_internal (record s { write_buf = buf ++ s.write_buf })

-- What is sent to the owner, and the socket.
unfoldable pub close_internal : Socket → Bytes × Socket
close_internal s = (
  socket_msg s (codes "closed") [],
  if s.is_open then record s { is_open = false; closes = true } else s,
)

-- What the owner does with the socket while it is called by `dispatch_sync`.
pub data Call : Type 0 where
  write_call : Bytes → Call
  close_call : Call

unfoldable pub call : List Call → Socket → Socket
unfolding write close_internal
call [] s = s
call (write_call b ∷ cs) s = call cs (write b s)
call (close_call ∷ cs) s = call cs (close_internal s).1

-- The end of `write_complete`, after the call of the owner.
unfoldable pub advance : ℕ → Socket → Socket
unfolding write_internal
advance len s =
    if ltb len (length s.write_buf)
    then write_internal (record s { write_pending = false; write_buf = drop len s.write_buf })
    else elim s.write_q [
      | [] ↦ record s { write_pending = false; write_buf = [] }
      | b ∷ bs ↦
          write_internal (record s { write_pending = false; write_buf = b ∷ bs; write_q = [] })
    ]

-- The executor has written `len` bytes. The owner is called, makes its calls `cs`, and answers `ok`
-- or not; the socket that it destroys in the call is not looked at any more.
unfoldable pub write_complete : ℕ → List Call → Bool → Socket → Socket
unfolding advance call
write_complete len cs ok s =
    let called = call cs s in advance len (if ok then called else (close_internal called).1)

-- The executor could not write.
unfoldable pub write_failed : List Call → Socket → Socket
unfolding call close_internal
write_failed cs s = (close_internal (call cs s)).1

-- The executor has read, or failed to. `none` for a callback that does nothing.
unfoldable pub read_msg : Option ErrorCode → Bytes → Socket → Option Bytes
read_msg none buf s = some (socket_msg s (codes "read_complete") (push_string buf ∷ []))
read_msg (some e) [] s =
    if int_eq e.value (pos 2)
    then some (socket_msg s (codes "read_complete") (push_string [] ∷ []))
    else if int_eq e.value (pos 125)
    then none
    else some (report_error (codes "socket") s.tag (codes "read_error") e)
read_msg (some e) (b ∷ bs) s =
    if int_eq e.value (pos 125)
    then none
    else some (report_error (codes "socket") s.tag (codes "read_error") e)

-- Whether the callback closes the socket: the owner's answer `ok` is read after `read_complete`.
unfoldable pub read_closes : Option ErrorCode → Bytes → Bool → Bool
read_closes none buf ok = if ok then false else true
read_closes (some e) [] ok =
    if int_eq e.value (pos 2) then (if ok then false else true) else int_eq e.value (pos 125)
read_closes (some e) (b ∷ bs) ok = int_eq e.value (pos 125)

unfoldable pub read_complete :
    Option ErrorCode → Bytes → List Call → Bool → Socket → Option Bytes × Socket
unfolding read_msg read_closes call close_internal
read_complete ec buf cs ok s =
    let m = read_msg ec buf s in
    let called : Socket = elim m [ none ↦ s | some _ ↦ call cs s ] in
    if s.is_open
    then (m, if read_closes ec buf ok then (close_internal called).1 else called)
    else (none, s)
