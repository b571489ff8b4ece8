-- ===== src/Device/Descriptor.antt =====
-- `file_descriptor_impl`, `file_stream_impl` and `udp_impl`: what their callbacks send to the owner.
use thespian.Prelude.{ℕ, Bool, true, false, List, [], ◌∷◌, Option, none, some, if◌then◌else◌}
use thespian.Prelude.Text.{codes}
use thespian.Cbor.Result.{Bytes}
use thespian.Cbor.Buffer.{push_string, push_uint}
use thespian.Device.Report.{ErrorCode, report, report_error}

-- The callback of `wait_write`, and that of `wait_read`.
unfoldable pub write_ready : Bytes → Option ErrorCode → Bytes
write_ready tag none = report (codes "fd") tag (codes "write_ready") []
write_ready tag (some e) = report_error (codes "fd") tag (codes "write_error") e

unfoldable pub read_ready : Bytes → Option ErrorCode → Bytes
read_ready tag none = report (codes "fd") tag (codes "read_ready") []
read_ready tag (some e) = report_error (codes "fd") tag (codes "read_error") e

-- The callbacks of `start_read` and of `start_write`.
unfoldable pub stream_read : Bytes → Option ErrorCode → Bytes → Bytes
stream_read tag none payload =
    report (codes "stream") tag (codes "read_complete") (push_string payload ∷ [])
stream_read tag (some e) payload = report_error (codes "stream") tag (codes "read_error") e

unfoldable pub stream_written : Bytes → Option ErrorCode → ℕ → Bytes
stream_written tag none n = report (codes "stream") tag (codes "write_complete") (push_uint n ∷ [])
stream_written tag (some e) n = report_error (codes "stream") tag (codes "write_error") e

-- `receiving` is a receive that the executor was asked for.
pub record Udp : Type 0 where
  pub tag : Bytes
  pub is_open : Bool
  pub receiving : Bool

-- `bind` answers with an error or not.
unfoldable pub open_udp : Option ErrorCode → Udp → Option Bytes × Udp
open_udp none u = (none, record u { is_open = true; receiving = true })
open_udp (some e) u = (some (report_error (codes "udp") u.tag (codes "open_error") e), u)

-- The callback of `do_receive`: an error or none, the bytes, and what is pushed for the remote
-- address and port. The receive that was asked for is over.
unfoldable pub receive_udp : Option ErrorCode → Bytes → List Bytes → Udp → Option Bytes × Udp
receive_udp ec [] remote u = (none, record u { receiving = false })
receive_udp none (b ∷ bs) remote u =
    if u.is_open
    then (
      some (report (codes "udp") u.tag (codes "receive") (push_string (b ∷ bs) ∷ remote)),
      record u { receiving = true },
    )
    else (none, record u { receiving = false })
receive_udp (some e) (b ∷ bs) remote u =
    if u.is_open
    then (
      some (report_error (codes "udp") u.tag (codes "receive_error") e),
      record u { receiving = false },
    )
    else (none, record u { receiving = false })

unfoldable pub close_udp : Udp → Bytes × Udp
close_udp u = (report (codes "udp") u.tag (codes "closed") [], record u { is_open = false })
