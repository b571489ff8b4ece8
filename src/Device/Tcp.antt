-- ===== src/Device/Tcp.antt =====
-- `tcp::acceptor_impl` and `tcp::connector_impl`. Each operation gives what it sends to the owner, in
-- order, and the object after it; the ports and descriptors are the executor's.
use thespian.Prelude.{ℕ, Bool, true, false, List, [], ◌∷◌, ◌++◌, Option, none, some, if◌then◌else◌}
use thespian.Prelude.Text.{codes}
use thespian.Prelude.Int.{ℤ}
use thespian.Cbor.Result.{Bytes}
use thespian.Cbor.Buffer.{push_int}
use thespian.Device.Report.{ErrorCode, report, report_error}

-- `accepting` is an accept that the executor was asked for.
pub record Acceptor : Type 0 where
  pub tag : Bytes
  pub is_open : Bool
  pub accepting : Bool

-- `bind` and `listen` of the executor answer with an error or not, and `port` is what it bound.
unfoldable pub listen :
    Option ErrorCode → Option ErrorCode → ℕ → Acceptor → ℕ × List Bytes × Acceptor
listen (some e) err port a = (0, report_error (codes "acceptor") a.tag (codes "error") e ∷ [], a)
listen none (some e) port a = (0, report_error (codes "acceptor") a.tag (codes "error") e ∷ [], a)
listen none none port a = (port, [], record a { is_open = true; accepting = true })

unfoldable pub close : Acceptor → List Bytes × Acceptor
close a = (report (codes "acceptor") a.tag (codes "closed") [] ∷ [], record a { is_open = false })

-- What the owner does when it is called: nothing, a close of the acceptor, or its destruction.
pub data Owner : Type 0 where
  keeps : Owner
  closes : Owner
  destroys : Owner

abbrev owner_call : Owner → Acceptor → List Bytes × Acceptor
owner_call closes a = close a
owner_call _ a = ([], a)

-- The callback of `start_accept`, with a descriptor or an error. The owner answers `ok` or not.
unfoldable pub accept : ℤ → Option ErrorCode → Owner → Bool → Acceptor → List Bytes × Acceptor
unfolding close
accept fd (some e) o ok a =
    let a' = record a { accepting = false } in
    let (sent, called) = owner_call o a' in
    if a.is_open
    then (report_error (codes "acceptor") a.tag (codes "error") e ∷ sent, called)
    else ([], a')
accept fd none o ok a =
    let a' = record a { accepting = false } in
    let msg = report (codes "acceptor") a.tag (codes "accept") (push_int fd ∷ []) in
    let (sent, called) = owner_call o a' in
    let (last, shut) = close called in
    let after : List Bytes × Acceptor = elim o [
      | destroys ↦ (msg ∷ [], a')
      | _ ↦
          if ok
          then (msg ∷ sent, record called { accepting = true })
          else (msg ∷ (sent ++ last), shut)
    ] in
    if a.is_open then after else ([], a')

pub record Connector : Type 0 where
  pub tag : Bytes
  pub is_open : Bool
  pub connecting : Bool

-- `bind` of the executor answers with an error or not.
unfoldable pub connect : Option ErrorCode → Connector → List Bytes × Connector
connect (some e) c =
    (report_error (codes "connector") c.tag (codes "error") e ∷ [], record c { is_open = true })
connect none c = ([], record c { is_open = true; connecting = true })

unfoldable pub cancel : Connector → List Bytes × Connector
cancel c =
    (report (codes "connector") c.tag (codes "cancelled") [] ∷ [], record c { is_open = false })

-- The callback of `connect`, for an owner that does not use the connector when it is called.
unfoldable pub connected : ℤ → Option ErrorCode → Bool → Connector → List Bytes × Connector
unfolding cancel
connected fd ec ok c =
    let c' = record c { connecting = false } in
    let msg = report (codes "connector") c.tag (codes "connected") (push_int fd ∷ []) in
    let (last, cancelled) = cancel c' in
    let after : List Bytes × Connector = elim ec [
      | some e ↦ (report_error (codes "connector") c.tag (codes "error") e ∷ [], c')
      | none ↦ if ok then (msg ∷ [], c') else (msg ∷ last, cancelled)
    ] in
    if c.is_open then after else ([], c')
