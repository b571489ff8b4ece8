-- ===== src/Device/Unx.antt =====
-- `unx::acceptor_impl` and `unx::connector_impl`: sockets of the unix domain, and the files that they
-- leave in the file system.
use thespian.Prelude.{Bool, true, false, List, [], ◌∷◌, ◌++◌, Option, none, some, if◌then◌else◌}
use thespian.Prelude.Int.{ℤ}
use thespian.Prelude.Text.{codes}
use thespian.Cbor.Result.{Bytes}
use thespian.Cbor.Buffer.{push_int}
use thespian.Device.Report.{ErrorCode, report, report_error}

pub data Mode : Type 0 where
  abstract : Mode
  file : Mode

-- The path in the name space of the mode: an abstract path begins with a zero byte.
unfoldable pub unx_mode_path : Mode → Bytes → Bytes
unx_mode_path file path = path
unx_mode_path abstract path = 0 ∷ path

pub record UnxAcceptor : Type 0 where
  pub tag : Bytes
  pub path : Bytes
  pub is_open : Bool

-- Messages to the owner, and calls of the operating system and the executor.
pub data Effect : Type 0 where
  to_owner : Bytes → Effect
  remove_file : Bytes → Effect
  restrict_to_owner : Bytes → Effect
  start_accept : Effect
  close_socket : Effect

unfoldable pub create_unx_acceptor : Bytes → UnxAcceptor
create_unx_acceptor tag = record { tag = tag; path = []; is_open = false }

abbrev error_report : UnxAcceptor → ErrorCode → Effect
error_report a e = to_owner (report_error (codes "acceptor") a.tag (codes "error") e)

-- After the bind: a file is remembered and restricted, and then the socket listens.
unfoldable pub listen_bound :
    Mode → Bytes → Option ErrorCode → UnxAcceptor → UnxAcceptor × List Effect
listen_bound abstract path none a = (record a { is_open = true }, start_accept ∷ [])
listen_bound abstract path (some e) a = (a, error_report a e ∷ [])
listen_bound file path none a =
    (record a { path = path; is_open = true }, restrict_to_owner path ∷ start_accept ∷ [])
listen_bound file path (some e) a =
    (record a { path = path }, restrict_to_owner path ∷ error_report a e ∷ [])

-- Whether the path is a stale socket, and what `bind` and `listen` answer, is the system's.
unfoldable pub listen_unx :
    Bool
    → Option ErrorCode
    → Option ErrorCode
    → Bytes
    → Mode
    → UnxAcceptor
    → UnxAcceptor × List Effect
unfolding unx_mode_path listen_bound
listen_unx stale bind_error listen_error origpath m a =
    let path = unx_mode_path m origpath in
    let removed : List Effect = elim m [
      | file ↦ if stale then remove_file path ∷ [] else []
      | abstract ↦ []
    ] in
    elim bind_error as (λ _. UnxAcceptor × List Effect) [
      | some e ↦ (a, removed ++ (error_report a e ∷ []))
      | none ↦ let (a', es) = listen_bound m path listen_error a in (a', removed ++ es)
    ]

-- The file at the path of the acceptor, if there is one, is removed.
unfoldable pub release : Bytes → UnxAcceptor → UnxAcceptor × List Effect
release [] a = (a, [])
release (c ∷ cs) a = (record a { path = [] }, remove_file (c ∷ cs) ∷ [])

unfoldable pub release_path : UnxAcceptor → UnxAcceptor × List Effect
unfolding release
release_path a = release a.path a

unfoldable pub close_unx : UnxAcceptor → UnxAcceptor × List Effect
unfolding release_path
close_unx a =
    let (a', es) = release_path a in
    (
      record a' { is_open = false },
      close_socket ∷ (es ++ (to_owner (report (codes "acceptor") a.tag (codes "closed") []) ∷ [])),
    )

-- The destructor.
unfoldable pub destroy_unx : UnxAcceptor → List Effect
unfolding release_path
destroy_unx a = close_socket ∷ (release_path a).1

-- What the owner does with the acceptor while a callback calls it.
pub data Use : Type 0 where
  leaves : Use
  shuts : Use
  drops : Use

-- With `none` the acceptor is destroyed, and `alive` has expired.
unfoldable pub used : Use → UnxAcceptor → Option UnxAcceptor × List Effect
unfolding close_unx destroy_unx
used leaves a = (some a, [])
used shuts a = let (a', es) = close_unx a in (some a', es)
used drops a = (none, destroy_unx a)

-- After the owner was told of a descriptor, which it has accepted or refused.
unfoldable pub told_unx : Bool → Option UnxAcceptor → Option UnxAcceptor × List Effect
unfolding close_unx
told_unx ok none = (none, [])
told_unx true (some a) = (some a, start_accept ∷ [])
told_unx false (some a) = let (a', es) = close_unx a in (some a', es)

-- The callback of `start_accept` of an open acceptor.
unfoldable pub accepted_unx :
    ℤ → Option ErrorCode → Use → Bool → UnxAcceptor → Option UnxAcceptor × List Effect
unfolding used told_unx
accepted_unx fd (some e) u ok a = let (r, es) = used u a in (r, error_report a e ∷ es)
accepted_unx fd none u ok a =
    let msg = to_owner (report (codes "acceptor") a.tag (codes "accept") (push_int fd ∷ [])) in
    let (r, es) = used u a in let (r', es') = told_unx ok r in (r', msg ∷ (es ++ es'))

unfoldable pub accept_unx :
    ℤ → Option ErrorCode → Use → Bool → UnxAcceptor → Option UnxAcceptor × List Effect
unfolding accepted_unx
accept_unx fd ec u ok a = let r = accepted_unx fd ec u ok a in if a.is_open then r else (some a, [])

pub record UnxConnector : Type 0 where
  pub tag : Bytes
  pub is_open : Bool

unfoldable pub cancel_unx : UnxConnector → UnxConnector × List Effect
cancel_unx c = (
  record c { is_open = false },
  close_socket ∷ to_owner (report (codes "connector") c.tag (codes "cancelled") []) ∷ [],
)

-- The callback of `connect`; the last effect closes the descriptor that was released.
unfoldable pub connected_unx :
    ℤ → Option ErrorCode → Bool → UnxConnector → UnxConnector × List Effect
unfolding cancel_unx
connected_unx fd (some e) ok c = (
  c,
  if c.is_open
      then to_owner (report_error (codes "connector") c.tag (codes "error") e) ∷ []
      else [],
)
connected_unx fd none ok c =
    let msg = to_owner (report (codes "connector") c.tag (codes "connected") (push_int fd ∷ [])) in
    let (c', es) = cancel_unx c in
    if c.is_open
    then (if ok then (c, msg ∷ []) else (c', msg ∷ (es ++ (close_socket ∷ []))))
    else (c, [])

-- What happens to an acceptor between the end of its one `listen` and its destruction.
pub data Event : Type 0 where
  accepts : ℤ → Option ErrorCode → Use → Bool → Event
  closes : Event

-- Nothing more happens to an acceptor that was destroyed.
abbrev pub live_on : (UnxAcceptor → List Effect) → Option UnxAcceptor → List Effect
live_on rest none = []
live_on rest (some a) = rest a

unfoldable pub live : List Event → UnxAcceptor → List Effect
unfolding accept_unx close_unx destroy_unx
live [] a = destroy_unx a
live (accepts fd ec u ok ∷ vs) a =
    let (r, es) = accept_unx fd ec u ok a in es ++ live_on (λ a'. live vs a') r
live (closes ∷ vs) a = let (a', es) = close_unx a in es ++ live vs a'
