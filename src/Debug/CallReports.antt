-- ===== src/Debug/CallReports.antt =====
-- What a debug connection is told of a call, over all messages that come to its `call_proxy`.
use thespian.Prelude.{
  ℕ, Bool, true, false, List, [], ◌∷◌, ◌++◌, Option, none, some, if◌then◌else◌, bytes_eq,
}
use thespian.Cbor.Result.{Bytes, Result, ok, err, out_of_fuel}
use thespian.Cbor.Match.{Extracted, match_message}
use thespian.Cbor.Dispatch.{only}
use thespian.Actor.Messages.{is_link_msg, is_exit_msg, exit_normal_msg}
use thespian.Actor.Send.{Sent, sent}
use thespian.Debug.CallProxy.{
  CallProxy, Effect, to_connection, cancel_timeout, Ending, returned, answered, timeout_report,
  reply_report, receive,
}

-- What the connection is told.
abbrev pub told : List Effect → List Bytes
told [] = []
told (to_connection m ∷ es) = m ∷ told es
told (cancel_timeout ∷ es) = told es

-- Whether the actor takes another message.
abbrev goes_on : Ending → Bool
goes_on returned = true
goes_on (answered sent) = true
goes_on _ = false

abbrev next : Bool → List Bytes → List Bytes
next true ms = ms
next false ms = []

-- What the connection is told over the messages that come to the proxy, each with the name of its
-- sender. `run` takes link and exit messages, and any exit but "normal" ends the actor.
unfoldable pub reports : Sent → List (Bytes × Bytes) → CallProxy → List Bytes
unfolding receive
reports answer [] p = []
reports answer ((name, m) ∷ ms) p =
    let a = receive answer name m p in
    let unchanged = reports answer ms p in
    let later = reports answer ms a.proxy in
    if is_link_msg m then unchanged else elim (is_exit_msg m) [
      | ok true ↦ if bytes_eq m exit_normal_msg then unchanged else []
      | ok false ↦ told a.effects ++ next (goes_on a.ending) later
      | err e ↦ []
      | out_of_fuel ↦ []
    ]

-- The report of a message that is read.
abbrev pub report_of : ℕ → Bytes × Bytes → Result (Option (List Extracted)) → List Bytes
report_of seq (name, m) (ok (some xs)) = timeout_report seq ∷ []
report_of seq (name, m) (ok none) = reply_report seq name m ∷ []
report_of seq (name, m) (err e) = []
report_of seq (name, m) out_of_fuel = []

-- The report of a call, which the first message decides that `run` hands to the proxy.
unfoldable pub first_report : ℕ → List (Bytes × Bytes) → List Bytes
first_report seq [] = []
first_report seq ((name, m) ∷ ms) =
    let later = first_report seq ms in
    if is_link_msg m then later else elim (is_exit_msg m) [
      | ok true ↦ if bytes_eq m exit_normal_msg then later else []
      | ok false ↦ report_of seq (name, m) (match_message (only "debug_call_timeout") m)
      | err e ↦ []
      | out_of_fuel ↦ []
    ]

-- What `run` makes of a message, over what follows a message that it drops, and what the receiver tells.
abbrev by_run : Bool → Result Bool → Bool → List Bytes → List Bytes → List Bytes
by_run link exit normal later told_now = if link then later else elim exit [
  | ok true ↦ if normal then later else []
  | ok false ↦ told_now
  | err e ↦ []
  | out_of_fuel ↦ []
]
