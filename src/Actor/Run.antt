-- ===== src/Actor/Run.antt =====
-- One activation of an instance: `run`, `handle_exit` and the destructor (src/instance.cpp), over
-- what the code of the actor does in it.
use thespian.Prelude.{
  ℕ, ◌-◌, ◌==◌, Bool, true, false, List, [], ◌∷◌, ◌++◌, Option, none, some, if◌then◌else◌, bytes_eq,
  suc,
}
use thespian.Prelude.Text.{codes}
use thespian.Cbor.Result.{Bytes, Result, ok, err, out_of_fuel, ◌>>=◌}
use thespian.Cbor.Kind.{Kind}
use thespian.Cbor.Json.Print.{Floats, to_json}
use thespian.Cbor.Match.{Extracted, is, extract_string, last, next, match_message}
use thespian.Actor.Messages.{
  exit_message, exit_normal_msg, exit_noreceive_msg, is_exit_msg, is_link_msg, what,
}
use thespian.Actor.State.{
  Called, ended, threw, hold, Outcome, returned, failed, thrown, thrown_unknown, Code, finish,
  observe_links, trap, Installed, init, empty, installed, Instance, Reason, reason,
  bad_exit_message, System, put, modify, with_instance,
}
use thespian.Actor.Send.{sent, refused, raised, send_raw, spawn, spawn_link, link, add_link}

-- What a send leaves to the code that made it.
abbrev pub error_of : Bytes → Option Bytes
error_of e = some e

-- A copy of `lifetime_` for a callback, which is null after the exit.
abbrev pub take_lifelock : Instance → Instance
take_lifelock i = record i { lifelocks = if i.lifetime then suc i.lifelocks else i.lifelocks }

-- The code of an activation of `me`, up to its end.
unfoldable pub exec : Code → ℕ → System → Outcome × System
exec (finish o) me s = (o, s)
exec (Code.send to m k) me s =
    let (r, s') = send_raw s (some me) to m in
    elim r [
      | sent ↦ exec (k none) me s'
      | refused e ↦ exec (k (some e)) me s'
      | raised w ↦ (thrown w, s')
    ]
exec (Code.receive r k) me s = exec k me (modify me (λ i. record i { receiver = installed r }) s)
exec (trap t k) me s =
    let old : Bool = elim (s.instances me) [ none ↦ false | some i ↦ i.trap_exit ] in
    exec (k old) me (modify me (λ i. record i { trap_exit = t }) s)
exec (observe_links o k) me s =
    let old : Bool = elim (s.instances me) [ none ↦ false | some i ↦ i.observes_links ] in
    exec (k old) me (modify me (λ i. record i { observes_links = o }) s)
exec (Code.link h k) me s =
    let (r, s') = link s me h in elim r [ raised w ↦ (thrown w, s') | _ ↦ exec k me s' ]
exec (Code.spawn b name k) me s =
    let (r, s') = spawn s (some me) b none name none in
    elim r [ none ↦ exec (k 0) me s' | some h ↦ exec (k h) me s' ]
exec (Code.spawn_link b name k) me s =
    let (r, s') = spawn_link s me b name in
    elim r [ none ↦ exec (k 0) me s' | some h ↦ exec (k h) me s' ]
exec (hold k) me s = exec k me (modify me take_lifelock s)

-- `for (const auto &h : links_) h.send_raw(m)`, the results unread.
unfoldable pub send_links : List ℕ → ℕ → Bytes → System → System
send_links [] me m s = s
send_links (h ∷ hs) me m s = let (_, s') = send_raw s (some me) h m in send_links hs me m s'

-- `to_json` throws for the same bytes whatever the library tells of a double; the text is not looked at.
abbrev pub no_text : Floats
no_text = record { is_finite = λ x. true; to_chars = λ x. [] }

-- What the exit handlers are called with: the second string of the message.
unfoldable pub exit_reason : Bytes → Result Reason
exit_reason m =
    elim (match_message (next (is Kind.string) (next extract_string (last (is Kind.more)))) m) [
      | ok (some (Extracted.text e ∷ [])) ↦ ok (reason e)
      | ok _ ↦ (do _ ← to_json no_text m; ok (bad_exit_message m))
      | err e ↦ err e
      | out_of_fuel ↦ out_of_fuel
    ]

-- The end of `handle_exit`: the receiver is moved out, and the instance gives up its own lifetime.
abbrev pub retire : Instance → Instance
retire i = record i { receiver = empty; lifetime = false }

-- The end of `handle_exit` is left out when an exit handler has thrown.
unfoldable pub after_handlers : ℕ → Called → System → Called × System
after_handlers me ended s = (ended, modify me retire s)
after_handlers me (threw w) s = (threw w, s)

-- The exit handlers, if there are any left.
unfoldable pub call_exit_handlers : ℕ → Bytes → Option (Reason → Called) → System → Called × System
unfolding after_handlers
call_exit_handlers me m none s = (ended, modify me retire s)
call_exit_handlers me m (some eh) s =
    let s' = modify me (λ i. record i { exit_handler = none }) s in
    elim (exit_reason m) [
      | ok r ↦ after_handlers me (eh r) (record s' { exits = (me, r) ∷ s'.exits })
      | err e ↦ (threw (some (what e)), s')
      | out_of_fuel ↦ (ended, s')
    ]

unfoldable pub handle_exit : ℕ → Bytes → System → Called × System
unfolding call_exit_handlers send_links
handle_exit me m s = elim (s.instances me) [
  | none ↦ (ended, s)
  | some i ↦
      let s' = send_links i.links me m (with_instance s me (record i { in_shutdown = true })) in
      call_exit_handlers me m i.exit_handler s'
]

abbrev pub unhandled : Bytes → Bytes
unhandled w = exit_message (codes "UNHANDLED_EXCEPTION: " ++ w) []

-- The message that the `catch` clauses of `run` exit with.
unfoldable pub unhandled_msg : Option Bytes → Bytes
unhandled_msg none = exit_message (codes "UNHANDLED_EXCEPTION") []
unhandled_msg (some w) = unhandled w

-- `handle_exit` in a `catch` clause of `run`. An exception here leaves `run` and ends the program.
unfoldable pub exit_caught : ℕ → Option Bytes → System → System
unfolding handle_exit unhandled_msg
exit_caught me w s = (handle_exit me (unhandled_msg w) s).1

-- `handle_exit` inside the `try` of `run`: an exception leads to a second call of it.
unfoldable pub exit_with : ℕ → Bytes → System → System
unfolding handle_exit exit_caught
exit_with me m s =
    let (t, s') = handle_exit me m s in elim t [ ended ↦ s' | threw w ↦ exit_caught me w s' ]

-- Call the receiver.
unfoldable pub activate : ℕ → ℕ → Bytes → Installed → System → Outcome × System
unfolding exec
activate me from m (init b) s = exec b me (modify me (λ i. record i { receiver = empty }) s)
activate me from m empty s = (thrown (codes "bad_function_call"), s)
activate me from m (installed r) s = exec (r from m) me s

-- `!receiver_`
unfoldable pub has_receiver : Installed → Bool
has_receiver (init b) = true
has_receiver empty = false
has_receiver (installed r) = true

-- What follows the call of the receiver.
unfoldable pub conclude : ℕ → Outcome → System → System
unfolding exit_with exit_caught has_receiver
conclude me returned s = elim (s.instances me) [
  | none ↦ s
  | some i ↦ if has_receiver i.receiver then s else exit_with me exit_noreceive_msg s
]
conclude me (failed e) s = exit_with me e s
conclude me (thrown w) s = exit_caught me (some w) s
conclude me thrown_unknown s = exit_caught me none s

-- The `try` block of `run`, for an instance that is not in shutdown.
unfoldable pub deliver : ℕ → ℕ → Bytes → Instance → System → System
unfolding activate conclude
deliver me from m i s =
    let to_receiver = (let (o, s') = activate me from m i.receiver s in conclude me o s') in
    if i.trap_exit then to_receiver else elim (is_exit_msg m) [
      | ok true ↦ if bytes_eq m exit_normal_msg then s else exit_with me m s
      | ok false ↦ to_receiver
      | err e ↦ exit_caught me (some (what e)) s
      | out_of_fuel ↦ s
    ]

-- `run(from, m)` on the instance `me`.
unfoldable pub run : ℕ → ℕ → Bytes → Instance → System → System
unfolding deliver
run me from m i s =
    if is_link_msg m
    then (let i' = add_link from i in
        let s' = with_instance s me i' in
        if i.observes_links then (if i.in_shutdown then s' else deliver me from m i' s') else s')
    else if i.in_shutdown
    then s
    else deliver me from m i s

-- The last reference is dropped: the destructor of the instance.
unfoldable pub destroy : ℕ → System → System
destroy me s = record s {
  instances = put s.instances me none;
  active = s.active - 1;
  last_exits = if s.active == 1 then suc s.last_exits else s.last_exits;
}

-- An instance lives as long as its `lifetime_`, a callback or a task that is posted to it holds it.
unfoldable pub settle : ℕ → System → System
unfolding destroy
settle me s = elim (s.instances me) [
  | none ↦ s
  | some i ↦
      if i.lifetime
      then s
      else if i.lifelocks == 0
      then elim i.mailbox [ [] ↦ destroy me s | _ ∷ _ ↦ s ]
      else s
]

-- A callback of `me` is done and drops its copy of `lifetime_`.
unfoldable pub release : ℕ → System → System
unfolding settle
release me s = settle me (modify me (λ i. record i { lifelocks = i.lifelocks - 1 }) s)

-- The strand of `me` runs its oldest task.
unfoldable pub step : ℕ → System → System
unfolding run settle
step me s = elim (s.instances me) [
  | none ↦ s
  | some i ↦ elim i.mailbox [
    | [] ↦ s
    | t ∷ rest ↦
        let i' = record i { mailbox = rest } in
        settle me (run me t.from t.msg i' (with_instance s me i'))
  ]
]
