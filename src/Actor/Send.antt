-- ===== src/Actor/Send.antt =====
-- Sending and spawning: `queue`, `deadsend`, `handle::send_raw`, `instance::spawn`, `spawn_link` and
-- `link` of src/instance.cpp. `me` is `current_instance`, `none` outside every activation.
use thespian.Prelude.{ℕ, suc, true, false, [], ◌∷◌, ◌++◌, Option, none, some, if◌then◌else◌}
use thespian.Prelude.Text.{codes}
use thespian.Cbor.Result.{Bytes, ok, err, out_of_fuel}
use thespian.Actor.Messages.{exit_message, link_msg, null_value, is_any_exit, ref_m, what}
use thespian.Actor.State.{
  Called, Reason, Code, Installed, Instance, System, put, with_instance, modify,
}

-- What a send answers: ok, an error, or an exception that it throws.
pub data Sent : Type 0 where
  sent : Sent
  refused : Bytes → Sent
  raised : Bytes → Sent

-- `ref_m(r)`, for a ref that may be expired.
unfoldable pub pid : System → ℕ → Bytes
pid s id = elim (s.instances id) [ none ↦ ref_m 0 (codes "none") | some i ↦ ref_m id i.name ]

-- The branch of `deadsend` where an actor runs that is not itself in shutdown.
unfoldable pub dead_letter : System → ℕ → Bytes → ℕ → Sent
dead_letter s me m from = elim (is_any_exit m) [
  | ok true ↦ sent
  | ok false ↦ refused (exit_message (codes "DEADSEND") (m ∷ pid s from ∷ pid s me ∷ []))
  | err e ↦ raised (what e)
  | out_of_fuel ↦ sent
]

unfoldable pub deadsend : System → Option ℕ → Bytes → ℕ → Sent
unfolding dead_letter
deadsend s none m from = sent
deadsend s (some me) m from = elim (s.instances me) [
  | none ↦ sent
  | some i ↦ if i.in_shutdown then sent else dead_letter s me m from
]

-- Post `run(from, m)` to the strand of `p`.
abbrev pub post : ℕ → Bytes → Instance → Instance
post from m p = record p { mailbox = p.mailbox ++ (record { from = from; msg = m } ∷ []) }

-- `p->queue(from, m)`, for an object `p` that is alive under `id`.
unfoldable pub queue : System → Option ℕ → ℕ → Instance → ℕ → Bytes → Sent × System
queue s me id p from m =
    if p.in_shutdown then (deadsend s me m from, s) else (sent, with_instance s id (post from m p))

-- The sender that a receiver sees: `current_instance->self_ref_`, or a null handle.
abbrev pub sender : Option ℕ → ℕ
sender none = 0
sender (some me) = me

-- `handle::send_raw(m)`.
unfoldable pub send_raw : System → Option ℕ → ℕ → Bytes → Sent × System
unfolding queue deadsend
send_raw s me to m = elim (s.instances to) [
  | none ↦ (deadsend s me m to, s)
  | some p ↦ queue s me to p (sender me) m
]

abbrev pub fresh : Code → Bytes → Option (Reason → Called) → Instance
fresh behaviour name eh = record {
  name = name;
  receiver = Installed.init behaviour;
  exit_handler = eh;
  trap_exit = false;
  observes_links = false;
  in_shutdown = false;
  links = [];
  lifetime = true;
  lifelocks = 0;
  mailbox = [];
}

-- The constructor, and the entry in the table of instances.
abbrev pub construct : System → Instance → System
construct s i = record s {
  instances = put s.instances s.next_id (some i);
  next_id = suc s.next_id;
  active = suc s.active;
}

-- The end of `spawn`: schedule the activation in which the behaviour runs.
unfoldable pub schedule : System → Option ℕ → ℕ → Option ℕ × System
unfolding queue
schedule s me id = elim (s.instances id) [
  | none ↦ (none, s)
  | some p ↦
      let (r, s') = queue s me id p 0 null_value in elim r [ sent ↦ (some id, s') | _ ↦ (none, s') ]
]

-- `instance::spawn`. `linked` is the ref `link`, if it is not expired.
unfoldable pub spawn :
    System → Option ℕ → Code → Option (Reason → Called) → Bytes → Option ℕ → Option ℕ × System
unfolding schedule
spawn s me behaviour eh name linked =
    let p = fresh behaviour name eh in
    let id = s.next_id in
    let s₁ = construct s p in
    elim linked [
      | none ↦ schedule s₁ me id
      | some l ↦
          let (r, s₂) = queue s₁ me id p l link_msg in
          elim r [ sent ↦ schedule s₂ me id | _ ↦ (none, s₂) ]
    ]

abbrev pub add_link : ℕ → Instance → Instance
add_link h i = record i { links = h ∷ i.links }

-- `instance::spawn_link` of the instance `me`: its `lifetime_` is the ref that is linked.
unfoldable pub spawn_link : System → ℕ → Code → Bytes → Option ℕ × System
unfolding spawn
spawn_link s me behaviour name =
    let linked : Option ℕ = elim (s.instances me) [
      | none ↦ none
      | some i ↦ if i.lifetime then some me else none
    ] in
    let (r, s') = spawn s (some me) behaviour none name linked in
    elim r [ none ↦ (none, s') | some h ↦ (some h, modify me (add_link h) s') ]

-- `instance::link` of the instance `me`; the free function `link` drops the result.
unfoldable pub link : System → ℕ → ℕ → Sent × System
unfolding send_raw
link s me h =
    let (r, s') = send_raw s (some me) h link_msg in
    elim r [ sent ↦ (sent, modify me (add_link h) s') | other ↦ (other, s') ]
