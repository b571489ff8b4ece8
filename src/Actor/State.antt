-- ===== src/Actor/State.antt =====
-- The state of the runtime: the instances that are alive, each with the tasks that are posted to its
-- strand, and what the environment sees of exits.
use thespian.Prelude.{ℕ, Bool, List, Option, none, some, ◌==◌, if◌then◌else◌}
use thespian.Cbor.Result.{Bytes}

-- How a receiver, a behaviour or the code that it calls ends.
pub data Outcome : Type 0 where
  returned : Outcome
  failed : Bytes → Outcome
  thrown : Bytes → Outcome
  thrown_unknown : Outcome

-- What user code does in one activation: calls of the runtime, each with the rest of the code over
-- its result, and an end. A call that returns a `result` gives `none` for ok and `some error`. The
-- code of a receiver that is installed, and of a behaviour that is spawned, is part of the call. `hold`
-- starts an operation of a timer, signal, metronome, socket or descriptor, whose callback has a copy of
-- `lifetime_`.
pub data Code : Type 0 where
  finish : Outcome → Code
  send : ℕ → Bytes → (Option Bytes → Code) → Code
  receive : (ℕ → Bytes → Code) → Code → Code
  trap : Bool → (Bool → Code) → Code
  observe_links : Bool → (Bool → Code) → Code
  link : ℕ → Code → Code
  spawn : Code → Bytes → (ℕ → Code) → Code
  spawn_link : Code → Bytes → (ℕ → Code) → Code
  hold : Code → Code

-- `receiver`: the sender's id (0 for a null handle) and the message.
abbrev pub Receiver : Type 0
Receiver = ℕ → Bytes → Code

-- A task that `queue` posts: `run(from, m)`.
pub record Task : Type 0 where
  pub from : ℕ
  pub msg : Bytes

-- `init` is the receiver that the constructor sets: it empties itself and calls the behaviour.
pub data Installed : Type 0 where
  init : Code → Installed
  empty : Installed
  installed : Receiver → Installed

-- What an exit handler is called with. For a message that is not of the form of an exit message it
-- is a text that ends in the JSON of that message.
pub data Reason : Type 0 where
  reason : Bytes → Reason
  bad_exit_message : Bytes → Reason

-- How the call of the exit handlers ends: an exception has a text if it is a `std::exception`.
pub data Called : Type 0 where
  ended : Called
  threw : Option Bytes → Called

-- `mailbox` holds the tasks posted to the strand, oldest first. Each of them holds a `lifelock`, and so
-- does each callback of an operation that is not complete: `lifelocks` counts these callbacks.
pub record Instance : Type 0 where
  pub name : Bytes
  pub receiver : Installed
  pub exit_handler : Option (Reason → Called)
  pub trap_exit : Bool
  pub observes_links : Bool
  pub in_shutdown : Bool
  pub links : List ℕ
  pub lifetime : Bool
  pub lifelocks : ℕ
  pub mailbox : List Task

-- `instances` has the objects that are alive: a `ref` to an id can be locked when there is one.
-- `exits` logs the calls of exit handlers, newest first; `last_exits` counts those of `last_exit`.
pub record System : Type 0 where
  pub instances : ℕ → Option Instance
  pub next_id : ℕ
  pub active : ℕ
  pub exits : List (ℕ × Reason)
  pub last_exits : ℕ

abbrev pub put : (ℕ → Option Instance) → ℕ → Option Instance → ℕ → Option Instance
put m id i j = if j == id then i else m j

abbrev pub with_instance : System → ℕ → Instance → System
with_instance s id i = record s { instances = put s.instances id (some i) }

-- Change an instance that is alive.
unfoldable pub modify : ℕ → (Instance → Instance) → System → System
modify id f s = elim (s.instances id) [ none ↦ s | some i ↦ with_instance s id (f i) ]
