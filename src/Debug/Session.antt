-- ===== src/Debug/Session.antt =====
-- The state of a debug connection (`connection` of src/instance.cpp), what it writes, and its text commands.
use thespian.Prelude.{
  ℕ, Bool, true, false, not, ◌&&◌, ◌||◌, List, [], ◌∷◌, ◌++◌, Option, none, some, if◌then◌else◌,
  bytes_eq, length, ◌/◌, ◌==◌,
}
use thespian.Prelude.Int.{ℤ}
use thespian.Prelude.Text.{codes}
use thespian.Cbor.Result.{Bytes, ok, err, out_of_fuel}
use thespian.Cbor.Buffer.{map_header}
use thespian.Cbor.Json.Parse.{Outcome, push_json}
use thespian.Cbor.Json.Print.{Floats, to_json}
use thespian.Cbor.Json.Number.{decimal}
use thespian.Actor.Messages.{concat, what}
use thespian.Actor.Send.{Sent, sent, refused, raised}
use thespian.Debug.Registry.{Registry, unregister_instance, get_name}
use thespian.Debug.Taps.{Taps, tap_add, tap_remove}
use thespian.Debug.Commands.{getword}
use thespian.Debug.Unwritten.{Writer}
use thespian.Debug.Unwritten

-- The connection, with the registry and the taps of its context. `self` is the id of its actor.
pub record Session : Type 0 where
  pub prompt : Bytes
  pub self : ℕ
  pub prev_buf : Bytes
  pub json_mode : Bool
  pub writer : Writer
  pub next_call : ℕ
  pub pending_calls : List (ℕ × Bytes)
  pub registry : Registry
  pub taps : Taps

-- What the connection meets: which handles are expired, their names, what a send to one answers, the
-- error of `spawn_link` if it has one, the conversions of floats, and where a text that is no JSON goes
-- wrong.
pub record World : Type 0 where
  pub expired : ℕ → Bool
  pub instance_name : ℕ → Bytes
  pub answer : ℕ → Bytes → Sent
  pub spawn_error : Option Bytes
  pub from_chars : Bytes → Option ℕ
  pub floats : Floats
  pub position : Bytes → ℕ

-- What it does. `replies id line` is `write_line(line)` as the answer to the command `id`. `sends` is a
-- message that is queued, and `starts` a call that is started, with its number and its time.
pub data Effect : Type 0 where
  writes : Bytes → Effect
  replies : Bytes → Bytes → Effect
  sends : ℕ → Bytes → Effect
  starts : ℕ → ℕ → Bytes → Option ℤ → Effect
  to_self : Bytes → Effect
  read_socket : Effect
  close_socket : Effect

-- How a handler ends: it returns true, or false for `bye`; a `domain_error` or an `out_of_range` leaves
-- it; the actor exits with a message; or the decoders run out of fuel.
pub data Ending : Type 0 where
  goes_on : Ending
  says_bye : Ending
  throws : Bytes → Ending
  throws_range : Ending
  exits : Bytes → Ending
  stuck : Ending

pub record Activation : Type 0 where
  pub session : Session
  pub effects : List Effect
  pub ending : Ending

-- A null handle is 0.
abbrev pub is_expired : World → ℕ → Bool
is_expired w h = h == 0 || w.expired h

abbrev pub live : World → ℕ → Bool
live w h = not (w.expired h)

-- The `cbor::map(parms...)` of parameters that are given by what `push` appends for them.
unfoldable pub object : List Bytes → Bytes
object parms = map_header (length parms / 2) ++ concat parms

abbrev pub newline : Bytes
newline = 10 ∷ []

-- The bytes that a handler has written are unwritten.
unfoldable pub counted : List Effect → Writer → Writer
counted [] v = v
counted (writes d ∷ es) v = counted es (Unwritten.write d v)
counted (replies id line ∷ es) v = counted es (Unwritten.write newline (Unwritten.write line v))
counted (sends h m ∷ es) v = counted es v
counted (starts seq h m t ∷ es) v = counted es v
counted (to_self line ∷ es) v = counted es v
counted (read_socket ∷ es) v = counted es v
counted (close_socket ∷ es) v = counted es v

-- The end of a handler.
unfoldable pub finish : Session → List Effect → Ending → Activation
unfolding counted
finish s es e = record {
  session = record s { writer = counted es s.writer };
  effects = es;
  ending = e;
}

-- The error of `push_json`.
unfoldable pub invalid_json : World → Bytes → Bytes
invalid_json w s =
    codes "invalid json value at pos " ++ (decimal (w.position s) ++ (codes " in: " ++ s))

-- `debug_`, the prefix of the names that cannot be tapped.
unfoldable pub starts_with : Bytes → Bytes → Bool
starts_with [] s = true
starts_with (p ∷ ps) [] = false
starts_with (p ∷ ps) (c ∷ cs) = p == c && starts_with ps cs

-- `tap(name)`: an error message, or nothing.
unfoldable pub tap : World → Bytes → Session → Option Bytes × Session
unfolding starts_with
tap w name s =
    if starts_with (codes "debug_") name
    then (some (codes "cannot tap debug interface actors"), s)
    else (none, record s { taps = tap_add (live w) name s.self s.taps })

abbrev pub untap : World → Bytes → Session → Bool × Session
untap w name s =
    let (found, t) = tap_remove (live w) name s.self s.taps in (found, record s { taps = t })

-- The names on one line, with a blank between two.
unfoldable pub name_list : World → Bool → List (Bytes × ℕ) → List Effect
name_list w first [] = []
name_list w first ((n, h) ∷ r) =
    let others = name_list w false r in
    let rest = name_list w first r in
    if is_expired w h
    then rest
    else if first
    then writes n ∷ others
    else writes (codes " ") ∷ writes n ∷ others

unfoldable pub unregister_expired : World → List (Bytes × ℕ) → Registry → Registry
unregister_expired w [] g = g
unregister_expired w ((n, h) ∷ r) g =
    unregister_expired w r (if is_expired w h then unregister_instance n g else g)

abbrev pub write_error : Bytes → List Effect
write_error e = writes (codes "error: ") ∷ writes e ∷ writes newline ∷ []

-- What the text behind the name of an actor does; a refusal that cannot be printed is caught too.
unfoldable pub send_text : World → ℕ → Bytes → Session → Activation
unfolding finish invalid_json
send_text w a buf s = elim (push_json w.from_chars buf) [
  | Outcome.invalid ↦ finish s (write_error (invalid_json w buf)) goes_on
  | Outcome.out_of_fuel ↦ finish s [] stuck
  | Outcome.pushes m _ ↦ elim (w.answer a m) [
    | sent ↦ finish s (sends a m ∷ []) goes_on
    | raised e ↦ finish s (write_error e) goes_on
    | refused r ↦ elim (to_json w.floats r) [
      | ok line ↦ finish s (write_error line) goes_on
      | err e ↦ finish s (writes (codes "error: ") ∷ write_error (what e)) goes_on
      | out_of_fuel ↦ finish s [] stuck
    ]
  ]
]

abbrev pub is_empty : Bytes → Bool
is_empty [] = true
is_empty (c ∷ cs) = false

-- The answer to `tap` and `untap`.
abbrev pub tap_text : Option Bytes → Session → Activation
tap_text none s = finish s [] goes_on
tap_text (some e) s = finish s (writes (codes "error: " ++ e) ∷ writes newline ∷ []) goes_on

abbrev pub untap_text : Bytes → Bool → Session → Activation
untap_text name true s = finish s [] goes_on
untap_text name false s = tap_text (some (name ++ codes " not tapped")) s

unfoldable pub to_actor : World → Bytes → Bytes → Session → Activation
unfolding send_text
to_actor w name rest s =
    let a = get_name name s.registry in
    if is_expired w a
    then finish s (writes (codes "error: ") ∷ writes name ∷ writes (codes " not found\n") ∷ [])
        goes_on
    else send_text w a rest s

-- `tap`, `untap`, or a text for an actor.
unfoldable pub dispatch_words : World → Bytes → Bytes → Session → Activation
unfolding tap to_actor
dispatch_words w name rest s =
    let taps = bytes_eq name (codes "tap") in
    let (e, tapped) = tap w rest s in
    let (found, untapped) = untap w rest s in
    if (taps || bytes_eq name (codes "untap")) && not (is_empty rest)
    then (if taps then tap_text e tapped else untap_text rest found untapped)
    else to_actor w name rest s

unfoldable pub dispatch_text : World → Bytes → Session → Activation
unfolding name_list unregister_expired dispatch_words
dispatch_text w [] s =
    finish (record s { registry = unregister_expired w s.registry.registry s.registry })
      (name_list w true s.registry.registry ++ (writes newline ∷ [])) goes_on
dispatch_text w (c ∷ cs) s =
    let (name, rest) = getword (c ∷ cs) in
    if bytes_eq (c ∷ cs) (codes "bye")
    then finish s (writes (codes "bye\n") ∷ []) says_bye
    else dispatch_words w name rest s
