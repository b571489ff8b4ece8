-- ===== src/Debug/Taps.antt =====
-- The taps: who is sent a copy of what an actor sends and receives.
use thespian.Prelude.{
  ℕ, suc, ◌-◌, Bool, true, false, not, ◌&&◌, ◌||◌, List, [], ◌∷◌, ◌++◌, ltb, ◌==◌, if◌then◌else◌,
  bytes_eq, map,
}
use thespian.Prelude.Text.{codes}
use thespian.Cbor.Result.{Bytes}
use thespian.Actor.Messages.{array, text}

-- `taps` has the pairs of the multimap, those of one name in the order of their insertion.
pub record Taps : Type 0 where
  pub taps : List (Bytes × ℕ)
  pub tap_count : ℕ

unfoldable pub is_tapping : Taps → Bool
is_tapping t = ltb 0 t.tap_count

-- `==` of handles: two that are expired are the same. The first argument tells what is alive.
unfoldable pub handle_eq : (ℕ → Bool) → ℕ → ℕ → Bool
handle_eq live a b = if live a then (if live b then a == b else false) else not (live b)

-- The walk of `tap_subscribers` over the taps of a name: those that are expired are erased.
unfoldable pub unexpired : (ℕ → Bool) → Bytes → List (Bytes × ℕ) → List (Bytes × ℕ)
unexpired live name [] = []
unexpired live name ((n, s) ∷ ts) =
    let rest = unexpired live name ts in
    if bytes_eq n name && not (live s) then rest else (n, s) ∷ rest

unfoldable pub subscribers : (ℕ → Bool) → Bytes → List (Bytes × ℕ) → List ℕ
subscribers live name [] = []
subscribers live name ((n, s) ∷ ts) =
    let rest = subscribers live name ts in if bytes_eq n name && live s then s ∷ rest else rest

unfoldable pub erased : (ℕ → Bool) → Bytes → List (Bytes × ℕ) → ℕ
erased live name [] = 0
erased live name ((n, s) ∷ ts) =
    let rest = erased live name ts in if bytes_eq n name && not (live s) then suc rest else rest

unfoldable pub tap_subscribers : (ℕ → Bool) → Bytes → Taps → List ℕ × Taps
unfolding subscribers unexpired erased
tap_subscribers live name t = (
  subscribers live name t.taps,
  record { taps = unexpired live name t.taps; tap_count = t.tap_count - erased live name t.taps },
)

-- `tap_deliver`: what is queued, and for whom.
unfoldable pub tap_deliver : List ℕ → Bytes → List (ℕ × Bytes)
tap_deliver subs ev = map (λ s. (s, ev)) subs

abbrev is_empty : Bytes → Bool
is_empty [] = true
is_empty (x ∷ xs) = false

-- `array("debug_tap", name, what, other, m)`
unfoldable pub tap_event : Bytes → Bytes → Bytes → Bytes → Bytes
tap_event name what other m =
    array (text (codes "debug_tap") ∷ text name ∷ text what ∷ text other ∷ m ∷ [])

-- The taps of one name, if it has one.
unfoldable pub tap_name : (ℕ → Bool) → Bytes → Bytes → Taps → List (ℕ × Bytes) × Taps
unfolding tap_subscribers tap_deliver
tap_name live name ev t =
    let (subs, t') = tap_subscribers live name t in
    if is_empty name then ([], t) else (tap_deliver subs ev, t')

-- `in_tap` is the first argument: a message that is queued by a tap is not tapped.
unfoldable pub tap_message :
    Bool → (ℕ → Bool) → Bytes → Bytes → Bytes → Taps → List (ℕ × Bytes) × Taps
unfolding tap_name tap_event
tap_message in_tap live to from_name m t =
    let (received, t₁) = tap_name live to (tap_event to (codes "recv") from_name m) t in
    let (sent, t₂) = tap_name live from_name (tap_event from_name (codes "send") to m) t₁ in
    if in_tap then ([], t) else (received ++ sent, t₂)

unfoldable pub tap_exit : Bool → (ℕ → Bool) → Bytes → Bytes → Taps → List (ℕ × Bytes) × Taps
unfolding tap_name tap_event
tap_exit in_tap live name m t =
    let r = tap_name live name (tap_event name (codes "exit") [] m) t in
    if in_tap then ([], t) else r

unfoldable pub has_tap : (ℕ → Bool) → Bytes → ℕ → List (Bytes × ℕ) → Bool
unfolding handle_eq
has_tap live name sub [] = false
has_tap live name sub ((n, s) ∷ ts) =
    let rest = has_tap live name sub ts in
    if bytes_eq n name then (if handle_eq live s sub then true else rest) else rest

unfoldable pub tap_add : (ℕ → Bool) → Bytes → ℕ → Taps → Taps
unfolding has_tap
tap_add live name sub t =
    if has_tap live name sub t.taps
    then t
    else record { taps = t.taps ++ ((name, sub) ∷ []); tap_count = suc t.tap_count }

-- The taps that `tap_remove` erases.
unfoldable pub is_removed : (ℕ → Bool) → Bytes → ℕ → Bytes × ℕ → Bool
unfolding handle_eq
is_removed live name sub (n, s) = (is_empty name || bytes_eq n name) && handle_eq live s sub

unfoldable pub remaining : (ℕ → Bool) → Bytes → ℕ → List (Bytes × ℕ) → List (Bytes × ℕ)
unfolding is_removed
remaining live name sub [] = []
remaining live name sub (p ∷ ts) =
    let rest = remaining live name sub ts in if is_removed live name sub p then rest else p ∷ rest

unfoldable pub removed : (ℕ → Bool) → Bytes → ℕ → List (Bytes × ℕ) → ℕ
unfolding is_removed
removed live name sub [] = 0
removed live name sub (p ∷ ts) =
    let rest = removed live name sub ts in if is_removed live name sub p then suc rest else rest

unfoldable pub tap_remove : (ℕ → Bool) → Bytes → ℕ → Taps → Bool × Taps
unfolding remaining removed
tap_remove live name sub t = (
  ltb 0 (removed live name sub t.taps),
  record {
    taps = remaining live name sub t.taps;
    tap_count = t.tap_count - removed live name sub t.taps;
  },
)
