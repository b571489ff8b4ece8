-- ===== src/Debug/Registry.antt =====
-- The registry: names to handles, while debugging is enabled.
use thespian.Prelude.{
  ℕ, ◌+◌, ◌-◌, ◌%◌, ◌^◌, Bool, true, false, not, ◌&&◌, List, [], ◌∷◌, Option, none, some, ltb, ◌==◌,
  if◌then◌else◌, bytes_eq, length, map, ◌++◌,
}
use thespian.Cbor.Result.{Bytes}
use thespian.Cbor.Buffer.{array_header, push_string}
use thespian.Actor.Messages.{concat}

-- `registry` is sorted by name, as a `map<string, handle>` is; a handle is an id. `debug_enabled` is
-- a size_t.
pub record Registry : Type 0 where
  pub debug_enabled : ℕ
  pub registry : List (Bytes × ℕ)

-- `operator<` of strings.
unfoldable pub bytes_ltb : Bytes → Bytes → Bool
bytes_ltb [] [] = false
bytes_ltb [] (y ∷ ys) = true
bytes_ltb (x ∷ xs) [] = false
bytes_ltb (x ∷ xs) (y ∷ ys) =
    let rest = bytes_ltb xs ys in if ltb x y then true else if x == y then rest else false

unfoldable pub enable : Registry → Registry
enable r = record r { debug_enabled = (r.debug_enabled + 1) % 2 ^ 64 }

unfoldable pub isenabled : Registry → Bool
isenabled r = ltb 0 r.debug_enabled

unfoldable pub disable : Registry → Registry
disable r = record {
  debug_enabled = (r.debug_enabled + (2 ^ 64 - 1)) % 2 ^ 64;
  registry = if r.debug_enabled == 1 then [] else r.registry;
}

-- `registry[name] = h`
unfoldable pub insert : Bytes → ℕ → List (Bytes × ℕ) → List (Bytes × ℕ)
insert name h [] = (name, h) ∷ []
insert name h ((n, g) ∷ r) =
    let rest = insert name h r in
    if bytes_eq n name
    then (n, h) ∷ r
    else if bytes_ltb name n
    then (name, h) ∷ (n, g) ∷ r
    else (n, g) ∷ rest

-- `registry.erase(name)`
unfoldable pub erase : Bytes → List (Bytes × ℕ) → List (Bytes × ℕ)
erase name [] = []
erase name ((n, g) ∷ r) = let rest = erase name r in if bytes_eq n name then r else (n, g) ∷ rest

unfoldable pub find : Bytes → List (Bytes × ℕ) → Option ℕ
find name [] = none
find name ((n, g) ∷ r) = let rest = find name r in if bytes_eq n name then some g else rest

abbrev is_empty : Bytes → Bool
is_empty [] = true
is_empty (x ∷ xs) = false

-- `name` is that of the instance behind the handle, `none` if it is expired.
unfoldable pub register_instance : Option Bytes → ℕ → Registry → Registry
unfolding isenabled insert
register_instance none h r = r
register_instance (some name) h r =
    if isenabled r && not (is_empty name)
    then record r { registry = insert name h r.registry }
    else r

unfoldable pub unregister_instance : Bytes → Registry → Registry
unfolding isenabled erase
unregister_instance name r =
    if isenabled r then record r { registry = erase name r.registry } else r

-- A null handle is 0.
unfoldable pub get_name : Bytes → Registry → ℕ
unfolding find
get_name name r = elim (find name r.registry) [ none ↦ 0 | some h ↦ h ]

unfoldable pub live_names : (ℕ → Bool) → List (Bytes × ℕ) → List Bytes
live_names expired [] = []
live_names expired ((n, h) ∷ r) =
    let rest = live_names expired r in if expired h then rest else n ∷ rest

unfoldable pub get_names : (ℕ → Bool) → Registry → Bytes
unfolding live_names
get_names expired r =
    let names = live_names expired r.registry in
    array_header (length names) ++ concat (map push_string names)
