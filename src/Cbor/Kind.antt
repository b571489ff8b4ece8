-- ===== src/Cbor/Kind.antt =====
-- `enum class type` of include/cbor/cbor.hpp, under the name `Kind`.
use thespian.Prelude.{ℕ, Bool, ◌==◌, ==_refl, ◌≡◌}

pub data Kind : Type 0 where
  number : Kind
  floating : Kind
  bytes : Kind
  string : Kind
  array : Kind
  map : Kind
  tag : Kind
  boolean : Kind
  null : Kind
  any : Kind
  more : Kind
  unknown : Kind

-- The number that stands for the enumerator.
unfoldable pub code : Kind → ℕ
code number = 0
code floating = 1
code bytes = 2
code string = 3
code array = 4
code map = 5
code tag = 6
code boolean = 7
code null = 8
code any = 9
code more = 10
code unknown = 11

unfoldable pub kind_eq : Kind → Kind → Bool
unfolding code
kind_eq s t = code s == code t

pub kind_eq_refl : (t : Kind) → kind_eq t t ≡ Bool.true
unfolding kind_eq
kind_eq_refl t = ==_refl (code t)
