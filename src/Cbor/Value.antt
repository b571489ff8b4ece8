-- ===== src/Cbor/Value.antt =====
-- The values that a buffer's operations can write, and the bytes that they write for one. This is
-- the view that a sender has of a message: `array(parms...)` and `map(parms...)` of
-- include/cbor/cbor.hpp applied to its parts.
use thespian.Prelude.{ℕ, suc, ◌/◌, ◌%◌, ◌^◌, ◌<◌, ◌≡◌, Bool, [], ◌++◌, length, All}
use thespian.Prelude.Int.{negsuc}
use thespian.Cbor.Result.{Bytes}
use thespian.Cbor.Kind.{Kind}
use thespian.Cbor.Head.{IsByte}
use thespian.Cbor.Buffer.{
  push_uint, push_int, push_string, push_bool, push_null, push_float, push_double, array_header,
  map_header,
}

-- `nint n` is -(n + 1); a float or a double is given by its bits. The keys and values of a map
-- stand in one list, as the parameters of `map(parms...)` do.
mutual
  pub data Value : Type 0 where
    uint : ℕ → Value
    nint : ℕ → Value
    text : Bytes → Value
    bool : Bool → Value
    null : Value
    float : ℕ → Value
    double : ℕ → Value
    array : Values → Value
    map : Values → Value

  pub data Values : Type 0 where
    nil : Values
    cons : Value → Values → Values

abbrev pub count : Values → ℕ
count nil = 0
count (cons v vs) = suc (count vs)

-- `push_parms(p, parms...)` is `push_values`: one push after the other.
unfoldable mutual
  pub push_value : Value → Bytes
  push_value (uint n) = push_uint n
  push_value (nint n) = push_int (negsuc n)
  push_value (text s) = push_string s
  push_value (bool b) = push_bool b
  push_value null = push_null
  push_value (float bits) = push_float bits
  push_value (double bits) = push_double bits
  push_value (array vs) = array_header (count vs) ++ push_values vs
  push_value (map vs) = map_header (count vs / 2) ++ push_values vs

  pub push_values : Values → Bytes
  push_values nil = []
  push_values (cons v vs) = push_value v ++ push_values vs

unfoldable pub kind : Value → Kind
kind (uint n) = Kind.number
kind (nint n) = Kind.number
kind (text s) = Kind.string
kind (bool b) = Kind.boolean
kind null = Kind.null
kind (float bits) = Kind.floating
kind (double bits) = Kind.floating
kind (array vs) = Kind.array
kind (map vs) = Kind.map

-- What a caller can pass: numbers of the C++ types, strings and counts that fit, pairs in a map.
abbrev mutual
  pub IsValid : Value → Type 0
  IsValid (uint n) = n < 2 ^ 64
  IsValid (nint n) = n < 2 ^ 63
  IsValid (text s) = (length s < 2 ^ 64) × All IsByte s
  IsValid (bool b) = Unit
  IsValid null = Unit
  IsValid (float bits) = bits < 2 ^ 32
  IsValid (double bits) = bits < 2 ^ 64
  IsValid (array vs) = (count vs < 2 ^ 64) × AreValid vs
  IsValid (map vs) = (count vs < 2 ^ 64) × (count vs % 2 ≡ 0) × AreValid vs

  pub AreValid : Values → Type 0
  AreValid nil = Unit
  AreValid (cons v vs) = IsValid v × AreValid vs
