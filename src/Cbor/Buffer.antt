-- ===== src/Cbor/Buffer.antt =====
-- The operations of `cbor::buffer` that append (src/cbor.cpp, include/cbor/cbor.hpp). Each of them
-- leaves the bytes before it alone, so it is modelled by the bytes that it appends.
use thespian.Prelude.{
  ℕ, zero, suc, ◌*◌, ◌/◌, ◌%◌, ◌^◌, bit_or, Bool, [], ◌∷◌, ◌++◌, ltb, if◌then◌else◌, length,
}
use thespian.Prelude.Int.{ℤ, pos, negsuc}
use thespian.Cbor.Result.{Bytes}

abbrev pub cbor_magic_null : ℕ
cbor_magic_null = 0xf6

abbrev pub cbor_magic_true : ℕ
cbor_magic_true = 0xf5

abbrev pub cbor_magic_false : ℕ
cbor_magic_false = 0xf4

abbrev pub cbor_magic_float16 : ℕ
cbor_magic_float16 = 0xf9

abbrev pub cbor_magic_float32 : ℕ
cbor_magic_float32 = 0xfa

abbrev pub cbor_magic_float64 : ℕ
cbor_magic_float64 = 0xfb

abbrev pub cbor_magic_type_array : ℕ
cbor_magic_type_array = 4

abbrev pub cbor_magic_type_map : ℕ
cbor_magic_type_map = 5

-- What `push_back` stores of a number: its low byte. `shr` is `>>`.
abbrev pub byte : ℕ → ℕ
byte x = x % 256

abbrev pub shr : ℕ → ℕ → ℕ
shr x k = x / 2 ^ k

-- `type <<= 5`, then the argument in the fewest of 0, 1, 2, 4 or 8 bytes that hold it.
unfoldable pub push_typed_val : ℕ → ℕ → Bytes
push_typed_val type value =
    let t = type * 2 ^ 5 in
    if ltb value 24
    then byte (bit_or t value) ∷ []
    else if ltb value 256
    then byte (bit_or t 24) ∷ byte value ∷ []
    else if ltb value 65536
    then byte (bit_or t 25) ∷ byte (shr value 8) ∷ byte value ∷ []
    else if ltb value 4294967296
    then byte (bit_or t 26)
      ∷ byte (shr value 24)
      ∷ byte (shr value 16)
      ∷ byte (shr value 8)
      ∷ byte value
      ∷ []
    else byte (bit_or t 27)
      ∷ byte (shr value 56)
      ∷ byte (shr value 48)
      ∷ byte (shr value 40)
      ∷ byte (shr value 32)
      ∷ byte (shr value 24)
      ∷ byte (shr value 16)
      ∷ byte (shr value 8)
      ∷ byte value
      ∷ []

-- `for (shift = 8 * n; shift >= 0; shift -= 8) push_back(bits >> shift)`: `n + 1` rounds.
unfoldable pub push_bits : ℕ → ℕ → Bytes
push_bits zero bits = byte (shr bits 0) ∷ []
push_bits (suc n) bits = byte (shr bits (8 * suc n)) ∷ push_bits n bits

-- A float or a double is given by its bits, which `std::bit_cast` reads off.
unfoldable pub push_float : ℕ → Bytes
unfolding push_bits
push_float bits = cbor_magic_float32 ∷ push_bits 3 bits

unfoldable pub push_double : ℕ → Bytes
unfolding push_bits
push_double bits = cbor_magic_float64 ∷ push_bits 7 bits

unfoldable pub push_string : Bytes → Bytes
push_string s = push_typed_val 3 (length s) ++ s

unfoldable pub push_null : Bytes
push_null = cbor_magic_null ∷ []

unfoldable pub push_bool : Bool → Bytes
push_bool v = if v then cbor_magic_true ∷ [] else cbor_magic_false ∷ []

-- For `value` = -(n + 1) the source pushes `-(value + 1)`, which is `n`.
unfoldable pub push_int : ℤ → Bytes
push_int (negsuc n) = push_typed_val 1 n
push_int (pos n) = push_typed_val 0 n

unfoldable pub push_uint : ℕ → Bytes
push_uint value = push_typed_val 0 value

unfoldable pub array_header : ℕ → Bytes
array_header sz = push_typed_val cbor_magic_type_array sz

unfoldable pub map_header : ℕ → Bytes
map_header sz = push_typed_val cbor_magic_type_map sz
