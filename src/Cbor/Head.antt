-- ===== src/Cbor/Head.antt =====
-- Heads: what `push_typed_val` writes and what `decode_type` and `decode_pint` read.
use thespian.Prelude.{
  ℕ, ◌+◌, ◌*◌, ◌/◌, ◌%◌, ◌^◌, ◌<◌, ◌≤◌, bit_or, ◌≡◌, [], ◌∷◌, ◌++◌, ltb, if◌then◌else◌, length, All,
  arith,
}
use thespian.Prelude.Bits.{bit_or-shifted, mask_five}
use thespian.Cbor.Result.{Bytes, ok}
use thespian.Cbor.Buffer.{push_typed_val, push_bits}
use thespian.Cbor.Decode.{decode_type, decode_pint, decode_int_length, decode_int_length_recurse}

abbrev pub IsByte : ℕ → Type 0
IsByte b = b < 256

-- The low five bits of the first byte.
unfoldable pub minor_of : ℕ → ℕ
minor_of v =
    if ltb v 24
    then v
    else if ltb v 256
    then 24
    else if ltb v 65536
    then 25
    else if ltb v 4294967296
    then 26
    else 27

pub minor_of-lt : (v : ℕ) → minor_of v < 28
unfolding minor_of
minor_of-lt v = ground arith

-- The bytes of the argument after the first byte.
unfoldable pub argument : ℕ → Bytes
argument v =
    if ltb v 24
    then []
    else if ltb v 256
    then v ∷ []
    else if ltb v 65536
    then v / 2 ^ 8 ∷ v % 256 ∷ []
    else if ltb v 4294967296
    then v / 2 ^ 24 ∷ v / 2 ^ 16 % 256 ∷ v / 2 ^ 8 % 256 ∷ v % 256 ∷ []
    else v / 2 ^ 56
      ∷ v / 2 ^ 48 % 256
      ∷ v / 2 ^ 40 % 256
      ∷ v / 2 ^ 32 % 256
      ∷ v / 2 ^ 24 % 256
      ∷ v / 2 ^ 16 % 256
      ∷ v / 2 ^ 8 % 256
      ∷ v % 256
      ∷ []

low_five : (t m : ℕ) → m < 32 → bit_or (t * 2 ^ 5) m ≡ t * 32 + m
low_five t m h = bit_or-shifted 5 t m h

pub push_typed_val_lem :
    (t v : ℕ) → t < 8 → v < 2 ^ 64 → push_typed_val t v ≡ (t * 32 + minor_of v) ∷ argument v
unfolding push_typed_val minor_of argument
push_typed_val_lem t v ht hv =
    ground (arith, low_five t v, low_five t 24, low_five t 25, low_five t 26, low_five t 27)

pub decode_type_lem :
    (t m : ℕ) (rest : Bytes)
    → t < 8
    → m < 32
    → decode_type ((t * 32 + m) ∷ rest)
      ≡ ok (record { major = t; minor = m; type = t * 32 + m }, rest)
unfolding decode_type
decode_type_lem t m rest ht hm = ground (arith, mask_five (t * 32 + m))

-- The number that a run of bytes spells, most significant first, behind `acc`.
abbrev spell : ℕ → Bytes → ℕ
spell acc [] = acc
spell acc (d ∷ ds) = spell (acc * 256 + d) ds

spell_grows : (acc : ℕ) (ds : Bytes) → acc ≤ spell acc ds
spell_grows acc [] = omega arith
spell_grows acc (d ∷ ds) = omega (arith, spell_grows (acc * 256 + d) ds)

or_byte : (acc d : ℕ) → d < 256 → bit_or (acc * 256) d ≡ acc * 256 + d
or_byte acc d h = bit_or-shifted 8 acc d h

recurse-spell :
    (d : ℕ) (ds : Bytes) (acc : ℕ) (rest : Bytes)
    → All IsByte (d ∷ ds)
    → spell acc (d ∷ ds) < 2 ^ 64
    → decode_int_length_recurse (length ds) (acc * 256) (d ∷ ds ++ rest)
      ≡ ok (spell acc (d ∷ ds), rest)
unfolding decode_int_length_recurse
recurse-spell d [] acc rest h lt = ground (arith, or_byte acc d)
recurse-spell d (d' ∷ ds) acc rest h lt = ground (
  arith,
  or_byte acc d,
  spell_grows ((acc * 256 + d) * 256 + d') ds,
  recurse-spell d' ds (acc * 256 + d) rest,
)

spell_one : (v : ℕ) → v < 256 → spell 0 (v ∷ []) ≡ v
spell_one v h = omega arith

-- Reading the argument back.
pub decode_pint-argument :
    (v : ℕ) (rest : Bytes)
    → v < 2 ^ 64
    → decode_pint (minor_of v) (argument v ++ rest) ≡ ok (v, rest)
unfolding decode_pint decode_int_length minor_of argument
decode_pint-argument v rest h = ground (
  arith,
  recurse-spell v [] 0 rest,
  recurse-spell (v / 2 ^ 8) (v % 256 ∷ []) 0 rest,
  recurse-spell (v / 2 ^ 24) (v / 2 ^ 16 % 256 ∷ v / 2 ^ 8 % 256 ∷ v % 256 ∷ []) 0 rest,
  recurse-spell (v / 2 ^ 56)
      (v / 2 ^ 48 % 256
        ∷ v / 2 ^ 40 % 256
        ∷ v / 2 ^ 32 % 256
        ∷ v / 2 ^ 24 % 256
        ∷ v / 2 ^ 16 % 256
        ∷ v / 2 ^ 8 % 256
        ∷ v % 256
        ∷ [])
      0 rest,
)

-- Reading the bits of a float or a double back.
pub decode_pint-float :
    (bits : ℕ) (rest : Bytes)
    → bits < 2 ^ 32
    → decode_pint 26 (push_bits 3 bits ++ rest) ≡ ok (bits, rest)
unfolding decode_pint decode_int_length push_bits
decode_pint-float bits rest h = ground (
  arith,
  recurse-spell (bits / 2 ^ 24 % 256)
      (bits / 2 ^ 16 % 256 ∷ bits / 2 ^ 8 % 256 ∷ bits / 2 ^ 0 % 256 ∷ []) 0 rest,
)

pub decode_pint-double :
    (bits : ℕ) (rest : Bytes)
    → bits < 2 ^ 64
    → decode_pint 27 (push_bits 7 bits ++ rest) ≡ ok (bits, rest)
unfolding decode_pint decode_int_length push_bits
decode_pint-double bits rest h = ground (
  arith,
  recurse-spell (bits / 2 ^ 56 % 256)
      (bits / 2 ^ 48 % 256
        ∷ bits / 2 ^ 40 % 256
        ∷ bits / 2 ^ 32 % 256
        ∷ bits / 2 ^ 24 % 256
        ∷ bits / 2 ^ 16 % 256
        ∷ bits / 2 ^ 8 % 256
        ∷ bits / 2 ^ 0 % 256
        ∷ [])
      0 rest,
)
