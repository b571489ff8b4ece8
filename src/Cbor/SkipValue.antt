-- ===== src/Cbor/SkipValue.antt =====
-- Skipping what a push wrote.
use thespian.Prelude.{ℕ, ◌+◌, ◌*◌, ◌^◌, ◌<◌, ◌≡◌, refl, [], ◌∷◌, ◌++◌, length, arith}
use thespian.Cbor.Result.{◌>>=◌, Decoder, Bytes, ok}
use thespian.Cbor.Head.{
  minor_of, argument, push_typed_val_lem, decode_type_lem, decode_pint-argument, minor_of-lt,
}
use thespian.Cbor.Buffer.{push_typed_val}
use thespian.Cbor.Decode.{Head, decode_type, decode_pint, advance, decode_nint}
use thespian.Cbor.Skip.{skip_string, skip_pint, skip_nint}

pub advance-append : (s rest : Bytes) → advance (length s) (s ++ rest) ≡ ok (s, rest)
unfolding advance
advance-append [] rest = refl
advance-append (b ∷ s) rest = rw (advance-append s rest)

abbrev pub head : ℕ → ℕ → Head
head t v = record { major = t; minor = minor_of v; type = t * 32 + minor_of v }

-- The first byte of a pushed head, read back.
pub decode_type-push :
    (t v : ℕ) (rest : Bytes)
    → t < 8
    → v < 2 ^ 64
    → decode_type (push_typed_val t v ++ rest) ≡ ok (head t v, argument v ++ rest)
decode_type-push t v rest ht hv =
    rw (push_typed_val_lem t v ht hv)
      (decode_type_lem t (minor_of v) (argument v ++ rest) ht (omega (arith, minor_of-lt v)))

-- The skippers, after the first byte of a pushed head.
pub skip_pint-argument :
    (v : ℕ) (rest : Bytes) → v < 2 ^ 64 → skip_pint (minor_of v) (argument v ++ rest) ≡ ok rest
unfolding skip_pint
skip_pint-argument v rest h = rw (decode_pint-argument v rest h)

pub skip_nint-argument :
    (v : ℕ) (rest : Bytes) → v < 2 ^ 64 → skip_nint (minor_of v) (argument v ++ rest) ≡ ok rest
unfolding skip_nint decode_nint
skip_nint-argument v rest h = rw (decode_pint-argument v rest h)

pub skip_string-argument :
    (s rest : Bytes)
    → length s < 2 ^ 64
    → skip_string (minor_of (length s)) (argument (length s) ++ (s ++ rest)) ≡ ok rest
unfolding skip_string
skip_string-argument s rest h =
    rw (decode_pint-argument (length s) (s ++ rest) h) (rw (advance-append s rest))

-- A head, read back: the major type, and the number behind it.
unfoldable pub decode_head : Decoder (ℕ × ℕ)
decode_head bs = do
  (h, rest) ← decode_type bs
  (n, rest') ← decode_pint h.minor rest
  ok ((h.major, n), rest')

-- Any major type with any number of 64 bits is read back as it was pushed, whatever follows.
pub decode_head-push_typed_val :
    (t v : ℕ) (rest : Bytes)
    → t < 8
    → v < 2 ^ 64
    → decode_head (push_typed_val t v ++ rest) ≡ ok ((t, v), rest)
unfolding decode_head
decode_head-push_typed_val t v rest ht hv =
    rw (decode_type-push t v rest ht hv, decode_pint-argument v rest hv)
