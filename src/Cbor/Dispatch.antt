-- ===== src/Cbor/Dispatch.antt =====
-- A chain of `if (m(...)) ... else if (m(...)) ...` over one message, as the receivers of the library
-- have it.
use thespian.Prelude.{◌≡◌, refl, List, none, some}
use Prim.Native.String.{String}
use thespian.Prelude.Text.{codes}
use thespian.Cbor.Result.{Bytes, Error, ok, err, out_of_fuel}
use thespian.Cbor.Match.{Extracted, Pattern, Patterns, str, last, match_message}

-- One test: go on with `f` over what was extracted, with `otherwise`, or with an exception.
unfoldable pub when {ℓ} :
    {R : Type ℓ} → (Error → R) → Bytes → Patterns → (List Extracted → R) → R → R
when throw m ps f otherwise = elim (match_message ps m) [
  | ok (some xs) ↦ f xs
  | ok none ↦ otherwise
  | err e ↦ throw e
  | out_of_fuel ↦ otherwise
]

module _ {ℓ} {R : Type ℓ} (throw : Error → R) (m : Bytes) (ps : Patterns) (f : List Extracted → R)
    (otherwise : R) where
  pub when-some :
      (xs : List Extracted) → match_message ps m ≡ ok (some xs) → when throw m ps f otherwise ≡ f xs
  unfolding when
  when-some xs e = rw (e, when) refl

  pub when-none : match_message ps m ≡ ok none → when throw m ps f otherwise ≡ otherwise
  unfolding when
  when-none e = rw (e, when) refl

-- A word of the runtime as a literal.
abbrev pub word : String → Pattern
word s = str (codes s)

abbrev pub only : String → Patterns
only s = last (word s)
