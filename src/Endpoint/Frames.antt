-- ===== src/Endpoint/Frames.antt =====
-- What `extract(msg)` finds at the start of a stream of messages that may be cut off.
use thespian.Prelude.{
  ◌≤◌, ◌<◌, ◌≡◌, refl, sym, ap, ◌∙◌, true, List, [], ◌∷◌, ◌++◌, Option, some, length, drop, arith,
  append-nil, length-append,
}
use thespian.Cbor.Result.{Bytes, Error, Result, ok, err, out_of_fuel}
use thespian.Cbor.Kind.{Kind}
use thespian.Cbor.Value.{Value, push_value, kind, IsValid}
use thespian.Cbor.Match.{match_scalar, is_range}
use thespian.Cbor.Decode.{decode_type}
use thespian.Cbor.Skip.{match_type}
use thespian.Cbor.PushSkip.{match_type-push_value}
use thespian.Cbor.Total.{match_type-Leaves}
use thespian.Cbor.Extend.{match_type-Follows}
use thespian.Cbor.MatchFinds.{passed-append}
use thespian.Endpoint.Connection.{nothing, frame, next_frame}

-- A message that the framing accepts: an array, a map or a null.
abbrev pub IsMessage : Value → Type 0
IsMessage v = IsValid v × (is_range (kind v) ≡ true)

-- The bytes of a stream of messages.
unfoldable pub stream : List Value → Bytes
stream [] = []
stream (v ∷ vs) = push_value v ++ stream vs

pub first_nil : (r q : Bytes) → r ++ q ≡ [] → r ≡ []
first_nil [] q e = refl
first_nil (x ∷ r) q e = cc

pub no_bytes : (e : Error) × (match_type [] ≡ err e)
unfolding match_type decode_type
no_bytes = (_, refl)

none_left : (r q : Bytes) → r ++ q ≡ [] → q ≡ []
none_left [] q e = e
none_left (x ∷ r) q e = cc

-- The beginning of a value is no value.
pub truncated-match_type :
    (v : Value) (p q : Bytes)
    → IsValid v
    → p ++ q ≡ push_value v
    → length p < length (push_value v)
    → (e : Error) × (match_type p ≡ err e)
truncated-match_type v p q h e short = by_run (match_type p) refl
  where
    whole : match_type (p ++ q) ≡ ok (some (kind v), [])
    whole = ap match_type (e ∙ sym (append-nil (push_value v))) ∙ match_type-push_value v [] h

    by_run :
        (r : Result (Option Kind × Bytes)) → match_type p ≡ r → (e : Error) × (match_type p ≡ err e)
    by_run (ok (k, rest)) d =
        let longer : match_type (p ++ q) ≡ ok (k, rest ++ q) = rw d at (match_type-Follows q p) in
        let empty : rest ++ q ≡ [] = cc whole in
        absurd (omega (arith, ap length (none_left rest q empty), ap length e, length-append p q))
    by_run (err x) d = (x, d)
    by_run out_of_fuel d = absurd (rw d at (match_type-Leaves p))

pub next_frame-nothing : (p : Bytes) (e : Error) → match_type p ≡ err e → next_frame p ≡ nothing
unfolding next_frame match_scalar
next_frame-nothing p e d = rw (d, next_frame, match_scalar) refl

pub next_frame-message :
    (v : Value) (rest : Bytes)
    → IsMessage v
    → next_frame (push_value v ++ rest) ≡ frame true (push_value v) rest
unfolding next_frame match_scalar
next_frame-message v rest (h, range) =
    rw (match_type-push_value v rest h, next_frame, match_scalar)
      (rw range (ap (λ m. frame true m rest) (passed-append (push_value v) rest)))

-- Two ways to cut the same bytes.
pub cut :
    (a buf q r : Bytes)
    → buf ++ q ≡ a ++ r
    → length a ≤ length buf
    → (buf ≡ a ++ drop (length a) buf) × (drop (length a) buf ++ q ≡ r)
cut [] buf q r e h = (refl, e)
cut (x ∷ a) [] q r e h = absurd (omega arith)
cut (x ∷ a) (y ∷ buf) q r e h =
    let le : length a ≤ length buf = omega arith in
    let tails : buf ++ q ≡ a ++ r = cc in
    let first : y ≡ x = cc in
    let (same, left) = cut a buf q r tails le in
    (ap (λ z. z ∷ buf) first ∙ ap (λ l. x ∷ l) same, left)

pub short_of :
    (a buf q r : Bytes) → buf ++ q ≡ a ++ r → length buf < length a → buf ++ drop (length buf) a ≡ a
short_of a [] q r e h = refl
short_of [] (y ∷ buf) q r e h = absurd (omega arith)
short_of (x ∷ a) (y ∷ buf) q r e h =
    let lt : length buf < length a = omega arith in
    let tails : buf ++ q ≡ a ++ r = cc in
    let first : y ≡ x = cc in
    ap (λ z. z ∷ (buf ++ drop (length buf) a)) first ∙ ap (λ l. x ∷ l) (short_of a buf q r tails lt)
