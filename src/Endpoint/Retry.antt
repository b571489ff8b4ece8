-- ===== src/Endpoint/Retry.antt =====
-- How often a connector tries, and how long it waits.
use thespian.Prelude.{
  ℕ, zero, suc, ◌+◌, ◌*◌, ◌^◌, ◌<◌, ◌≡◌, refl, ap, ◌∙◌, true, false, List, [], ◌∷◌, ◌++◌, none,
  some, length, arith, ltb, All,
}
use thespian.Prelude.Int.{pos}
use thespian.Prelude.Text.{codes}
use thespian.Prelude.Tests.{bytes_eq, bytes_eq_refl}
use thespian.Cbor.Result
use thespian.Cbor.Result.{Bytes}
use thespian.Cbor.Value.{Value, nil, cons, push_value, IsValid}
use thespian.Cbor.Kind.{kind_eq}
use thespian.Cbor.Match.{
  Extracted, extract_int, extract_string, last, next, match_message, is_more, fits_int,
}
use thespian.Cbor.Accepts.{elements, text_of, int_of, accepts, accepts_scalar}
use thespian.Cbor.Refinement.{match_message-push_value}
use thespian.Cbor.Dispatch.{when-some, when-none, word, only}
use thespian.Actor.Messages.{exit_message, text}
use thespian.Endpoint.Connector.{
  Connector, Effect, set_timeout, Ending, Activation, connector_msg, connect_error, retry_msg,
  receive,
}

-- The report of a failed attempt.
pub record Failure : Type 0 where
  pub code : ℕ
  pub message : Bytes

abbrev pub error_msg : Bytes → Failure → Value
error_msg tag f = Value.array (
    cons (Value.text (codes "connector")) (
      cons (Value.text tag) (
        cons (Value.text (codes "error"))
          (cons (Value.uint f.code) (cons (Value.text f.message) nil)))))

abbrev pub IsFailure : Failure → Type 0
IsFailure f = (f.code < 2 ^ 31) × IsValid (Value.text f.message)

module _ (c : Connector) (f : Failure) (ht : IsValid (Value.text c.tag)) (hf : IsFailure f) where
  error-IsValid : IsValid (error_msg c.tag f)
  error-IsValid = (
    omega arith,
    ((omega arith, omega arith), (ht, ((omega arith, omega arith), (omega arith, (hf.1, tt))))),
  )

  no_connected :
      match_message
        (connector_msg c (next (word "connected") (last (extract_int 32))))
        (push_value (error_msg c.tag f))
      ≡ Result.ok none
  unfolding accepts accepts_scalar elements text_of bytes_eq is_more kind_eq
  no_connected =
      match_message-push_value _ (error_msg c.tag f) error-IsValid ∙ rw (bytes_eq_refl c.tag) refl

  no_cancelled :
      match_message (connector_msg c (only "cancelled")) (push_value (error_msg c.tag f))
      ≡ Result.ok none
  unfolding accepts accepts_scalar elements text_of bytes_eq is_more kind_eq
  no_cancelled =
      match_message-push_value _ (error_msg c.tag f) error-IsValid ∙ rw (bytes_eq_refl c.tag) refl

  is_error :
      match_message
        (connector_msg c (next (word "error") (next (extract_int 32) (last extract_string))))
        (push_value (error_msg c.tag f))
      ≡ Result.ok (some (Extracted.int (pos f.code) ∷ Extracted.text f.message ∷ []))
  unfolding accepts accepts_scalar elements text_of int_of bytes_eq is_more kind_eq fits_int
  is_error =
      let fits : ltb f.code (2 ^ 31) ≡ true = ground arith in
      let fits' : ltb f.code (2 ^ 63) ≡ true = ground arith in
      match_message-push_value _ (error_msg c.tag f) error-IsValid
      ∙ rw (bytes_eq_refl c.tag, fits', fits) refl

  receive-error :
      (connected : Connector → List Extracted → Activation)
      → receive connected c (push_value (error_msg c.tag f))
        ≡ connect_error c (Extracted.int (pos f.code) ∷ Extracted.text f.message ∷ [])
  unfolding receive
  receive-error connected =
      when-none _ _ _ _ _ no_connected
      ∙ when-none _ _ _ _ _ no_cancelled
      ∙ when-some _ _ _ _ _ _ is_error

-- What was done before an ending of the rest.
abbrev followed : Activation → List Effect × Ending → List Effect × Ending
followed a (es, e) = elim a.ending as (λ _. List Effect × Ending) [
  | Ending.returned ↦ (a.effects ++ es, e)
  | other ↦ (a.effects, other)
]

-- The receiver over the reports of failed attempts, until it ends: what it does, and how it ends.
unfoldable pub failing :
    (Connector → List Extracted → Activation) → Connector → List Failure → List Effect × Ending
failing connected c [] = ([], Ending.returned)
failing connected c (f ∷ fs) =
    let a = receive connected c (push_value (error_msg c.tag f)) in
    followed a (failing connected a.connector fs)

-- `n` timeouts, each twice as long as the one before.
abbrev pub backoff : ℕ → ℕ → Bytes → List Effect
backoff zero t tag = []
backoff (suc n) t tag = set_timeout t (retry_msg tag) ∷ backoff n (t * 2) tag

-- A connector that has made `connection_count` attempts is told of one failure after the other: it
-- sets a timer for each of them, for twice the time of the one before, until it has made
-- `retry_count` more attempts than the first; the next failure ends it with its message, and nothing
-- that comes after that is looked at.
pub failing_lem :
    (connected : Connector → List Extracted → Activation) (fs gs : List Failure) (f : Failure)
    (c : Connector)
    → IsValid (Value.text c.tag)
    → All IsFailure fs
    → IsFailure f
    → c.connection_count + length fs ≡ suc c.retry_count
    → failing connected c (fs ++ (f ∷ gs)) ≡ (
      backoff (length fs) c.retry_time c.tag,
      Ending.exited (exit_message (codes "connect_error") (text f.message ∷ [])),
    )
unfolding failing connect_error
failing_lem connected [] gs f c ht hs hf n =
    let over : ltb c.retry_count c.connection_count ≡ true = ground arith in
    ap (λ a. followed a (failing connected a.connector gs)) (receive-error c f ht hf connected)
    ∙ rw (over, connect_error) refl
failing_lem connected (g ∷ fs) gs f c ht hs hf n =
    let within : ltb c.retry_count c.connection_count ≡ false = ground arith in
    let ih =
      failing_lem connected fs gs f
        (record c { connection_count = suc c.connection_count; retry_time = c.retry_time * 2 }) ht
        hs.1 hf (omega arith) in
    ap (λ a. followed a (failing connected a.connector (fs ++ (f ∷ gs))))
      (receive-error c g ht hs.0 connected)
    ∙ rw (within, connect_error) (rw ih refl)
