-- ===== src/Debug/Answers.antt =====
-- The answers of a debug connection (`connection` of src/instance.cpp): what each handler answers and starts.
use thespian.Prelude.{
  ℕ, ◌≤◌, ◌≡◌, refl, ap, ◌∙◌, Bool, true, false, List, [], ◌∷◌, ◌++◌, if◌then◌else◌, arith,
}
use thespian.Cbor.Result.{Bytes, Result, ok, err, out_of_fuel}
use thespian.Cbor.Json.Print.{to_json}
use thespian.Debug.Session.{
  Session, World, Effect, writes, replies, sends, starts, to_self, read_socket, close_socket,
  Ending, goes_on, says_bye, Activation, finish,
}
use thespian.Debug.Json.{reply_error, reply_buffer, error_reply}

-- The ids that are answered.
unfoldable pub answered_ids : List Effect → List Bytes
answered_ids [] = []
answered_ids (writes d ∷ es) = answered_ids es
answered_ids (replies id line ∷ es) = id ∷ answered_ids es
answered_ids (sends h m ∷ es) = answered_ids es
answered_ids (starts seq h m t ∷ es) = answered_ids es
answered_ids (to_self line ∷ es) = answered_ids es
answered_ids (read_socket ∷ es) = answered_ids es
answered_ids (close_socket ∷ es) = answered_ids es

-- The numbers of the calls that are started.
unfoldable pub started : List Effect → List ℕ
started [] = []
started (writes d ∷ es) = started es
started (replies id line ∷ es) = started es
started (sends h m ∷ es) = started es
started (starts seq h m t ∷ es) = seq ∷ started es
started (to_self line ∷ es) = started es
started (read_socket ∷ es) = started es
started (close_socket ∷ es) = started es

pub answered_ids-append :
    (es fs : List Effect) → answered_ids (es ++ fs) ≡ answered_ids es ++ answered_ids fs
unfolding answered_ids
answered_ids-append [] fs = refl
answered_ids-append (writes d ∷ es) fs = answered_ids-append es fs
answered_ids-append (replies id line ∷ es) fs = ap (λ l. id ∷ l) (answered_ids-append es fs)
answered_ids-append (sends h m ∷ es) fs = answered_ids-append es fs
answered_ids-append (starts seq h m t ∷ es) fs = answered_ids-append es fs
answered_ids-append (to_self line ∷ es) fs = answered_ids-append es fs
answered_ids-append (read_socket ∷ es) fs = answered_ids-append es fs
answered_ids-append (close_socket ∷ es) fs = answered_ids-append es fs

pub started-append : (es fs : List Effect) → started (es ++ fs) ≡ started es ++ started fs
unfolding started
started-append [] fs = refl
started-append (writes d ∷ es) fs = started-append es fs
started-append (replies id line ∷ es) fs = started-append es fs
started-append (sends h m ∷ es) fs = started-append es fs
started-append (starts seq h m t ∷ es) fs = ap (λ l. seq ∷ l) (started-append es fs)
started-append (to_self line ∷ es) fs = started-append es fs
started-append (read_socket ∷ es) fs = started-append es fs
started-append (close_socket ∷ es) fs = started-append es fs

-- The actor lives on.
abbrev pub lives : Ending → Bool
lives goes_on = true
lives says_bye = true
lives _ = false

-- What the handler leaves, if the actor lives on.
pub record Gives (ids : List Bytes) (calls : List ℕ) (s : Session) (a : Activation) : Type 0 where
  pub answers : answered_ids a.effects ≡ ids
  pub begins : started a.effects ≡ calls
  pub pending : a.session.pending_calls ≡ s.pending_calls
  pub number : s.next_call ≤ a.session.next_call

abbrev pub IsQuiet : List Effect → Type 0
IsQuiet es = (answered_ids es ≡ []) × (started es ≡ [])

pub finish-Gives :
    (s : Session) (es : List Effect) (e : Ending)
    → Gives (answered_ids es) (started es) s (finish s es e)
unfolding finish
finish-Gives s es e = record { answers = refl; begins = refl; pending = refl; number = omega arith }

pub finish-quiet :
    (s : Session) (es : List Effect) (e : Ending) → IsQuiet es → Gives [] [] s (finish s es e)
unfolding finish
finish-quiet s es e (p, q) = record {
  answers = p;
  begins = q;
  pending = refl;
  number = omega arith;
}

pub finish-replies :
    (s : Session) (es : List Effect) (id line : Bytes) (e : Ending)
    → IsQuiet es
    → Gives (id ∷ []) [] s (finish s (es ++ (replies id line ∷ [])) e)
unfolding finish answered_ids started
finish-replies s es id line e (p, q) = record {
  answers = answered_ids-append es _ ∙ ap (λ l. l ++ (id ∷ [])) p;
  begins = started-append es _ ∙ ap (λ l. l ++ []) q;
  pending = refl;
  number = omega arith;
}

-- If the actor lives on.
abbrev pub Leaves : List Bytes → List ℕ → Session → Activation → Type 0
Leaves ids calls s a = lives a.ending ≡ true → Gives ids calls s a

pub dead {ℓ} : {A : Type ℓ} → false ≡ true → A
dead h = absurd (cc)

-- An error that is printed is the answer.
pub reply_error-Gives :
    (w : World) (id e : Bytes) (s : Session) (es : List Effect)
    → IsQuiet es
    → Leaves (id ∷ []) [] s (reply_error w id e s es)
unfolding reply_error finish
reply_error-Gives w id e s es quiet =
    printed (to_json w.floats (reply_buffer id (error_reply e))) refl
  where
    printed :
        (r : Result Bytes)
        → to_json w.floats (reply_buffer id (error_reply e)) ≡ r
        → Leaves (id ∷ []) [] s (reply_error w id e s es)
    printed (ok line) p = rw (p, reply_error) (λ _. finish-replies s es id line goes_on quiet)
    printed (err x) p = rw (p, reply_error) dead
    printed out_of_fuel p = rw (p, reply_error) dead

-- Sessions that wait for the same calls.
abbrev pub Keeps : Session → Session → Type 0
Keeps s s' = (s'.pending_calls ≡ s.pending_calls) × (s.next_call ≤ s'.next_call)

pub Gives-Keeps :
    {ids : List Bytes} {calls : List ℕ} {s s' : Session} {a : Activation}
    → Keeps s s'
    → Gives ids calls s' a
    → Gives ids calls s a
Gives-Keeps (p, n) g = record {
  answers = g.answers;
  begins = g.begins;
  pending = g.pending ∙ p;
  number = omega (arith, g.number);
}

pub if-Leaves :
    {ids : List Bytes} {calls : List ℕ} {s : Session} (b : Bool) (x y : Activation)
    → Leaves ids calls s x
    → Leaves ids calls s y
    → Leaves ids calls s (if b then x else y)
if-Leaves true x y p q = p
if-Leaves false x y p q = q
