-- ===== src/Debug/Unwritten.antt =====
-- The bytes that the socket of a debug connection has not written (`connection` of src/instance.cpp).
use thespian.Prelude.{
  ℕ, ◌+◌, ◌-◌, ◌≤◌, ◌≡◌, refl, sym, subst, ap, ◌∙◌, Bool, true, false, ◌&&◌, List, [], ◌∷◌, leb,
  ◌==◌, if◌then◌else◌, length, arith,
}
use thespian.Cbor.Result.{Bytes}

-- The bytes that the socket was given and has not written, and whether the end was asked for.
pub record Writer : Type 0 where
  pub unwritten : ℕ
  pub close_on_write_complete : Bool

unfoldable pub write : Bytes → Writer → Writer
write data_ w = record w { unwritten = w.unwritten + length data_ }

-- The branch of `write_complete`; the answer tells whether the socket is closed.
unfoldable pub write_complete : ℕ → Writer → Bool × Writer
write_complete written w =
    let left = w.unwritten - (if leb w.unwritten written then w.unwritten else written) in
    (w.close_on_write_complete && (left == 0), record w { unwritten = left })

-- What the connection does and hears of: a write, the bytes that the socket reports as written, and the
-- wish to end.
pub data SocketOp : Type 0 where
  writes : Bytes → SocketOp
  acknowledges : ℕ → SocketOp
  ends : SocketOp

unfoldable pub run_op : SocketOp → Writer → Writer
unfolding write write_complete
run_op (writes d) w = write d w
run_op (acknowledges n) w = (write_complete n w).1
run_op ends w = record w { close_on_write_complete = true }

unfoldable pub runs : List SocketOp → Writer → Writer
unfolding run_op
runs [] w = w
runs (o ∷ os) w = runs os (run_op o w)

abbrev pub written : List SocketOp → ℕ
written [] = 0
written (writes d ∷ os) = length d + written os
written (acknowledges n ∷ os) = written os
written (ends ∷ os) = written os

abbrev pub reported : List SocketOp → ℕ
reported [] = 0
reported (writes d ∷ os) = reported os
reported (acknowledges n ∷ os) = n + reported os
reported (ends ∷ os) = reported os

-- A socket that has `n` bytes to write acknowledges none that it was not given.
abbrev pub AreGiven : ℕ → List SocketOp → Type 0
AreGiven n [] = Unit
AreGiven n (writes d ∷ os) = AreGiven (n + length d) os
AreGiven n (acknowledges k ∷ os) = (k ≤ n) × AreGiven (n - k) os
AreGiven n (ends ∷ os) = AreGiven n os

left_lem : (n k : ℕ) → k ≤ n → n - (if leb n k then n else k) ≡ n - k
left_lem n k h = ground arith

unwritten_lem :
    (os : List SocketOp) (w : Writer)
    → AreGiven w.unwritten os
    → (runs os w).unwritten + reported os ≡ w.unwritten + written os
unfolding runs run_op write write_complete
unwritten_lem [] w h = refl
unwritten_lem (writes d ∷ os) w h = omega (arith, unwritten_lem os (write d w) h)
unwritten_lem (acknowledges k ∷ os) w h =
    let left = left_lem w.unwritten k h.0 in
    omega (
      arith,
      unwritten_lem os (write_complete k w).1 (subst (λ n. AreGiven n os) (sym left) h.1),
      left,
      h.0,
    )
unwritten_lem (ends ∷ os) w h = unwritten_lem os (run_op ends w) h

abbrev pub fresh : Writer
fresh = record { unwritten = 0; close_on_write_complete = false }

same_test : (u k r t : ℕ) → u + r ≡ 0 + t → r + k ≤ t → (u - k == 0) ≡ (r + k == t)
same_test u k r t e h = ground arith

-- Where the socket acknowledges no bytes that it was not given, a report closes it exactly when the end was
-- asked for and all bytes that were written until then are reported.
pub write_complete-runs :
    (os : List SocketOp) (k : ℕ)
    → AreGiven 0 os
    → reported os + k ≤ written os
    → (write_complete k (runs os fresh)).0
      ≡ ((runs os fresh).close_on_write_complete && (reported os + k == written os))
unfolding write_complete
write_complete-runs os k h hk =
    let w = runs os fresh in
    let sum = unwritten_lem os fresh h in
    let less : k ≤ w.unwritten = omega (arith, sum, hk) in
    ap (λ n. w.close_on_write_complete && (n == 0)) (left_lem w.unwritten k less)
    ∙ ap (λ b. w.close_on_write_complete && b) (same_test _ _ _ _ sum hk)
