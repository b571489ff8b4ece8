-- ===== src/Device/Pending.antt =====
-- The bytes that a socket still holds are those that were written and not yet taken, in their order.
use thespian.Prelude.{
  ℕ, zero, suc, ◌≤◌, ◌≡◌, refl, sym, ap, ◌∙◌, Bool, true, false, List, [], ◌∷◌, ◌++◌, append_assoc,
  append-nil, take, drop, length, ltb, if◌then◌else◌, arith, Bool-cases, inl, inr,
}
use thespian.Cbor.Result.{Bytes}
use thespian.Device.Socket.{
  Socket, Call, write_call, close_call, write, write_internal, close_internal, call, advance,
  write_complete,
}

-- What is still to be written.
abbrev pub pending : Socket → Bytes
pending s = s.write_buf ++ s.write_q

-- A socket that waits for no write holds nothing; one that waits has submitted its buffer.
pub record IsSteady (s : Socket) : Type 0 where
  pub idle : (if s.write_pending then s.submitted else []) ≡ s.write_buf
  pub none_queued : (if s.write_pending then [] else s.write_q) ≡ []

-- What the owner writes in its calls.
abbrev pub written : List Call → Bytes
written [] = []
written (write_call b ∷ cs) = b ++ written cs
written (close_call ∷ cs) = written cs

write-IsSteady : (b : Bytes) (s : Socket) → IsSteady s → IsSteady (write b s)
unfolding write write_internal
write-IsSteady b s h = elim (Bool-cases s.write_pending) [
  | inl e ↦ record { idle = ground (arith, h.idle); none_queued = ground (arith, h.none_queued) }
  | inr e ↦ record { idle = ground (arith, h.idle); none_queued = ground (arith, h.none_queued) }
]

-- While a write is under way.
module _ (s : Socket) (busy : s.write_pending ≡ true) where
  write-queued : (b : Bytes) → write b s ≡ record s { write_q = s.write_q ++ b }
  unfolding write
  write-queued b = ground (arith, busy)

  close-buf : (close_internal s).1.write_buf ≡ s.write_buf
  unfolding close_internal
  close-buf = ground arith

  close-q : (close_internal s).1.write_q ≡ s.write_q
  unfolding close_internal
  close-q = ground arith

  close-pending : (close_internal s).1.write_pending ≡ true
  unfolding close_internal
  close-pending = ground (arith, busy)

call_lem :
    (cs : List Call) (s : Socket)
    → s.write_pending ≡ true
    → ((call cs s).write_buf ≡ s.write_buf)
      × ((call cs s).write_q ≡ s.write_q ++ written cs)
      × ((call cs s).write_pending ≡ true)
unfolding call
call_lem [] s h = (refl, sym (append-nil s.write_q), h)
call_lem (write_call b ∷ cs) s h =
    let (p, q, r) = call_lem cs (record s { write_q = s.write_q ++ b }) h in
    rw (write-queued s h b, call) (p, q ∙ append_assoc s.write_q b (written cs), r)
call_lem (close_call ∷ cs) s h =
    let (p, q, r) = call_lem cs (close_internal s).1 (close-pending s h) in
    (p ∙ close-buf s h, q ∙ ap (λ l. l ++ written cs) (close-q s h), r)

take-drop : (n : ℕ) (l : Bytes) → take n l ++ drop n l ≡ l
take-drop zero l = refl
take-drop (suc n) [] = refl
take-drop (suc n) (x ∷ l) = ap (λ r. x ∷ r) (take-drop n l)

take_all : (n : ℕ) (l : Bytes) → length l ≤ n → take n l ≡ l
take_all zero [] h = refl
take_all zero (x ∷ l) h = absurd (omega arith)
take_all (suc n) [] h = refl
take_all (suc n) (x ∷ l) h = ap (λ r. x ∷ r) (take_all n l (omega arith))

-- What the rest of the buffer, or the queue, becomes.
module _ (len : ℕ) (s : Socket) where
  advance-part :
      ltb len (length s.write_buf) ≡ true
      → pending (advance len s) ≡ drop len s.write_buf ++ s.write_q
  unfolding advance write_internal
  advance-part e = rw e refl

  advance-all : ltb len (length s.write_buf) ≡ false → pending (advance len s) ≡ s.write_q
  unfolding advance write_internal
  advance-all e = rw e (by_queue s.write_q refl)
    where
      by_queue :
          (q : Bytes)
          → s.write_q ≡ q
          → pending (elim s.write_q [
            | [] ↦ record s { write_pending = false; write_buf = [] }
            | b ∷ bs ↦
                write_internal
                  (record s { write_pending = false; write_buf = b ∷ bs; write_q = [] })
          ])
            ≡ s.write_q
      by_queue [] h = rw h (rw h refl)
      by_queue (b ∷ bs) h = rw h (append-nil (b ∷ bs))

  advance-pending : take len s.write_buf ++ pending (advance len s) ≡ pending s
  advance-pending = elim (Bool-cases (ltb len (length s.write_buf))) [
    | inl e ↦
        ap (λ l. take len s.write_buf ++ l) (advance-part e)
        ∙ sym (append_assoc (take len s.write_buf) (drop len s.write_buf) s.write_q)
        ∙ ap (λ l. l ++ s.write_q) (take-drop len s.write_buf)
    | inr e ↦
        ap (λ l. take len s.write_buf ++ l) (advance-all e)
        ∙ ap (λ l. l ++ s.write_q) (take_all len s.write_buf (ground (arith, e)))
  ]

  advance-IsSteady : IsSteady (advance len s)
  unfolding advance write_internal
  advance-IsSteady = elim (Bool-cases (ltb len (length s.write_buf))) [
    | inl e ↦ rw e (record { idle = refl; none_queued = refl })
    | inr e ↦ rw e (by_queue s.write_q refl)
  ]
    where
      by_queue :
          (q : Bytes)
          → s.write_q ≡ q
          → IsSteady (elim s.write_q [
            | [] ↦ record s { write_pending = false; write_buf = [] }
            | b ∷ bs ↦
                write_internal
                  (record s { write_pending = false; write_buf = b ∷ bs; write_q = [] })
          ])
      by_queue [] h = rw h (record { idle = refl; none_queued = h })
      by_queue (b ∷ bs) h = rw h (record { idle = refl; none_queued = refl })

after_call :
    (ok : Bool) (s : Socket)
    → s.write_pending ≡ true
    → pending (if ok then s else (close_internal s).1) ≡ pending s
after_call true s h = refl
after_call false s h = rw (close-buf s h, close-q s h) refl

taken_same :
    (ok : Bool) (s : Socket)
    → s.write_pending ≡ true
    → (if ok then s else (close_internal s).1).write_buf ≡ s.write_buf
taken_same true s h = refl
taken_same false s h = close-buf s h

-- The executor has written the first `len` bytes of the buffer, whatever the owner does with the
-- socket meanwhile: these bytes, with what the socket still holds, are what it held and what the
-- owner has written since, in this order. What is submitted next is the buffer.
pub write_complete_lem :
    (len : ℕ) (cs : List Call) (ok : Bool) (s : Socket)
    → s.write_pending ≡ true
    → (take len s.write_buf ++ pending (write_complete len cs ok s) ≡ pending s ++ written cs)
      × IsSteady (write_complete len cs ok s)
unfolding write_complete
write_complete_lem len cs ok s h =
    let (buf, queue, busy) = call_lem cs s h in
    let called = call cs s in
    let last = if ok then called else (close_internal called).1 in
    let same : last.write_buf ≡ s.write_buf = taken_same ok called busy ∙ buf in
    (
      ap (λ l. take len l ++ pending (advance len last)) (sym same)
          ∙ advance-pending len last
          ∙ after_call ok called busy
          ∙ ap (λ l. l ++ called.write_q) buf
          ∙ ap (λ l. s.write_buf ++ l) queue
          ∙ sym (append_assoc s.write_buf s.write_q (written cs)),
      advance-IsSteady len last,
    )

-- A write adds its bytes behind those that the socket holds, and the socket stays steady.
pub write-pending :
    (b : Bytes) (s : Socket)
    → IsSteady s
    → (pending (write b s) ≡ pending s ++ b) × IsSteady (write b s)
unfolding write write_internal
write-pending b s h = (added, write-IsSteady b s h)
  where
    added : pending (write b s) ≡ pending s ++ b
    added = elim (Bool-cases s.write_pending) [
      | inl e ↦ rw (write-queued s e b) (sym (append_assoc s.write_buf s.write_q b))
      | inr e ↦
          let empty : s.write_buf ≡ [] = sym (rw e at h.idle) in
          let none : s.write_q ≡ [] = rw e at h.none_queued in
          rw (e, empty, none) (append-nil (b ++ []) ∙ append-nil b)
    ]
