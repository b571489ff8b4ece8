-- ===== src/Endpoint/Framing.antt =====
-- The loop of `endpoint::connection` over bytes that begin a stream of messages.
use thespian.Prelude.{
  ℕ, zero, suc, ◌≤◌, ◌<◌, ◌≡◌, refl, ap, ◌∙◌, Bool, true, false, List, [], ◌∷◌, ◌++◌, if◌then◌else◌,
  length, drop, arith, length-append, map, subst, ltb, Bool-cases, inl, inr, All,
}
use thespian.Cbor.Result.{Bytes}
use thespian.Cbor.Value.{Value, push_value}
use thespian.Cbor.PushSkip.{length-push_value}
use thespian.Actor.Send.{Sent, sent, refused, raised}
use thespian.Endpoint.Connection.{
  Connection, Effect, to_owner, close_socket, nothing, frame, next_frame, deliver, answered,
  read_loop, close, framed,
}
use thespian.Endpoint.Frames.{
  IsMessage, stream, truncated-match_type, next_frame-nothing, next_frame-message, first_nil,
  no_bytes, cut, short_of,
}

-- The messages to the owner among the effects.
abbrev pub messages : List Effect → List Bytes
messages [] = []
messages (to_owner m ∷ es) = m ∷ messages es
messages (_ ∷ es) = messages es

-- What is left of the buffer is shorter than the next message of the stream.
abbrev pub IsShort : List Value → Bytes → Type 0
IsShort [] l = l ≡ []
IsShort (v ∷ vs) l = length l < length (push_value v)

-- The loop has cut off the first messages of the stream, and waits for `q`.
pub record Framed (vs : List Value) (q name : Bytes) (c : Connection) (es : List Effect)
    : Type 0 where
  pub done : List Value
  pub todo : List Value
  pub split : vs ≡ done ++ todo
  pub sent : messages es ≡ map push_value done
  pub left : c.read_buf ++ q ≡ stream todo
  pub short : IsShort todo c.read_buf
  pub tag : c.tag ≡ name

-- An answer of a send that does not throw.
abbrev pub IsAnswer : Sent → Type 0
IsAnswer sent = Unit
IsAnswer (refused e) = Unit
IsAnswer (raised w) = ⊥

deliver-nothing :
    (a : Sent) (k : Connection → Connection × List Effect) (c : Connection)
    → deliver a k nothing c ≡ (c, [])
unfolding deliver
deliver-nothing sent k c = refl
deliver-nothing (refused e) k c = refl
deliver-nothing (raised w) k c = refl

read_loop-stop :
    (f : ℕ) (answers : ℕ → Sent) (c : Connection)
    → next_frame c.read_buf ≡ nothing
    → read_loop f answers c ≡ (c, [])
unfolding read_loop
read_loop-stop zero answers c h = refl
read_loop-stop (suc f) answers c h = by_buf c.read_buf h
  where
    by_buf :
        (b : Bytes)
        → next_frame b ≡ nothing
        → (elim b as (λ _. Connection × List Effect) [
          | [] ↦ (c, [])
          | _ ∷ _ ↦ deliver (answers 0) (read_loop f (λ i. answers (suc i))) (next_frame b) c
        ])
          ≡ (c, [])
    by_buf [] h = refl
    by_buf (x ∷ b) h = rw h (deliver-nothing (answers 0) (read_loop f (λ i. answers (suc i))) c)

-- A refusal adds no message.
answered-same :
    (ok : Bool) (rest : Bytes) (c : Connection)
    → ((answered ok rest c).0.read_buf ≡ rest)
      × ((answered ok rest c).0.tag ≡ c.tag)
      × ((es : List Effect) → messages ((answered ok rest c).1 ++ es) ≡ messages es)
unfolding answered close
answered-same true rest c = (refl, refl, λ es. refl)
answered-same false rest c = (refl, refl, λ es. by_pending c.write_pending es)
  where
    by_pending :
        (b : Bool) (es : List Effect)
        → messages ((if b then [] else close_socket ∷ []) ++ es) ≡ messages es
    by_pending true es = refl
    by_pending false es = refl

module _ (v : Value) (vs : List Value) (q rest : Bytes) (c : Connection) where
  more-Framed :
      (c' : Connection) (es after : List Effect)
      → messages (after ++ es) ≡ messages es
      → Framed vs q c.tag c' es
      → Framed (v ∷ vs) q c.tag c' (to_owner (push_value v) ∷ (after ++ es))
  more-Framed c' es after h r = record {
    done = v ∷ r.done;
    todo = r.todo;
    split = ap (λ l. v ∷ l) r.split;
    sent = ap (λ l. push_value v ∷ l) (h ∙ r.sent);
    left = r.left;
    short = r.short;
    tag = r.tag;
  }

  after_answer :
      (accepted : Bool) (k : Connection → Connection × List Effect)
      → ((c₂ : Connection)
          → c₂.read_buf ≡ rest
          → c₂.tag ≡ c.tag
          → Framed vs q c.tag (k c₂).0 (k c₂).1)
      → Framed (v ∷ vs) q c.tag (k (answered accepted rest c).0).0 (
          to_owner (push_value v)
          ∷ ((answered accepted rest c).1 ++ (k (answered accepted rest c).0).1))
  after_answer accepted k step =
      let (buf, name, same) = answered-same accepted rest c in
      let c₂ = (answered accepted rest c).0 in
      more-Framed (k c₂).0 (k c₂).1 (answered accepted rest c).1 (same (k c₂).1) (step c₂ buf name)

  deliver-Framed :
      (a : Sent) (k : Connection → Connection × List Effect)
      → IsAnswer a
      → ((c₂ : Connection)
          → c₂.read_buf ≡ rest
          → c₂.tag ≡ c.tag
          → Framed vs q c.tag (k c₂).0 (k c₂).1)
      → Framed
          (v ∷ vs)
          q
          c.tag
          (deliver a k (frame true (push_value v) rest) c).0
          (deliver a k (frame true (push_value v) rest) c).1
  unfolding deliver framed
  deliver-Framed sent k h step = after_answer true k step
  deliver-Framed (refused e) k h step = after_answer false k step
  deliver-Framed (raised w) k h step = absurd h

  read_loop-go :
      (f : ℕ) (answers : ℕ → Sent)
      → IsMessage v
      → c.read_buf ≡ push_value v ++ rest
      → read_loop (suc f) answers c
        ≡ deliver
            (answers 0)
            (read_loop f (λ i. answers (suc i)))
            (frame true (push_value v) rest)
            c
  unfolding read_loop
  read_loop-go f answers h e = by_buf c.read_buf e
    where
      by_buf :
          (b : Bytes)
          → b ≡ push_value v ++ rest
          → (elim b as (λ _. Connection × List Effect) [
            | [] ↦ (c, [])
            | _ ∷ _ ↦ deliver (answers 0) (read_loop f (λ i. answers (suc i))) (next_frame b) c
          ])
            ≡ deliver
                (answers 0)
                (read_loop f (λ i. answers (suc i)))
                (frame true (push_value v) rest)
                c
      by_buf [] d =
          absurd
            (omega (arith, ap length d, length-append (push_value v) rest, length-push_value v h.0))
      by_buf (x ∷ b) d =
          ap (λ fr. deliver (answers 0) (read_loop f (λ i. answers (suc i))) fr c)
            (ap next_frame d ∙ next_frame-message v rest h)

stop-Framed :
    (vs : List Value) (f : ℕ) (answers : ℕ → Sent) (c : Connection) (q : Bytes)
    → c.read_buf ++ q ≡ stream vs
    → IsShort vs c.read_buf
    → read_loop f answers c ≡ (c, [])
    → Framed vs q c.tag (read_loop f answers c).0 (read_loop f answers c).1
stop-Framed vs f answers c q e short stop = rw stop (record {
  done = [];
  todo = vs;
  split = refl;
  sent = refl;
  left = e;
  short = short;
  tag = refl;
})

short-Framed :
    (v : Value) (vs : List Value) (f : ℕ) (answers : ℕ → Sent) (c : Connection) (q : Bytes)
    → IsMessage v
    → c.read_buf ++ q ≡ stream (v ∷ vs)
    → length c.read_buf < length (push_value v)
    → Framed (v ∷ vs) q c.tag (read_loop f answers c).0 (read_loop f answers c).1
unfolding stream
short-Framed v vs f answers c q h e lt =
    let whole = short_of (push_value v) c.read_buf q (stream vs) e lt in
    let (x, d) = truncated-match_type v c.read_buf _ h.0 whole lt in
    stop-Framed (v ∷ vs) f answers c q e lt
      (read_loop-stop f answers c (next_frame-nothing c.read_buf x d))

-- The buffer begins a stream of messages: the loop sends the messages that are whole, and leaves the
-- beginning of the next one.
pub read_loop-Framed :
    (vs : List Value) (f : ℕ) (answers : ℕ → Sent) (c : Connection) (q : Bytes)
    → All IsMessage vs
    → ((i : ℕ) → IsAnswer (answers i))
    → c.read_buf ++ q ≡ stream vs
    → length c.read_buf ≤ f
    → Framed vs q c.tag (read_loop f answers c).0 (read_loop f answers c).1
unfolding stream
read_loop-Framed [] f answers c q h all e hf =
    let empty : c.read_buf ≡ [] = first_nil c.read_buf q e in
    stop-Framed [] f answers c q e empty
      (read_loop-stop f answers c (ap next_frame empty ∙ next_frame-nothing [] _ (no_bytes.1)))
read_loop-Framed (v ∷ vs) zero answers c q h all e hf =
    short-Framed v vs zero answers c q h.0 e (omega (arith, length-push_value v h.0.0))
read_loop-Framed (v ∷ vs) (suc f) answers c q h all e hf =
    elim (Bool-cases (ltb (length c.read_buf) (length (push_value v)))) [
      | inl short ↦
          let lt : length c.read_buf < length (push_value v) = ground arith in
          short-Framed v vs (suc f) answers c q h.0 e lt
      | inr long ↦
          let le : length (push_value v) ≤ length c.read_buf = ground arith in
          let (same, left) = cut (push_value v) c.read_buf q (stream vs) e le in
          let rest = drop (length (push_value v)) c.read_buf in
          rw (read_loop-go v vs q rest c f answers h.0 same) (
            deliver-Framed v vs q rest c (answers 0) (read_loop f (λ i. answers (suc i))) (all 0)
              (λ c₂ buf name.
                subst
                  (λ x.
                    Framed vs q x (read_loop f (λ i. answers (suc i)) c₂).0
                      (read_loop f (λ i. answers (suc i)) c₂).1)
                  name
                  (read_loop-Framed vs f (λ i. answers (suc i)) c₂ q h.1 (λ i. all (suc i))
                    (ap (λ l. l ++ q) buf ∙ left)
                    (omega (
                      arith,
                      ap length buf,
                      ap length same,
                      length-append (push_value v) rest,
                      length-push_value v h.0.0,
                    )))))
    ]
