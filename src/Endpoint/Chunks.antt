-- ===== src/Endpoint/Chunks.antt =====
-- The receiver of `endpoint::connection` over the chunks that a socket reads.
use thespian.Prelude.{
  ℕ, suc, ◌≡◌, ◌≢◌, refl, sym, ap, ◌∙◌, List, [], ◌∷◌, ◌++◌, none, some, length, arith,
  append_assoc, append-nil, length-append, map, subst, All,
}
use thespian.Prelude.Text.{codes}
use thespian.Prelude.Tests.{bytes_eq, bytes_eq_refl}
use thespian.Cbor.Result
use thespian.Cbor.Result.{Bytes, Error}
use thespian.Cbor.Value.{Value, nil, cons, push_value, IsValid}
use thespian.Cbor.Match.{Extracted, extract_int, extract_string, last, next, match_message, is_more}
use thespian.Cbor.Kind.{kind_eq}
use thespian.Cbor.Accepts.{elements, text_of, accepts, accepts_scalar}
use thespian.Cbor.Refinement.{match_message-push_value}
use thespian.Cbor.PushSkip.{length-push_value}
use thespian.Cbor.Dispatch.{when-some, when-none}
use thespian.Actor.Send.{Sent}
use thespian.Endpoint.Connection.{
  Connection, Effect, read_socket, start, read_loop, read_complete, socket_msg, receive,
}
use thespian.Endpoint.Frames.{IsMessage, stream}
use thespian.Endpoint.Framing.{messages, IsShort, IsAnswer, Framed, read_loop-Framed}

-- `dispatch_sync("socket", tag, "read_complete", chunk)`
abbrev pub read_msg : Bytes → Bytes → Value
read_msg tag chunk = Value.array (
    cons (Value.text (codes "socket")) (
      cons (Value.text tag)
        (cons (Value.text (codes "read_complete")) (cons (Value.text chunk) nil))))

abbrev pub IsText : Bytes → Type 0
IsText s = IsValid (Value.text s)

read_msg-IsValid : (tag chunk : Bytes) → IsText tag → IsText chunk → IsValid (read_msg tag chunk)
read_msg-IsValid tag chunk ht hc =
    (omega arith, ((omega arith, omega arith), (ht, ((omega arith, omega arith), (hc, tt)))))

module _ (c : Connection) (chunk : Bytes) (ht : IsText c.tag) (hc : IsText chunk) where
  no_error :
      match_message
        (socket_msg c "read_error" (next (extract_int 32) (last extract_string)))
        (push_value (read_msg c.tag chunk))
      ≡ Result.ok none
  unfolding accepts accepts_scalar elements text_of bytes_eq is_more kind_eq
  no_error =
      match_message-push_value _ (read_msg c.tag chunk) (read_msg-IsValid c.tag chunk ht hc)
      ∙ rw (bytes_eq_refl c.tag) refl

  is_read :
      match_message
        (socket_msg c "read_complete" (last extract_string))
        (push_value (read_msg c.tag chunk))
      ≡ Result.ok (some (Extracted.text chunk ∷ []))
  unfolding accepts accepts_scalar elements text_of bytes_eq is_more kind_eq
  is_read =
      match_message-push_value _ (read_msg c.tag chunk) (read_msg-IsValid c.tag chunk ht hc)
      ∙ rw (bytes_eq_refl c.tag) refl

  receive-read :
      (answers : ℕ → Sent)
      → receive answers c (push_value (read_msg c.tag chunk))
        ≡ read_complete answers c (Extracted.text chunk ∷ [])
  unfolding receive
  receive-read answers = when-none _ _ _ _ _ no_error ∙ when-some _ _ _ _ _ _ is_read

-- The receiver over one chunk after the other. `answers i` has what the sends of the call `i` answer.
unfoldable pub feed : (ℕ → ℕ → Sent) → Connection → List Bytes → Connection × List Effect
feed answers c [] = (c, [])
feed answers c (s ∷ ss) =
    let a = receive (answers 0) c (push_value (read_msg c.tag s)) in
    let (c', es) = feed (λ i. answers (suc i)) a.connection ss in (c', a.effects ++ es)

abbrev pub concat : List Bytes → Bytes
concat [] = []
concat (s ∷ ss) = s ++ concat ss

-- A chunk that a read yields: not empty, which would be the end of the stream.
abbrev pub IsChunk : Bytes → Type 0
IsChunk s = IsText s × (s ≢ [])

messages-append : (es es' : List Effect) → messages (es ++ es') ≡ messages es ++ messages es'
messages-append [] es' = refl
messages-append (Effect.to_owner m ∷ es) es' = ap (λ l. m ∷ l) (messages-append es es')
messages-append (read_socket ∷ es) es' = messages-append es es'
messages-append (Effect.write_socket m ∷ es) es' = messages-append es es'
messages-append (Effect.close_socket ∷ es) es' = messages-append es es'

map-append : (f : Value → Bytes) (xs ys : List Value) → map f (xs ++ ys) ≡ map f xs ++ map f ys
map-append f [] ys = refl
map-append f (x ∷ xs) ys = ap (λ l. f x ∷ l) (map-append f xs ys)

All-todo : (xs ys : List Value) → All IsMessage (xs ++ ys) → All IsMessage ys
All-todo [] ys h = h
All-todo (x ∷ xs) ys h = All-todo xs ys h.1

module _ (answers : ℕ → Sent) (fine : (i : ℕ) → IsAnswer (answers i)) where
  -- One chunk.
  chunk-Framed :
      (vs : List Value) (c : Connection) (s q : Bytes)
      → IsText c.tag
      → IsChunk s
      → All IsMessage vs
      → c.read_buf ++ (s ++ q) ≡ stream vs
      → Framed vs q c.tag
          (receive answers c (push_value (read_msg c.tag s))).connection
          (receive answers c (push_value (read_msg c.tag s))).effects
  unfolding read_complete
  chunk-Framed vs c [] q ht hs h e = absurd (hs.1 refl)
  chunk-Framed vs c (b ∷ bs) q ht hs h e =
      let buf = c.read_buf ++ (b ∷ bs) in
      let r =
        read_loop-Framed vs (length buf) answers (record c { read_buf = buf }) q h fine
          (append_assoc c.read_buf (b ∷ bs) q ∙ e) (omega arith) in
      let sends = (read_loop (length buf) answers (record c { read_buf = buf })).1 in
      rw (receive-read c (b ∷ bs) ht hs.0 answers) (record {
        done = r.done;
        todo = r.todo;
        split = r.split;
        sent = messages-append sends (read_socket ∷ []) ∙ append-nil (messages sends) ∙ r.sent;
        left = r.left;
        short = r.short;
        tag = r.tag;
      })

-- The connection keeps to the stream over any number of chunks.
pub feed-Framed :
    (ss : List Bytes) (vs : List Value) (answers : ℕ → ℕ → Sent) (c : Connection) (q : Bytes)
    → ((i j : ℕ) → IsAnswer (answers i j))
    → IsText c.tag
    → All IsChunk ss
    → All IsMessage vs
    → c.read_buf ++ (concat ss ++ q) ≡ stream vs
    → IsShort vs c.read_buf
    → Framed vs q c.tag (feed answers c ss).0 (feed answers c ss).1
unfolding feed
feed-Framed [] vs answers c q fine ht hs h e short = record {
  done = [];
  todo = vs;
  split = refl;
  sent = refl;
  left = e;
  short = short;
  tag = refl;
}
feed-Framed (s ∷ ss) vs answers c q fine ht hs h e short =
    let c' = (receive (answers 0) c (push_value (read_msg c.tag s))).connection in
    let r =
      chunk-Framed (answers 0) (fine 0) vs c s (concat ss ++ q) ht hs.0 h
        (ap (λ l. c.read_buf ++ l) (sym (append_assoc s (concat ss) q)) ∙ e) in
    let todo : All IsMessage r.todo = All-todo r.done r.todo (subst (All IsMessage) r.split h) in
    let ht' : IsText c'.tag = subst IsText (sym r.tag) ht in
    let r' =
      feed-Framed ss r.todo (λ i. answers (suc i)) c' q (λ i. fine (suc i)) ht' hs.1 todo r.left
        r.short in
    record {
      done = r.done ++ r'.done;
      todo = r'.todo;
      split = r.split ∙ ap (λ l. r.done ++ l) r'.split ∙ sym (append_assoc r.done r'.done r'.todo);
      sent =
          messages-append (receive (answers 0) c (push_value (read_msg c.tag s))).effects
            (feed (λ i. answers (suc i)) c' ss).1
          ∙ ap (λ l. l ++ messages (feed (λ i. answers (suc i)) c' ss).1) r.sent
          ∙ ap (λ l. map push_value r.done ++ l) r'.sent
          ∙ sym (map-append push_value r.done r'.done);
      left = r'.left;
      short = r'.short;
      tag = r'.tag ∙ r.tag;
    }

pub nothing_todo :
    (vs done todo : List Value) (c : Connection)
    → vs ≡ done ++ todo
    → c.read_buf ++ [] ≡ stream todo
    → IsShort todo c.read_buf
    → (done ≡ vs) × (c.read_buf ≡ [])
unfolding stream
nothing_todo vs done [] c split left short = (sym (split ∙ append-nil done), short)
nothing_todo vs done (v ∷ todo) c split left short = absurd (
    omega (
      arith,
      ap length left,
      length-append (push_value v) (stream todo),
      length-append c.read_buf [],
    ))

pub start-IsShort : (vs : List Value) → All IsMessage vs → IsShort vs []
start-IsShort [] h = refl
start-IsShort (v ∷ vs) h = omega (arith, length-push_value v h.0.0)

-- A peer sends messages one behind the other, and the socket reads this stream in chunks, cut
-- anywhere, while no send to the owner throws: the owner of a new connection is sent exactly these
-- messages, in order, and nothing is left in the buffer. A message is a valid array, map or null.
pub feed-stream :
    (tag : Bytes) (vs : List Value) (ss : List Bytes) (answers : ℕ → ℕ → Sent)
    → ((i j : ℕ) → IsAnswer (answers i j))
    → IsText tag
    → All IsMessage vs
    → All IsChunk ss
    → concat ss ≡ stream vs
    → (messages (feed answers (start tag).0 ss).1 ≡ map push_value vs)
      × ((feed answers (start tag).0 ss).0.read_buf ≡ [])
unfolding start
feed-stream tag vs ss answers fine ht hv hs e =
    let r =
      feed-Framed ss vs answers (start tag).0 [] fine ht hs hv (append-nil (concat ss) ∙ e)
        (start-IsShort vs hv) in
    let (all, empty) =
      nothing_todo vs r.done r.todo (feed answers (start tag).0 ss).0 r.split r.left r.short in
    (r.sent ∙ ap (map push_value) all, empty)
