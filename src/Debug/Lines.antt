-- ===== src/Debug/Lines.antt =====
-- The lines that a debug connection reads (`connection` of src/instance.cpp): each is sent to the actor
-- itself as ["dispatch", line].
use thespian.Prelude.{
  ℕ, zero, suc, ◌<◌, ◌≤◌, ◌≡◌, refl, sym, ap, ◌∙◌, true, false, List, [], ◌∷◌, ◌++◌, Option, none,
  some, ◌==◌, if◌then◌else◌, length, append_assoc, append-nil, map, All, Bool-cases, inl, inr, ◌⊎◌,
  subst, arith,
}
use thespian.Cbor.Result.{Bytes}
use thespian.Actor.Messages.{concat}

pub data Effect : Type 0 where
  dispatch : Bytes → Effect
  read_socket : Effect
  close_socket : Effect

abbrev longer : ℕ → Option (Bytes × Bytes) → Option (Bytes × Bytes)
longer c none = none
longer c (some (line, rest)) = some (c ∷ line, rest)

-- `find_first_of('\n')`, with what is before and behind it.
unfoldable pub cut : Bytes → Option (Bytes × Bytes)
cut [] = none
cut (c ∷ cs) = let more = longer c (cut cs) in if c == 10 then some ([], cs) else more

-- The loop over the buffer: each round takes a character at least.
unfoldable pub read_lines : ℕ → Bytes → List Bytes × Bytes
unfolding cut
read_lines zero buf = ([], buf)
read_lines (suc f) buf = elim (cut buf) [
  | none ↦ ([], buf)
  | some (line, rest) ↦ let (lines, left) = read_lines f rest in (line ∷ lines, left)
]

-- The branch of `read_complete`: `prev_buf` is what was left of the reads before.
unfoldable pub read_complete : Bytes → Bytes → List Effect × Bytes
unfolding read_lines
read_complete [] prev_buf = (close_socket ∷ [], prev_buf)
read_complete (c ∷ cs) prev_buf =
    let buf = prev_buf ++ (c ∷ cs) in
    let (lines, left) = read_lines (length buf) buf in
    (map dispatch lines ++ (read_socket ∷ []), left)

-- The lines that are sent on.
abbrev pub dispatched : List Effect → List Bytes
dispatched [] = []
dispatched (dispatch line ∷ es) = line ∷ dispatched es
dispatched (read_socket ∷ es) = dispatched es
dispatched (close_socket ∷ es) = dispatched es

-- The lines of a series of reads, and what is left.
unfoldable pub reads : List Bytes → Bytes → List Bytes × Bytes
unfolding read_complete
reads [] prev_buf = ([], prev_buf)
reads (chunk ∷ chunks) prev_buf =
    let (es, left) = read_complete chunk prev_buf in
    let (lines, left') = reads chunks left in (dispatched es ++ lines, left')

-- The lines of a text, and what is behind the last newline.
abbrev before : ℕ → List Bytes × Bytes → List Bytes × Bytes
before c ([], left) = ([], c ∷ left)
before c (line ∷ lines, left) = ((c ∷ line) ∷ lines, left)

abbrev line_end : List Bytes × Bytes → List Bytes × Bytes
line_end (lines, left) = ([] ∷ lines, left)

unfoldable pub lines_of : Bytes → List Bytes × Bytes
lines_of [] = ([], [])
lines_of (c ∷ cs) = let r = lines_of cs in if c == 10 then line_end r else before c r

-- Lines that come before others.
abbrev after : List Bytes → List Bytes × Bytes → List Bytes × Bytes
after lines (lines', left) = (lines ++ lines', left)

lines_of_end : (cs : Bytes) → lines_of (10 ∷ cs) ≡ line_end (lines_of cs)
unfolding lines_of
lines_of_end cs = refl

lines_of_other :
    (c : ℕ) (cs : Bytes) → (c == 10) ≡ false → lines_of (c ∷ cs) ≡ before c (lines_of cs)
unfolding lines_of
lines_of_other c cs e = rw (e, lines_of) refl

cut_other : (c : ℕ) (cs : Bytes) → (c == 10) ≡ false → cut (c ∷ cs) ≡ longer c (cut cs)
unfolding cut
cut_other c cs e = rw (e, cut) refl

lines_of_newline :
    (c : ℕ) (cs : Bytes) → (c == 10) ≡ true → lines_of (c ∷ cs) ≡ line_end (lines_of cs)
unfolding lines_of
lines_of_newline c cs e = rw (e, lines_of) refl

cut_newline : (c : ℕ) (cs : Bytes) → (c == 10) ≡ true → cut (c ∷ cs) ≡ some ([], cs)
unfolding cut
cut_newline c cs e = rw (e, cut) refl

lines_of-append :
    (xs ys : Bytes) → lines_of (xs ++ ys) ≡ after (lines_of xs).0 (lines_of ((lines_of xs).1 ++ ys))
unfolding lines_of
lines_of-append [] ys = refl
lines_of-append (c ∷ xs) ys = elim (Bool-cases (c == 10)) [
  | inl e ↦
      lines_of_newline c (xs ++ ys) e
      ∙ ap line_end (lines_of-append xs ys)
      ∙ ap rest_of (sym (lines_of_newline c xs e))
  | inr e ↦
      lines_of_other c (xs ++ ys) e
      ∙ ap (before c) (lines_of-append xs ys)
      ∙ joined e (lines_of xs)
      ∙ ap rest_of (sym (lines_of_other c xs e))
]
  where
    rest_of : List Bytes × Bytes → List Bytes × Bytes
    rest_of p = after p.0 (lines_of (p.1 ++ ys))

    joined :
        (c == 10) ≡ false
        → (p : List Bytes × Bytes)
        → before c (after p.0 (lines_of (p.1 ++ ys))) ≡ rest_of (before c p)
    joined e ([], t) = sym (lines_of_other c (t ++ ys) e)
    joined e (l ∷ ls, t) = refl

lines_of-left : (xs : Bytes) → lines_of (lines_of xs).1 ≡ ([], (lines_of xs).1)
unfolding lines_of
lines_of-left [] = refl
lines_of-left (c ∷ xs) = elim (Bool-cases (c == 10)) [
  | inl e ↦ subst IsLeft (sym (lines_of_newline c xs e)) (lines_of-left xs)
  | inr e ↦
      subst IsLeft (sym (lines_of_other c xs e)) (longer_left e (lines_of xs) (lines_of-left xs))
]
  where
    IsLeft : List Bytes × Bytes → Type 0
    IsLeft p = lines_of p.1 ≡ ([], p.1)

    longer_left : (c == 10) ≡ false → (p : List Bytes × Bytes) → IsLeft p → IsLeft (before c p)
    longer_left e ([], t) h = lines_of_other c t e ∙ ap (before c) h
    longer_left e (l ∷ ls, t) h = h

cut_lem :
    (buf : Bytes)
    → ((cut buf ≡ none) × (lines_of buf ≡ ([], buf)))
      ⊎ ((l : Bytes) × (r : Bytes) × (cut buf ≡ some (l, r))
          × (lines_of buf ≡ after (l ∷ []) (lines_of r))
          × (length r < length buf))
cut_lem [] = inl (unfold cut in refl, unfold lines_of in refl)
cut_lem (c ∷ cs) = elim (Bool-cases (c == 10)) [
  | inl e ↦ inr ([], cs, cut_newline c cs e, lines_of_newline c cs e, omega arith)
  | inr e ↦ elim (cut_lem cs) [
    | inl (a, b) ↦ inl (cut_other c cs e ∙ ap (longer c) a, lines_of_other c cs e ∙ ap (before c) b)
    | inr (l, r, a, b, n) ↦ inr (
      c ∷ l,
      r,
      cut_other c cs e ∙ ap (longer c) a,
      lines_of_other c cs e ∙ ap (before c) b,
      omega arith,
    )
  ]
]

read_lines-lines_of : (f : ℕ) (buf : Bytes) → length buf ≤ f → read_lines f buf ≡ lines_of buf
unfolding read_lines
read_lines-lines_of zero [] h = unfold lines_of in refl
read_lines-lines_of zero (c ∷ cs) h = absurd (omega arith)
read_lines-lines_of (suc f) buf h = elim (cut_lem buf) [
  | inl (a, b) ↦ rw (a, read_lines) (sym b)
  | inr (l, r, a, b, n) ↦
      rw (a, read_lines) (ap (after (l ∷ [])) (read_lines-lines_of f r (omega arith)) ∙ sym b)
]

dispatched-map :
    (lines : List Bytes) → dispatched (map dispatch lines ++ (read_socket ∷ [])) ≡ lines
dispatched-map [] = refl
dispatched-map (l ∷ lines) = ap (λ ls. l ∷ ls) (dispatched-map lines)

abbrev pub IsFilled : Bytes → Type 0
IsFilled [] = ⊥
IsFilled (c ∷ cs) = Unit

-- Whatever the parts are in which a text is read, the connection dispatches the lines of the whole text,
-- each once and in order, and keeps what is behind the last newline for the next read.
pub reads-lines_of :
    (chunks : List Bytes) (prev_buf : Bytes)
    → All IsFilled chunks
    → lines_of prev_buf ≡ ([], prev_buf)
    → reads chunks prev_buf ≡ lines_of (prev_buf ++ concat chunks)
unfolding reads read_complete concat
reads-lines_of [] prev_buf hc h = sym h ∙ ap lines_of (sym (append-nil prev_buf))
reads-lines_of ([] ∷ chunks) prev_buf hc h = absurd hc.0
reads-lines_of ((c ∷ cs) ∷ chunks) prev_buf hc h =
    let buf = prev_buf ++ (c ∷ cs) in
    let whole = read_lines-lines_of (length buf) buf (omega arith) in
    ap
      (λ (p : List Bytes × Bytes).
        let r = reads chunks p.1 in
        (dispatched (map dispatch p.0 ++ (read_socket ∷ [])) ++ r.0, r.1))
      whole
    ∙ ap (λ ls. after ls (reads chunks (lines_of buf).1)) (dispatched-map (lines_of buf).0)
    ∙ ap (after (lines_of buf).0) (reads-lines_of chunks (lines_of buf).1 hc.1 (lines_of-left buf))
    ∙ sym (lines_of-append buf (concat chunks))
    ∙ ap lines_of (append_assoc prev_buf (c ∷ cs) (concat chunks))
