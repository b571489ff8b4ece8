-- ===== src/Trace/File.antt =====
-- `trace_file` of src/trace.cpp: threads push messages on a list without a lock; one of them at a time
-- takes the whole list, turns it around and writes it.
use thespian.Prelude.{
  ◌+◌, ◌≡◌, ◌≢◌, refl, sym, ap, ◌∙◌, subst, List, [], ◌∷◌, ◌++◌, Option, none, some, length, All,
  append_assoc, append-nil, length-append, ◌⊎◌, inl, inr, arith,
}
use thespian.Cbor.Result.{Bytes, Error, Result, ok, err}

-- `head` has the newest message first. `writing` is what the thread in `do_work` still has to write,
-- `none` while no thread holds the mutex. `lost` is what no thread has any more.
pub record TraceFile : Type 0 where
  pub head : List Bytes
  pub writing : Option (List Bytes)
  pub file : List Bytes
  pub lost : List Bytes

-- The loop of `reverse`: each node is put before those that were turned already.
unfoldable pub reverse_onto : List Bytes → List Bytes → List Bytes
reverse_onto prev [] = prev
reverse_onto prev (p ∷ ps) = reverse_onto (p ∷ prev) ps

unfoldable pub reverse : List Bytes → List Bytes
unfolding reverse_onto
reverse p = reverse_onto [] p

-- The moves of the threads, in any order: a compare-exchange of `push` succeeds; a thread gets the
-- mutex and takes the list; it writes a message; it releases the mutex. Where `on_trace` throws, the
-- mutex is released, and the message and all behind it are lost.
pub data Step (on_trace : Bytes → Result Bytes) (s : TraceFile)
    : Option Bytes → TraceFile → Type 0 where
  pushes : (m : Bytes) → Step on_trace s (some m) (record s { head = m ∷ s.head })
  takes :
      s.writing ≡ none
      → Step on_trace s none (record s { head = []; writing = some (reverse s.head) })
  writes :
      (m t : Bytes) (ms : List Bytes)
      → s.writing ≡ some (m ∷ ms)
      → on_trace m ≡ ok t
      → Step on_trace s none (record s { writing = some ms; file = s.file ++ (m ∷ []) })
  throws :
      (m : Bytes) (ms : List Bytes) (e : Error)
      → s.writing ≡ some (m ∷ ms)
      → on_trace m ≡ err e
      → Step on_trace s none (record s { writing = none; lost = s.lost ++ (m ∷ ms) })
  releases : s.writing ≡ some [] → Step on_trace s none (record s { writing = none })

-- A run, with the messages that were pushed in it, oldest first.
pub data Run (on_trace : Bytes → Result Bytes) : List Bytes → TraceFile → Type 0 where
  start : Run on_trace [] (record { head = []; writing = none; file = []; lost = [] })
  quiet :
      {l : List Bytes} {s t : TraceFile}
      → Run on_trace l s
      → Step on_trace s none t
      → Run on_trace l t
  push :
      {l : List Bytes} {s t : TraceFile} (m : Bytes)
      → Run on_trace l s
      → Step on_trace s (some m) t
      → Run on_trace (l ++ (m ∷ [])) t

abbrev pub held : Option (List Bytes) → List Bytes
held none = []
held (some ms) = ms

-- What is written, what is being written, and what waits.
abbrev pub contents : TraceFile → List Bytes
contents s = s.file ++ (held s.writing ++ reverse s.head)

-- The first list is the second one with some of its elements left out.
pub data Sub : List Bytes → List Bytes → Type 0 where
  done : Sub [] []
  keep : {xs ys : List Bytes} (x : Bytes) → Sub xs ys → Sub (x ∷ xs) (x ∷ ys)
  skip : {xs ys : List Bytes} (y : Bytes) → Sub xs ys → Sub xs (y ∷ ys)

Sub-refl : (xs : List Bytes) → Sub xs xs
Sub-refl [] = done
Sub-refl (x ∷ xs) = keep x (Sub-refl xs)

Sub-trans : {xs ys zs : List Bytes} → Sub xs ys → Sub ys zs → Sub xs zs
Sub-trans a done = a
Sub-trans a (skip z b) = skip z (Sub-trans a b)
Sub-trans (keep _ a) (keep y b) = keep y (Sub-trans a b)
Sub-trans (skip _ a) (keep z b) = skip z (Sub-trans a b)

Sub-push : {xs ys : List Bytes} (m : Bytes) → Sub xs ys → Sub (xs ++ (m ∷ [])) (ys ++ (m ∷ []))
Sub-push m done = keep m done
Sub-push m (keep x a) = keep x (Sub-push m a)
Sub-push m (skip y a) = skip y (Sub-push m a)

Sub-behind : (xs ys : List Bytes) → Sub ys (xs ++ ys)
Sub-behind [] ys = Sub-refl ys
Sub-behind (x ∷ xs) ys = skip x (Sub-behind xs ys)

Sub-ahead : (ws : List Bytes) {xs ys : List Bytes} → Sub xs ys → Sub (ws ++ xs) (ws ++ ys)
Sub-ahead [] a = a
Sub-ahead (w ∷ ws) a = keep w (Sub-ahead ws a)

reverse_onto_lem : (prev p : List Bytes) → reverse_onto prev p ≡ reverse_onto [] p ++ prev
unfolding reverse_onto
reverse_onto_lem prev [] = refl
reverse_onto_lem prev (x ∷ p) =
    reverse_onto_lem (x ∷ prev) p
    ∙ sym (append_assoc (reverse_onto [] p) (x ∷ []) prev)
    ∙ ap (λ l. l ++ prev) (sym (reverse_onto_lem (x ∷ []) p))

reverse-cons : (m : Bytes) (p : List Bytes) → reverse (m ∷ p) ≡ reverse p ++ (m ∷ [])
unfolding reverse reverse_onto
reverse-cons m p = reverse_onto_lem (m ∷ []) p

module _ (on_trace : Bytes → Result Bytes) where
  pushed-contents :
      {s t : TraceFile} {m : Bytes}
      → Step on_trace s (some m) t
      → (contents t ≡ contents s ++ (m ∷ [])) × (t.lost ≡ s.lost)
  pushed-contents {s} (pushes m) = (
    ap (λ l. s.file ++ (held s.writing ++ l)) (reverse-cons m s.head)
        ∙ ap (λ l. s.file ++ l) (sym (append_assoc (held s.writing) (reverse s.head) (m ∷ [])))
        ∙ sym (append_assoc s.file (held s.writing ++ reverse s.head) (m ∷ [])),
    refl,
  )

  -- What a step that pushes nothing makes of the contents: they stay, or `on_trace` throws on one of
  -- them, and they lose it with what was taken with it.
  quiet-contents :
      {s t : TraceFile}
      → Step on_trace s none t
      → ((contents t ≡ contents s) × (t.lost ≡ s.lost))
        ⊎ ((m : Bytes) × (ms : List Bytes) × (e : Error) × (on_trace m ≡ err e)
            × (contents s ≡ s.file ++ ((m ∷ ms) ++ reverse s.head))
            × (contents t ≡ s.file ++ reverse s.head)
            × (t.lost ≡ s.lost ++ (m ∷ ms)))
  unfolding reverse reverse_onto
  quiet-contents {s} (takes e) =
      let idle : held s.writing ≡ [] = ap held e in
      inl (
        ap (λ l. s.file ++ l) (append-nil (reverse s.head))
            ∙ ap (λ l. s.file ++ (l ++ reverse s.head)) (sym idle),
        refl,
      )
  quiet-contents {s} (writes m t ms e w) =
      let held_now : held s.writing ≡ m ∷ ms = ap held e in
      inl (
        append_assoc s.file (m ∷ []) (ms ++ reverse s.head)
            ∙ ap (λ l. s.file ++ (l ++ reverse s.head)) (sym held_now),
        refl,
      )
  quiet-contents {s} (throws m ms x e w) =
      let held_now : held s.writing ≡ m ∷ ms = ap held e in
      inr (m, ms, x, w, ap (λ l. s.file ++ (l ++ reverse s.head)) held_now, refl, refl)
  quiet-contents {s} (releases e) =
      let none_held : held s.writing ≡ [] = ap held e in
      inl (ap (λ l. s.file ++ (l ++ reverse s.head)) (sym none_held), refl)

  -- In every run, however the threads are interleaved, what is in the file, what is being written and
  -- what waits on the list are messages that were pushed, in the order of their pushes, none doubled;
  -- with those that an exception of `on_trace` has lost they are as many as were pushed.
  pub Run-contents :
      {l : List Bytes} {s : TraceFile}
      → Run on_trace l s
      → Sub (contents s) l × (length (contents s) + length s.lost ≡ length l)
  unfolding reverse reverse_onto
  Run-contents start = (done, refl)
  Run-contents (quiet {l} {s} {t} r st) =
      let (sub, all) = Run-contents r in
      elim (quiet-contents st) [
        | inl (same, none_lost) ↦
            (rw same sub, omega (arith, all, ap length same, ap length none_lost))
        | inr (m, ms, e, w, before, after, gone) ↦
            let dropped = Sub-ahead s.file (Sub-behind (m ∷ ms) (reverse s.head)) in
            (
              subst (λ x. Sub x l) (sym after)
                  (Sub-trans dropped (subst (λ x. Sub x l) before sub)),
              omega (
                arith,
                all,
                ap length before,
                ap length after,
                ap length gone,
                length-append s.file ((m ∷ ms) ++ reverse s.head),
                length-append (m ∷ ms) (reverse s.head),
                length-append s.file (reverse s.head),
                length-append s.lost (m ∷ ms),
              ),
            )
      ]
  Run-contents (push {l} {s} {t} m r st) =
      let (sub, all) = Run-contents r in
      let (more, same) = pushed-contents st in
      (
        subst (λ x. Sub x (l ++ (m ∷ []))) (sym more) (Sub-push m sub),
        omega (
          arith,
          all,
          ap length more,
          ap length same,
          length-append (contents s) (m ∷ []),
          length-append l (m ∷ []),
        ),
      )

  -- `on_trace` does not throw on it.
  abbrev pub IsTraced : Bytes → Type 0
  IsTraced m = (e : Error) → on_trace m ≢ err e

  All-middle :
      (P : Bytes → Type 0) (xs : List Bytes) (m : Bytes) (ys : List Bytes)
      → All P (xs ++ (m ∷ ys))
      → P m
  All-middle P [] m ys h = h.0
  All-middle P (x ∷ xs) m ys h = All-middle P xs m ys h.1

  All-left : (P : Bytes → Type 0) (xs ys : List Bytes) → All P (xs ++ ys) → All P xs
  All-left P [] ys h = tt
  All-left P (x ∷ xs) ys h = (h.0, All-left P xs ys h.1)

  -- Where `on_trace` throws on none of the messages that are pushed, what is in the file, what is being
  -- written and what waits are all of these messages, in the order of their pushes.
  pub Run-whole :
      {l : List Bytes} {s : TraceFile} → Run on_trace l s → All IsTraced l → contents s ≡ l
  unfolding reverse reverse_onto
  Run-whole start h = refl
  Run-whole (quiet {l} {s} r st) h = elim (quiet-contents st) [
    | inl (same, none_lost) ↦ same ∙ Run-whole r h
    | inr (m, ms, e, w, before, after, gone) ↦ absurd (
        All-middle IsTraced s.file m (ms ++ reverse s.head)
          (subst (All IsTraced) (sym (Run-whole r h) ∙ before) h) e w)
  ]
  Run-whole (push {l} m r st) h =
      (pushed-contents st).0
      ∙ ap (λ x. x ++ (m ∷ [])) (Run-whole r (All-left IsTraced l (m ∷ []) h))
