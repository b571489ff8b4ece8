-- ===== src/Cbor/Json/Paths.antt =====
-- The two paths of `push_json` for strings: `push_json_qstring` and `push_json_qstring_slow` of src/cbor.cpp.
use thespian.Prelude.{
  ◌≡◌, refl, sym, ap, ◌∙◌, false, [], ◌∷◌, Option, none, some, ◌==◌, Bool-cases, Option-cases, inl,
  inr, ◌⊎◌,
}
use thespian.Cbor.Result.{Bytes}
use thespian.Cbor.Buffer.{push_string}
use thespian.Cbor.Json.{
  match_char, prepend, unescape, pushed, push_json_qstring_slow, Scan, unterminated, is_escaped,
  closed, longer, scan, scan_json_qstring, push_json_qstring,
}

abbrev finish : Option (Bytes × Bytes) → Scan → Option (Bytes × Bytes)
finish slow unterminated = none
finish slow is_escaped = slow
finish slow (closed s rest) = some (s, rest)

scan-unescape : (cs : Bytes) → finish (unescape false cs) (scan cs) ≡ unescape false cs
unfolding scan unescape
scan-unescape [] = refl
scan-unescape (c ∷ cs) = elim (Bool-cases (c == 92)) [
  | inl e ↦ rw e refl
  | inr e ↦ elim (Bool-cases (c == 34)) [
    | inl q ↦ rw (e, q) refl
    | inr q ↦ rw (e, q) (one (scan cs) (unescape false cs) (scan-unescape cs))
  ]
]
  where
    one :
        (r : Scan) (slow : Option (Bytes × Bytes))
        → finish slow r ≡ slow
        → finish (prepend c slow) (longer c r) ≡ prepend c slow
    one unterminated slow h = ap (prepend c) h
    one is_escaped slow h = refl
    one (closed s rest) slow h = ap (prepend c) h

by_scan :
    (r : Scan) (slow out : Option (Bytes × Bytes))
    → finish slow r ≡ slow
    → out ≡ pushed slow
    → (elim r [
      | unterminated ↦ none
      | is_escaped ↦ out
      | closed s rest ↦ some (push_string s, rest)
    ])
      ≡ pushed slow
by_scan unterminated slow out e k = ap pushed e
by_scan is_escaped slow out e k = k
by_scan (closed s rest) slow out e k = ap pushed e

pub slow_lem :
    (bs cs : Bytes)
    → match_char 34 bs ≡ some cs
    → push_json_qstring_slow bs ≡ pushed (unescape false cs)
unfolding push_json_qstring_slow
slow_lem bs cs h = rw (h, push_json_qstring_slow) refl

fast_lem :
    (bs cs : Bytes) → match_char 34 bs ≡ some cs → push_json_qstring bs ≡ pushed (unescape false cs)
unfolding push_json_qstring scan_json_qstring
fast_lem bs cs h =
    rw (h, push_json_qstring, scan_json_qstring)
      (by_scan (scan cs) (unescape false cs) (push_json_qstring_slow bs) (scan-unescape cs)
        (slow_lem bs cs h))

no_quote : (bs : Bytes) → match_char 34 bs ≡ none → push_json_qstring bs ≡ push_json_qstring_slow bs
unfolding push_json_qstring push_json_qstring_slow scan_json_qstring
no_quote bs h = rw (h, push_json_qstring, push_json_qstring_slow, scan_json_qstring) refl

pub push_json_qstring_lem : (bs : Bytes) → push_json_qstring bs ≡ push_json_qstring_slow bs
push_json_qstring_lem bs = elim (Option-cases (match_char 34 bs)) [
  | inl h ↦ no_quote bs h
  | inr (cs, h) ↦ fast_lem bs cs h ∙ sym (slow_lem bs cs h)
]

-- Where a path leaves the iterator if it returns false: the slow path moves it over the quote and on to
-- the end, the fast path only where it calls the slow one.
unfoldable pub slow_stop : Bytes → Bytes
unfolding match_char
slow_stop bs = elim (match_char 34 bs) [ none ↦ bs | some cs ↦ [] ]

unfoldable pub fast_stop : Bytes → Bytes
unfolding scan_json_qstring slow_stop
fast_stop bs = elim (scan_json_qstring bs) [
  | unterminated ↦ bs
  | is_escaped ↦ slow_stop bs
  | closed s rest ↦ bs
]

stops :
    (bs cs : Bytes)
    → match_char 34 bs ≡ some cs
    → (fast_stop bs ≡ slow_stop bs) ⊎ ((fast_stop bs ≡ bs) × (slow_stop bs ≡ []))
unfolding fast_stop scan_json_qstring slow_stop
stops bs cs h = by_scan_of (scan cs) refl
  where
    by_scan_of :
        (r : Scan)
        → scan cs ≡ r
        → (fast_stop bs ≡ slow_stop bs) ⊎ ((fast_stop bs ≡ bs) × (slow_stop bs ≡ []))
    by_scan_of unterminated e =
        inr (rw (h, fast_stop, scan_json_qstring, e) refl, rw (h, slow_stop) refl)
    by_scan_of is_escaped e = inl (rw (h, fast_stop, scan_json_qstring, e) refl)
    by_scan_of (closed s rest) e =
        inr (rw (h, fast_stop, scan_json_qstring, e) refl, rw (h, slow_stop) refl)

-- The fast path for strings without escapes returns true on the inputs on which the slow path does, and
-- pushes the same bytes and leaves the same rest there. Where both return false, they leave the iterator
-- at the same place, or the fast path at the start and the slow path at the end of the text.
pub qstring_paths :
    (bs : Bytes)
    → (push_json_qstring bs ≡ push_json_qstring_slow bs)
      × ((fast_stop bs ≡ slow_stop bs) ⊎ ((fast_stop bs ≡ bs) × (slow_stop bs ≡ [])))
unfolding fast_stop slow_stop scan_json_qstring
qstring_paths bs = (
  push_json_qstring_lem bs,
  elim (Option-cases (match_char 34 bs)) [
    | inl h ↦ inl (rw (h, fast_stop, slow_stop, scan_json_qstring) refl)
    | inr (cs, h) ↦ stops bs cs h
  ],
)
