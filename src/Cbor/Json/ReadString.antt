-- ===== src/Cbor/Json/ReadString.antt =====
-- The text of a string, read back by `push_json_qstring`.
use thespian.Prelude.{
  ℕ, ◌≤◌, ◌≡◌, refl, sym, ap, ◌∙◌, subst, false, [], ◌∷◌, ◌++◌, some, ltb, ◌==◌, ==_iff, Bool-cases,
  append_assoc, ◌⊎◌, inl, inr, All, arith,
}
use thespian.Cbor.Result.{Bytes}
use thespian.Cbor.Buffer.{push_string}
use thespian.Cbor.Json.{prepend, pushed, match_char, unescape, push_json_qstring}
use thespian.Cbor.Json.Paths.{slow_lem, push_json_qstring_lem}
use thespian.Cbor.Json.Print.{escaped, all_escaped, string_to_json}

-- The characters that are read as they were written: a control character is, where it has a letter of
-- its own behind the backslash.
abbrev pub IsReadable : ℕ → Type 0
IsReadable c = (32 ≤ c) ⊎ ((c ≡ 8) ⊎ ((c ≡ 9) ⊎ ((c ≡ 10) ⊎ ((c ≡ 12) ⊎ (c ≡ 13)))))

abbrev ReadsBack : Bytes → ℕ → Type 0
ReadsBack rest c = unescape false (escaped c ++ rest) ≡ prepend c (unescape false rest)

printed_lem : (c : ℕ) (rest : Bytes) → 32 ≤ c → ReadsBack rest c
unfolding escaped unescape
printed_lem c rest h = elim (Bool-cases (c == 92)) [
  | inl e ↦ subst (ReadsBack rest) (sym ((==_iff c 92).0 e)) refl
  | inr ne ↦ elim (Bool-cases (c == 34)) [
    | inl e ↦ subst (ReadsBack rest) (sym ((==_iff c 34).0 e)) refl
    | inr ne' ↦ plain ne ne'
  ]
]
  where
    plain : (c == 92) ≡ false → (c == 34) ≡ false → ReadsBack rest c
    plain a b =
        let n₁ : (c == 8) ≡ false = ground arith in
        let n₂ : (c == 12) ≡ false = ground arith in
        let n₃ : (c == 10) ≡ false = ground arith in
        let n₄ : (c == 13) ≡ false = ground arith in
        let n₅ : (c == 9) ≡ false = ground arith in
        let n₆ : ltb c 32 ≡ false = ground arith in
        let as_is : escaped c ≡ c ∷ [] = rw (n₁, n₂, n₃, n₄, n₅, n₆, a, b, escaped) refl in
        let read : unescape false (c ∷ rest) ≡ prepend c (unescape false rest) =
          rw (a, b, unescape) refl in
        ap (λ s. unescape false (s ++ rest)) as_is ∙ read

escaped_lem : (c : ℕ) (rest : Bytes) → IsReadable c → ReadsBack rest c
unfolding escaped unescape
escaped_lem c rest (inl h) = printed_lem c rest h
escaped_lem c rest (inr (inl e)) = subst (ReadsBack rest) (sym e) refl
escaped_lem c rest (inr (inr (inl e))) = subst (ReadsBack rest) (sym e) refl
escaped_lem c rest (inr (inr (inr (inl e)))) = subst (ReadsBack rest) (sym e) refl
escaped_lem c rest (inr (inr (inr (inr (inl e))))) = subst (ReadsBack rest) (sym e) refl
escaped_lem c rest (inr (inr (inr (inr (inr e))))) = subst (ReadsBack rest) (sym e) refl

unescape-all_escaped :
    (s rest : Bytes)
    → All IsReadable s
    → unescape false (all_escaped s ++ (34 ∷ rest)) ≡ some (s, rest)
unfolding all_escaped
unescape-all_escaped [] rest h = unfold unescape in refl
unescape-all_escaped (c ∷ s) rest h =
    ap (unescape false) (append_assoc (escaped c) (all_escaped s) (34 ∷ rest))
    ∙ escaped_lem c (all_escaped s ++ (34 ∷ rest)) h.0
    ∙ ap (prepend c) (unescape-all_escaped s rest h.1)

pub push_json_qstring-string_to_json :
    (s rest : Bytes)
    → All IsReadable s
    → push_json_qstring (string_to_json s ++ rest) ≡ some (push_string s, rest)
unfolding string_to_json
push_json_qstring-string_to_json s rest h =
    push_json_qstring_lem (string_to_json s ++ rest)
    ∙ slow_lem (string_to_json s ++ rest) ((all_escaped s ++ (34 ∷ [])) ++ rest)
        (unfold match_char in refl)
    ∙ ap (λ cs. pushed (unescape false cs)) (append_assoc (all_escaped s) (34 ∷ []) rest)
    ∙ ap pushed (unescape-all_escaped s rest h)
