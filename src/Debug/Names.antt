-- ===== src/Debug/Names.antt =====
-- The registry is a finite map: what is looked up is what was registered last.
use thespian.Prelude.{
  ℕ, ◌≡◌, refl, ap, ◌∙◌, Bool, true, false, List, [], ◌∷◌, Option, none, some, if◌then◌else◌,
  Bool-cases, inl, inr, sym,
}
use thespian.Prelude.Tests.{bytes_eq, bytes_eq_refl, bytes_eq_sound}
use thespian.Cbor.Result.{Bytes}
use thespian.Debug.Registry.{
  Registry, bytes_ltb, isenabled, insert, find, register_instance, get_name,
}

-- Two names that are the same as a third one.
same_names :
    (m name n : Bytes) → bytes_eq m name ≡ false → bytes_eq m n ≡ true → bytes_eq name n ≡ false
same_names m name n other e = elim (Bool-cases (bytes_eq name n)) [
  | inl e' ↦
      let same : m ≡ name = bytes_eq_sound m n e ∙ sym (bytes_eq_sound name n e') in
      let all : bytes_eq m name ≡ true = ap (λ l. bytes_eq l name) same ∙ bytes_eq_refl name in
      absurd (cc)
  | inr e' ↦ e'
]

find-insert :
    (name : Bytes) (h : ℕ) (r : List (Bytes × ℕ)) (n : Bytes)
    → find n (insert name h r) ≡ (if bytes_eq name n then some h else find n r)
unfolding find insert
find-insert name h [] n = refl
find-insert name h ((m, g) ∷ r) n = elim (Bool-cases (bytes_eq m name)) [
  | inl e ↦
      let same : m ≡ name = bytes_eq_sound m name e in
      rw (e, same) (twice (bytes_eq name n) (find n r))
  | inr e ↦ rw e (elim (Bool-cases (bytes_ltb name m)) [
    | inl before ↦ rw before refl
    | inr after ↦ rw after (elim (Bool-cases (bytes_eq m n)) [
      | inl here ↦ rw (here, same_names m name n e here) refl
      | inr there ↦ rw there (find-insert name h r n)
    ])
  ])
]
  where
    twice :
        (b : Bool) (o : Option ℕ)
        → (if b then some h else o) ≡ (if b then some h else (if b then some g else o))
    twice true o = refl
    twice false o = refl

-- While debugging is enabled a live instance with a name is registered: its name then stands for it,
-- in place of what it stood for, and every other name for what it stood for before.
pub get_name-register_instance :
    (name : Bytes) (h : ℕ) (r : Registry) (n : Bytes)
    → isenabled r ≡ true
    → bytes_eq name [] ≡ false
    → get_name n (register_instance (some name) h r) ≡ (if bytes_eq name n then h else get_name n r)
unfolding get_name register_instance bytes_eq
get_name-register_instance [] h r n on named = cc
get_name-register_instance (x ∷ xs) h r n on named =
    rw (on, register_instance)
      (ap handle_of (find-insert (x ∷ xs) h r.registry n) ∙ by_name (bytes_eq (x ∷ xs) n))
  where
    handle_of : Option ℕ → ℕ
    handle_of o = elim o [ none ↦ 0 | some h ↦ h ]

    by_name :
        (b : Bool)
        → handle_of (if b then some h else find n r.registry)
          ≡ (if b then h else handle_of (find n r.registry))
    by_name true = refl
    by_name false = refl
