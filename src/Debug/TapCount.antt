-- ===== src/Debug/TapCount.antt =====
-- The number of taps, and what adding and removing a tap comes to.
use thespian.Prelude.{
  ℕ, suc, ◌+◌, ◌-◌, ◌≡◌, refl, ap, Bool, true, false, not, List, [], ◌∷◌, ◌++◌, if◌then◌else◌, ◌==◌,
  bytes_eq, length, arith, length-append, Bool-cases, inl, inr,
}
use thespian.Prelude.Tests.{bytes_eq_refl, ==_refl}
use thespian.Cbor.Result.{Bytes}
use thespian.Debug.Taps.{
  Taps, handle_eq, unexpired, erased, tap_subscribers, tap_name, tap_message, tap_exit, has_tap,
  tap_add, is_removed, remaining, removed, tap_remove,
}

-- What can happen to the taps, each with what is alive at that time.
pub data Op : Type 0 where
  message : (ℕ → Bool) → Bytes → Bytes → Bytes → Op
  exit : (ℕ → Bool) → Bytes → Bytes → Op
  add : (ℕ → Bool) → Bytes → ℕ → Op
  remove : (ℕ → Bool) → Bytes → ℕ → Op

unfoldable pub apply : Op → Taps → Taps
unfolding tap_message tap_exit tap_add tap_remove
apply (message live to from m) t = (tap_message false live to from m t).1
apply (exit live name m) t = (tap_exit false live name m t).1
apply (add live name sub) t = tap_add live name sub t
apply (remove live name sub) t = (tap_remove live name sub t).1

unfoldable pub applies : List Op → Taps → Taps
unfolding apply
applies [] t = t
applies (o ∷ os) t = applies os (apply o t)

abbrev pub no_taps : Taps
no_taps = record { taps = []; tap_count = 0 }

erased_lem :
    (live : ℕ → Bool) (name : Bytes) (ts : List (Bytes × ℕ))
    → length (unexpired live name ts) + erased live name ts ≡ length ts
unfolding unexpired erased
erased_lem live name [] = refl
erased_lem live name ((n, s) ∷ ts) = ground (arith, erased_lem live name ts)

removed_lem :
    (live : ℕ → Bool) (name : Bytes) (sub : ℕ) (ts : List (Bytes × ℕ))
    → length (remaining live name sub ts) + removed live name sub ts ≡ length ts
unfolding remaining removed
removed_lem live name sub [] = refl
removed_lem live name sub (p ∷ ts) = ground (arith, removed_lem live name sub ts)

abbrev IsCounted : Taps → Type 0
IsCounted t = t.tap_count ≡ length t.taps

tap_name-IsCounted :
    (live : ℕ → Bool) (name ev : Bytes) (t : Taps)
    → IsCounted t
    → IsCounted (tap_name live name ev t).1
unfolding tap_name tap_subscribers
tap_name-IsCounted live [] ev t c = c
tap_name-IsCounted live (x ∷ xs) ev t c = omega (arith, erased_lem live (x ∷ xs) t.taps)

apply-IsCounted : (o : Op) (t : Taps) → IsCounted t → IsCounted (apply o t)
unfolding apply tap_message tap_exit tap_add tap_remove
apply-IsCounted (message live to from m) t c =
    tap_name-IsCounted live from _ _ (tap_name-IsCounted live to _ t c)
apply-IsCounted (exit live name m) t c = tap_name-IsCounted live name _ t c
apply-IsCounted (add live name sub) t c = ground (arith, length-append t.taps ((name, sub) ∷ []))
apply-IsCounted (remove live name sub) t c = omega (arith, removed_lem live name sub t.taps)

-- After any series of taps, messages and exits, `tap_count`, by which the runtime tells whether there
-- is anything to tap, is the number of taps.
pub applies-tap_count :
    (os : List Op) → (applies os no_taps).tap_count ≡ length (applies os no_taps).taps
unfolding applies
applies-tap_count os = from os no_taps refl
  where
    from : (os : List Op) (t : Taps) → IsCounted t → IsCounted (applies os t)
    from [] t c = c
    from (o ∷ os) t c = from os (apply o t) (apply-IsCounted o t c)

handle_eq_refl : (live : ℕ → Bool) (a : ℕ) → handle_eq live a a ≡ true
unfolding handle_eq
handle_eq_refl live a = by_life (live a)
  where
    by_life : (b : Bool) → (if b then (if b then a == a else false) else not b) ≡ true
    by_life true = ==_refl a
    by_life false = refl

module _ (live : ℕ → Bool) (x : ℕ) (xs : Bytes) (sub : ℕ) where
  removed-last :
      (ts : List (Bytes × ℕ))
      → has_tap live (x ∷ xs) sub ts ≡ false
      → (remaining live (x ∷ xs) sub (ts ++ ((x ∷ xs, sub) ∷ [])) ≡ ts)
        × (removed live (x ∷ xs) sub (ts ++ ((x ∷ xs, sub) ∷ [])) ≡ 1)
  unfolding remaining removed has_tap is_removed
  removed-last [] h = rw (bytes_eq_refl (x ∷ xs), handle_eq_refl live sub) (refl, refl)
  removed-last ((n, s) ∷ ts) h = elim (Bool-cases (bytes_eq n (x ∷ xs))) [
    | inl same ↦ elim (Bool-cases (handle_eq live s sub)) [
      | inl found ↦ absurd (cc)
      | inr other ↦
          let (p, q) = removed-last ts (rw (same, other) at h) in
          rw (same, other) (ap (λ l. (n, s) ∷ l) p, q)
    ]
    | inr other ↦
        let (p, q) = removed-last ts (rw other at h) in rw other (ap (λ l. (n, s) ∷ l) p, q)
  ]

  -- A tap that was not there is added and removed again: the removal finds it, and leaves the taps as
  -- they were.
  pub tap_remove-tap_add :
      (t : Taps)
      → has_tap live (x ∷ xs) sub t.taps ≡ false
      → tap_remove live (x ∷ xs) sub (tap_add live (x ∷ xs) sub t) ≡ (true, t)
  unfolding tap_remove tap_add
  tap_remove-tap_add t h =
      let (p, q) = removed-last t.taps h in
      let back : suc t.tap_count - 1 ≡ t.tap_count = omega arith in
      rw (h, tap_add) (rw (p, q, back) refl)
