-- ===== src/Trace/Channels.antt =====
-- The channels of `env_t` (include/thespian/env.hpp, include/thespian/trace.hpp).
use thespian.Prelude.{
  ℕ, zero, suc, ◌<◌, ◌≤◌, ◌≡◌, refl, sym, ap, ◌∙◌, Bool, true, false, not, ◌&&◌, ◌||◌, arith, ◌==◌,
  if◌then◌else◌, Bool-cases, inl, inr,
}

-- The enumerators, each but `all` by the number of its bit; `all` is the greatest int.
pub data Channel : Type 0 where
  send : Channel
  receive : Channel
  lifetime : Channel
  link : Channel
  execute : Channel
  udp : Channel
  tcp : Channel
  timer : Channel
  metronome : Channel
  endpoint : Channel
  signal : Channel
  all : Channel

-- An int that is not negative, by its bits; 31 of them.
abbrev pub ChannelSet : Type 0
ChannelSet = ℕ → Bool

abbrev only : ℕ → ChannelSet
only n k = k == n

unfoldable pub bits : Channel → ChannelSet
bits send = only 0
bits receive = only 1
bits lifetime = only 2
bits link = only 3
bits execute = only 4
bits udp = only 5
bits tcp = only 6
bits timer = only 7
bits metronome = only 8
bits endpoint = only 9
bits signal = only 10
bits all = λ k. true

abbrev pub xor : Bool → Bool → Bool
xor true b = not b
xor false b = b

unfoldable pub enable_all_channels : ChannelSet → ChannelSet
unfolding bits
enable_all_channels s = bits all

unfoldable pub disable_all_channels : ChannelSet → ChannelSet
disable_all_channels s k = false

-- `|=` and `^=`
unfoldable pub enable : Channel → ChannelSet → ChannelSet
unfolding bits
enable c s k = s k || bits c k

unfoldable pub disable : Channel → ChannelSet → ChannelSet
unfolding bits
disable c s k = xor (s k) (bits c k)

-- `trace_channels & channel` is not zero.
abbrev any_below : ℕ → (ℕ → Bool) → Bool
any_below zero p = false
any_below (suc n) p = p n || any_below n p

unfoldable pub enabled : Channel → ChannelSet → Bool
unfolding bits
enabled c s = any_below 31 (λ k. s k && bits c k)

-- The number of the bit of a channel that has one.
unfoldable pub number : Channel → ℕ
number send = 0
number receive = 1
number lifetime = 2
number link = 3
number execute = 4
number udp = 5
number tcp = 6
number timer = 7
number metronome = 8
number endpoint = 9
number signal = 10
number all = 31

-- A channel other than `all`.
abbrev pub IsSingle : Channel → Type 0
IsSingle c = number c < 31

any_below-none : (n m : ℕ) (f : ℕ → Bool) → n ≤ m → any_below n (λ k. f k && only m k) ≡ false
any_below-none zero m f h = refl
any_below-none (suc n) m f h =
    let off : (n == m) ≡ false = ground arith in
    rw off (never (f n) _ (any_below-none n m f (omega arith)))
  where
    never : (a b : Bool) → b ≡ false → ((a && false) || b) ≡ false
    never true b e = e
    never false b e = e

any_below-only : (n m : ℕ) (f : ℕ → Bool) → m < n → any_below n (λ k. f k && only m k) ≡ f m
any_below-only zero m f h = absurd (omega arith)
any_below-only (suc n) m f h = elim (Bool-cases (n == m)) [
  | inl e ↦
      let same : n ≡ m = ground arith in
      rw e (found (f n) (f m) _ (ap f same) (any_below-none n m f (omega arith)))
  | inr e ↦ rw e (later (f n) _ (f m) (any_below-only n m f (ground arith)))
]
  where
    found : (a c b : Bool) → a ≡ c → b ≡ false → ((a && true) || b) ≡ c
    found true c b p q = p
    found false c b p q = q ∙ p

    later : (a b c : Bool) → b ≡ c → ((a && false) || b) ≡ c
    later true b c p = p
    later false b c p = p

bits-only : (c : Channel) → IsSingle c → bits c ≡ only (number c)
unfolding bits number
bits-only all h = absurd (omega arith)
bits-only send h = refl
bits-only _ h = refl

enabled_lem : (c : Channel) (s : ChannelSet) → IsSingle c → enabled c s ≡ s (number c)
unfolding enabled
enabled_lem c s h =
    ap (λ (b : ChannelSet). any_below 31 (λ k. s k && b k)) (bits-only c h)
    ∙ any_below-only 31 (number c) s h

-- Enabling a channel turns it on and no other one.
pub enabled-enable :
    (c d : Channel) (s : ChannelSet)
    → IsSingle c
    → IsSingle d
    → enabled d (enable c s) ≡ (if number d == number c then true else enabled d s)
unfolding enable
enabled-enable c d s hc hd =
    enabled_lem d (enable c s) hd
    ∙ ap (λ (b : ChannelSet). s (number d) || b (number d)) (bits-only c hc)
    ∙ by_bit (number d == number c) (s (number d))
    ∙ ap (λ b. if number d == number c then true else b) (sym (enabled_lem d s hd))
  where
    by_bit : (b e : Bool) → (e || b) ≡ (if b then true else e)
    by_bit true true = refl
    by_bit true false = refl
    by_bit false true = refl
    by_bit false false = refl

-- Disabling a channel turns it over, and no other one: a channel that was not enabled is enabled by
-- it.
pub enabled-disable :
    (c d : Channel) (s : ChannelSet)
    → IsSingle c
    → IsSingle d
    → enabled d (disable c s) ≡ (if number d == number c then not (enabled d s) else enabled d s)
unfolding disable
enabled-disable c d s hc hd =
    enabled_lem d (disable c s) hd
    ∙ ap (λ (b : ChannelSet). xor (s (number d)) (b (number d))) (bits-only c hc)
    ∙ by_bit (number d == number c) (s (number d))
    ∙ ap (λ b. if number d == number c then not b else b) (sym (enabled_lem d s hd))
  where
    by_bit : (b e : Bool) → xor e b ≡ (if b then not e else e)
    by_bit true true = refl
    by_bit true false = refl
    by_bit false true = refl
    by_bit false false = refl
