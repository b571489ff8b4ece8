-- ===== src/Executor/Guard.antt =====
-- The guards of watchers and streams: one wait for each side at a time.
use thespian.Prelude.{
  ℕ, suc, ◌≤◌, ◌≡◌, refl, sym, ap, ◌∙◌, Bool, true, false, ◌&&◌, List, [], ◌∷◌, ◌++◌, ◌==◌,
  if◌then◌else◌, arith, Bool-cases, inl, inr,
}
use thespian.Executor.Async.{
  Side, reading, writing, Kind, fired, expired, received, connected, written, read, accepted,
  guarded, Op, Context, sub_one, begin, wait, keep_bytes, start_write, accept, Method, invoke,
  fires, expires, receives, connects, writes, reads, accepts, waits_read, waits_write, starts_read,
  starts_write, on_fired, on_expired, receive, connect, write, read_some, wait_read, wait_write,
  start_read, set_progress,
}

abbrev pub is_guarded : Side → Kind → Bool
is_guarded reading (guarded reading) = true
is_guarded writing (guarded writing) = true
is_guarded s k = false

-- Whether an operation is the wait of an object on a side.
abbrev pub is_wait : Side → ℕ → Op → Bool
is_wait s o op = is_guarded s op.kind && op.object == o

-- The waits of an object that asio has.
unfoldable pub waits : Side → ℕ → List Op → ℕ
waits s o [] = 0
waits s o (op ∷ ops) = let rest = waits s o ops in if is_wait s o op then suc rest else rest

abbrev pub as_number : Bool → ℕ
as_number b = if b then 1 else 0

pub record IsGuarded (c : Context) : Type 0 where
  pub unborn : (o : ℕ) → c.next_object ≤ o → c.alive o ≡ false
  pub unused : (s : Side) (o : ℕ) → c.next_object ≤ o → waits s o c.outstanding ≡ 0
  pub one_wait :
      (s : Side) (o : ℕ)
      → c.alive o ≡ true
      → waits s o c.outstanding ≡ as_number (c.in_progress s o)

abbrev pub IsPlain : Kind → Type 0
IsPlain k = (s : Side) → is_guarded s k ≡ false

pub plain-IsGuarded :
    (k : Kind) (o : ℕ) {c : Context} → IsPlain k → IsGuarded c → IsGuarded (begin k o c)
unfolding begin waits
plain-IsGuarded k o p h = record {
  unborn = h.unborn;
  unused = λ s j l. rw (p s) (h.unused s j l);
  one_wait = λ s j a. rw (p s) (h.one_wait s j a);
}

-- The flag of another side stays.
pub progress-other :
    (side : Side) (o : ℕ) (b : Bool) (f : Side → ℕ → Bool) (s : Side) (j : ℕ)
    → is_guarded s (guarded side) && o == j ≡ false
    → set_progress side o b f s j ≡ f s j
progress-other reading o b f reading j h = ground arith
progress-other reading o b f writing j h = refl
progress-other writing o b f reading j h = refl
progress-other writing o b f writing j h = ground arith

pub progress-same :
    (side : Side) (o : ℕ) (b : Bool) (f : Side → ℕ → Bool) (s : Side) (j : ℕ)
    → is_guarded s (guarded side) && o == j ≡ true
    → (set_progress side o b f s j ≡ b) × (f s j ≡ f side o) × (j ≡ o)
progress-same reading o b f reading j h =
    let e : j ≡ o = ground arith in (ground arith, ap (f reading) e, e)
progress-same reading o b f writing j h = cc
progress-same writing o b f reading j h = cc
progress-same writing o b f writing j h =
    let e : j ≡ o = ground arith in (ground arith, ap (f writing) e, e)

begin_guarded-IsGuarded :
    (side : Side) (o : ℕ) (c : Context)
    → c.alive o ≡ true
    → c.in_progress side o ≡ false
    → IsGuarded c
    → IsGuarded
        (begin (guarded side) o (record c { in_progress = set_progress side o true c.in_progress }))
unfolding begin waits
begin_guarded-IsGuarded side o c a idle h = record {
  unborn = h.unborn;
  unused = λ s j l. elim (Bool-cases (is_guarded s (guarded side) && o == j)) [
    | inl e ↦ cc ((progress-same side o true c.in_progress s j e).2, h.unborn j l, a)
    | inr e ↦ rw e (h.unused s j l)
  ];
  one_wait = λ s j b. elim (Bool-cases (is_guarded s (guarded side) && o == j)) [
    | inl e ↦
        let same = progress-same side o true c.in_progress s j e in
        rw (e, same.0) (ap suc (h.one_wait s j b ∙ ap as_number (same.1 ∙ idle)))
    | inr e ↦ rw (e, progress-other side o true c.in_progress s j e) (h.one_wait s j b)
  ];
}

wait-IsGuarded :
    (side : Side) (o : ℕ) (c : Context) → c.alive o ≡ true → IsGuarded c → IsGuarded (wait side o c)
unfolding wait
wait-IsGuarded side o c a h = elim (Bool-cases (c.in_progress side o)) [
  | inl e ↦ rw e h
  | inr e ↦ rw e (begin_guarded-IsGuarded side o c a e h)
]

pub fired-IsPlain : IsPlain fired
fired-IsPlain reading = refl
fired-IsPlain writing = refl

pub expired-IsPlain : IsPlain expired
expired-IsPlain reading = refl
expired-IsPlain writing = refl

pub received-IsPlain : IsPlain received
received-IsPlain reading = refl
received-IsPlain writing = refl

pub connected-IsPlain : IsPlain connected
connected-IsPlain reading = refl
connected-IsPlain writing = refl

pub written-IsPlain : IsPlain written
written-IsPlain reading = refl
written-IsPlain writing = refl

pub read-IsPlain : IsPlain read
read-IsPlain reading = refl
read-IsPlain writing = refl

pub accepted-IsPlain : IsPlain accepted
accepted-IsPlain reading = refl
accepted-IsPlain writing = refl

pub invoke-IsGuarded :
    (m : Method) (o : ℕ) (c : Context) → c.alive o ≡ true → IsGuarded c → IsGuarded (invoke m o c)
unfolding invoke on_fired on_expired receive connect write read_some accept wait_read wait_write
    start_read start_write
invoke-IsGuarded fires o c a h = plain-IsGuarded fired o fired-IsPlain h
invoke-IsGuarded expires o c a h = plain-IsGuarded expired o expired-IsPlain h
invoke-IsGuarded receives o c a h = plain-IsGuarded received o received-IsPlain h
invoke-IsGuarded connects o c a h = plain-IsGuarded connected o connected-IsPlain h
invoke-IsGuarded writes o c a h = plain-IsGuarded written o written-IsPlain h
invoke-IsGuarded reads o c a h = plain-IsGuarded read o read-IsPlain h
invoke-IsGuarded accepts o c a h = plain-IsGuarded accepted o accepted-IsPlain h
invoke-IsGuarded waits_read o c a h = wait-IsGuarded reading o c a h
invoke-IsGuarded waits_write o c a h = wait-IsGuarded writing o c a h
invoke-IsGuarded starts_read o c a h = wait-IsGuarded reading o c a h
invoke-IsGuarded (starts_write bytes) o c a h =
    wait-IsGuarded writing o (keep_bytes bytes o c) a
      (record { unborn = h.unborn; unused = h.unused; one_wait = h.one_wait })

-- asio has taken `op` off its list.
pub record IsTaken (op : Op) (c : Context) : Type 0 where
  pub unborn : (o : ℕ) → c.next_object ≤ o → c.alive o ≡ false
  pub unused : (s : Side) (o : ℕ) → c.next_object ≤ o → waits s o c.outstanding ≡ 0
  pub one_wait :
      (s : Side) (o : ℕ)
      → c.alive o ≡ true
      → (if is_wait s o op then suc (waits s o c.outstanding) else waits s o c.outstanding)
        ≡ as_number (c.in_progress s o)

waits-middle :
    (s : Side) (o : ℕ) (before after : List Op) (op : Op)
    → waits s o (before ++ (op ∷ after))
      ≡ (if is_wait s o op then suc (waits s o (before ++ after)) else waits s o (before ++ after))
unfolding waits
waits-middle s o [] after op = refl
waits-middle s o (x ∷ before) after op = ground (arith, waits-middle s o before after op)

pub take-IsTaken :
    (before after : List Op) (op : Op) {c : Context}
    → c.outstanding ≡ before ++ (op ∷ after)
    → IsGuarded c
    → IsTaken op (record c { pending = sub_one c.pending; outstanding = before ++ after })
take-IsTaken before after op {c} e h = record {
  unborn = h.unborn;
  unused =
      λ s o l. ground (arith, ap (waits s o) e, waits-middle s o before after op, h.unused s o l);
  one_wait =
      λ s o a. sym (waits-middle s o before after op) ∙ sym (ap (waits s o) e) ∙ h.one_wait s o a;
}

-- Where the object of the operation is gone, or the operation is no wait, the rest is as it was.
pub drop-IsGuarded :
    (op : Op) {c : Context}
    → ((s : Side) (o : ℕ) → c.alive o ≡ true → is_wait s o op ≡ false)
    → IsTaken op c
    → IsGuarded c
drop-IsGuarded op {c} p h = record {
  unborn = h.unborn;
  unused = h.unused;
  one_wait = λ s o a. let r = h.one_wait s o a in rw (p s o a) at r;
}
