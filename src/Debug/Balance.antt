-- ===== src/Debug/Balance.antt =====
-- Every command of a debug connection is answered exactly once.
use thespian.Prelude.{
  ℕ, ◌+◌, ◌<◌, ◌≡◌, sym, ap, ◌∙◌, true, List, [], ◌∷◌, ◌++◌, append-nil, arith, inl, inr,
}
use thespian.Cbor.Result.{Bytes}
use thespian.Debug.Commands.{take_call}
use thespian.Debug.Session.{Session, World, Activation}
use thespian.Debug.Reports.{on_tap, on_message, call_id, taken}
use thespian.Debug.Receive.{on_dispatch, on_read, on_written}
use thespian.Debug.Answers.{answered_ids, started, lives, Gives}
use thespian.Debug.JsonAnswers.{Starts}
use thespian.Debug.Handlers.{on_dispatch-LeavesIds, on_report-Gives}
use thespian.Debug.Shown.{on_read-Gives, on_written-Gives, on_tap-Gives, on_message-Gives}
use thespian.Debug.CallLists.{
  count-append, numbers-put_call, count-put_call, numbers-take_call, count-take_call, All-take_call,
  AreBelow, AreBelow-le, AreBelow-put_call,
}
use thespian.Debug.Dialogue.{
  Input, line, report, chunk, written, tapped, message, on_report, handle, asked_by, remove, holds,
  State, Comes, advance, Run, here, next, opened, count, numbers, waiting_ids,
}

pub record IsBalanced (st : State) : Type 0 where
  pub waits : numbers st.session.pending_calls ≡ st.open_calls
  pub below : AreBelow st.session.next_call st.session.pending_calls
  pub balance :
      (id : Bytes)
      → count id st.asked ≡ count id st.answered + count id (waiting_ids st.session.pending_calls)

-- The state after a handler that was asked for some ids and leaves some calls open.
abbrev after : List Bytes → List ℕ → State → Activation → State
after ids calls st a = record {
  session = a.session;
  open_calls = calls ++ started a.effects;
  asked = st.asked ++ ids;
  answered = st.answered ++ answered_ids a.effects;
}

-- A handler that answers what it is asked for.
answering-IsBalanced :
    (ids : List Bytes) (st : State) (a : Activation)
    → Gives ids [] st.session a
    → IsBalanced st
    → IsBalanced (after ids st.open_calls st a)
answering-IsBalanced ids st a g h = record {
  waits =
      ap numbers g.pending
      ∙ h.waits
      ∙ sym (ap (λ l. st.open_calls ++ l) g.begins ∙ append-nil st.open_calls);
  below = rw (g.pending) (
      AreBelow-le st.session.next_call a.session.next_call st.session.pending_calls g.number
        h.below);
  balance = λ id. omega (
    arith,
    count-append id st.asked ids,
    count-append id st.answered (answered_ids a.effects),
    ap (count id) g.answers,
    ap (λ l. count id (waiting_ids l)) g.pending,
    h.balance id,
  );
}

-- A handler that starts a call for what it is asked for.
starting-IsBalanced :
    (id : Bytes) (st : State) (a : Activation)
    → Starts id st.session a.session a.effects
    → IsBalanced st
    → IsBalanced (after (id ∷ []) st.open_calls st a)
unfolding count
starting-IsBalanced i st a g h =
    let n = st.session.next_call in
    let calls = st.session.pending_calls in
    record {
      waits =
          ap numbers g.pending
          ∙ numbers-put_call n i calls h.below
          ∙ ap (λ l. l ++ (n ∷ [])) h.waits
          ∙ sym (ap (λ l. st.open_calls ++ l) g.begins);
      below = rw (g.pending, g.number) (AreBelow-put_call n i calls h.below);
      balance = λ id. omega (
        arith,
        count-append id st.asked (i ∷ []),
        count-append id st.answered (answered_ids a.effects),
        ap (count id) g.answers,
        ap (λ l. count id (waiting_ids l)) g.pending,
        count-put_call id n i calls h.below,
        h.balance id,
      );
    }

-- A report of an open call, that answers its id.
report-IsBalanced :
    (seq : ℕ) (st : State) (a : Activation)
    → holds seq st.open_calls ≡ true
    → Gives (call_id seq st.session ∷ []) [] (taken seq st.session) a
    → IsBalanced st
    → IsBalanced (after [] (remove seq st.open_calls) st a)
unfolding count
report-IsBalanced seq st a open_call g h =
    let calls = st.session.pending_calls in
    record {
      waits =
          ap numbers g.pending
          ∙ numbers-take_call seq calls
          ∙ ap (remove seq) h.waits
          ∙ sym (
              ap (λ l. remove seq st.open_calls ++ l) g.begins
              ∙ append-nil (remove seq st.open_calls));
      below = rw (g.pending) (
          AreBelow-le st.session.next_call a.session.next_call (take_call seq calls).1 g.number
            (All-take_call (λ c. c.0 < st.session.next_call) seq calls h.below));
      balance = λ id. omega (
        arith,
        count-append id st.asked [],
        count-append id st.answered (answered_ids a.effects),
        ap (count id) g.answers,
        ap (λ l. count id (waiting_ids l)) g.pending,
        count-take_call id seq calls (ap (holds seq) h.waits ∙ open_call),
        h.balance id,
      );
    }

-- Each message that comes keeps the balance.
advance-IsBalanced :
    (w : World) (i : Input) (st : State)
    → Comes i st
    → lives (handle w i st.session).ending ≡ true
    → IsBalanced st
    → IsBalanced (advance w i st)
unfolding advance handle
advance-IsBalanced w (line buf) st small alive h =
    elim (on_dispatch-LeavesIds w buf st.session (h.below, small) alive) [
      | inl g ↦
          answering-IsBalanced (asked_by w (line buf) st.session) st (on_dispatch w buf st.session)
            g h
      | inr (id, p, g) ↦ rw p (starting-IsBalanced id st (on_dispatch w buf st.session) g h)
    ]
advance-IsBalanced w (report seq r) st open_call alive h =
    report-IsBalanced seq st (on_report w seq r st.session) open_call
      (on_report-Gives w seq r st.session alive) h
advance-IsBalanced w (chunk buf) st c alive h =
    answering-IsBalanced [] st (on_read buf st.session) (on_read-Gives buf st.session alive) h
advance-IsBalanced w (written n) st c alive h =
    answering-IsBalanced [] st (on_written n st.session) (on_written-Gives n st.session alive) h
advance-IsBalanced w (tapped name dir peer r) st c alive h =
    answering-IsBalanced [] st (on_tap w name dir peer r st.session)
      (on_tap-Gives w name dir peer r st.session alive) h
advance-IsBalanced w (message sender m) st c alive h =
    answering-IsBalanced [] st (on_message w sender m st.session)
      (on_message-Gives w sender m st.session alive) h

opened-IsBalanced : (s : Session) → s.pending_calls ≡ [] → IsBalanced (opened s)
unfolding count
opened-IsBalanced s e = record {
  waits = ap numbers e;
  below = rw e tt;
  balance = λ id. omega (arith, ap (λ l. count id (waiting_ids l)) e);
}

run-IsBalanced :
    {s : Session} {st : State} → s.pending_calls ≡ [] → Run (opened s) st → IsBalanced st
run-IsBalanced {s} e here = opened-IsBalanced s e
run-IsBalanced e (next {u} r w i comes alive) =
    advance-IsBalanced w i u comes alive (run-IsBalanced e r)

-- Messages come to a new debug connection in any order and with any effect outside of it; a report of a
-- call comes only while the call is open, as its proxy reports it once and no other actor sends one. As
-- long as no exception ends its actor and it has started fewer than 2^64 - 1 calls, the calls that it waits for
-- are those whose proxies have not reported, and each id was asked for as often as it was answered and
-- is waited for together.
pub Run-balance :
    {s : Session} {st : State}
    → s.pending_calls ≡ []
    → Run (opened s) st
    → (numbers st.session.pending_calls ≡ st.open_calls)
      × ((id : Bytes)
          → count id st.asked
            ≡ count id st.answered + count id (waiting_ids st.session.pending_calls))
Run-balance e r = let h = run-IsBalanced e r in (h.waits, h.balance)
