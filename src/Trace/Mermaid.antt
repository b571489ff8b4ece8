-- ===== src/Trace/Mermaid.antt =====
-- The mermaid writer on what an instance traces.
use thespian.Prelude.{ℕ, ◌≡◌}
use thespian.Cbor.Kind.{Kind}
use thespian.Cbor.Result.{expected_array, err}
use thespian.Cbor.Match.{is, extract_string, A, last, next}
use thespian.Cbor.Value.{Values, push_value, IsValid}
use thespian.Cbor.Accepts.{accepts, elements}
use thespian.Cbor.Refinement.{match_message-push_value}
use thespian.Cbor.Json.Print.{Floats}
use thespian.Trace.Writers.{actor, to_mermaid, do_trace_raw}

-- Every message that an instance traces, whatever it is about, makes the mermaid writer throw: it looks
-- for the actor in the first element, where `do_trace_raw` puts a count.
pub to_mermaid-do_trace_raw :
    (floats : Floats) (pending posts active use_count : ℕ) (parms : Values)
    → IsValid (do_trace_raw pending posts active use_count parms)
    → to_mermaid floats (push_value (do_trace_raw pending posts active use_count parms))
      ≡ err expected_array
unfolding to_mermaid do_trace_raw accepts elements
to_mermaid-do_trace_raw floats pending posts active use_count parms h = rw (
    match_message-push_value (next (A actor) (next extract_string (last (is Kind.more))))
      (do_trace_raw pending posts active use_count parms) h)
