-- ===== src/Tests/Systems.antt =====
-- The operator: runs of its steps, requests with traces, and its start.
use mathlib.Core.Path.{subst}
use kovern.Prelude.{false, ℕ, ◌≡◌, refl, ap, true, arith, inr}
use kovern.Prelude.Int.{pos}
use kovern.Prelude.Text.{codes, text_eq, parse_int, digits_value}
use kovern.Prelude.Result.{Result, ok}
use kovern.Float.Fixed.{Fixed, fixed_float, Fixed-IsIeee, times}
use kovern.Api.{OtelCriteria}
use kovern.Ledger.Runs.{Call, spends, step}
use kovern.Spans
use kovern.Spans.{SpanStore, trim}
use kovern.Spans.{cutoff}
use kovern.Heuristic
use kovern.Heuristic.{evaluate_pod}
use kovern.Receiver.Attributes.{TraceRequest, attr_str, attr_int64, number_of}
use kovern.Receiver.Visits.{visits}
use kovern.Receiver.Calls.{NamesAreSlashFree}
use kovern.Receiver.Charges.{AllCountUp}
use kovern.Webhook.Decisions.{is_denied}
use kovern.Operator.{System, review, reconcile_quota}
use kovern.Operator.Steps.{Step, Steps}
use kovern.Operator.Safety.{Spares, review-Steps}
use kovern.Quota.{fetched}
use kovern.Quota.Cycles.{accept}
use kovern.Tests.Rounds.{at}
use kovern.Operator.Readmissions.{review-reconcile_quota}
use kovern.Tests.Fixtures.{team, agent, usd, whole, one, pod, decode, request, client, quota}
use kovern.Tests.Traces.{trace, traces, take}
use kovern.Tests.Quotas.{got, used_up-UsedUp}

-- A running operator whose ledger has the used-up account.
abbrev pub running_system : System Fixed ℕ
running_system = record { cluster = 100; ledger = one; spans = Spans.new; engine = Heuristic.new }

abbrev charging : Call Fixed ℕ
charging = spends 5 team agent (usd 1) (pos 100)

abbrev Run : System Fixed ℕ → System Fixed ℕ → Type 0
Run = Steps client whole (Spares team agent)

abbrev charged : System Fixed ℕ
charged = record running_system { ledger = step whole one charging }

charges : Run running_system charged
unfolding times
charges =
    Steps.later Steps.here
      (Step.calls charging (refl, λ _. Fixed-IsIeee.of_int_mono (pos 0) (pos 1) (omega arith)))

abbrev loaded : System Fixed ℕ
loaded = record charged { spans = Spans.add_call Spans.new team pod.name (codes "search") 70 }

loads : Run running_system loaded
loads = Steps.later charges (Step.records team pod.name (codes "search") 70)

review-Steps_example : is_denied (review decode 900 request loaded) ≡ true
review-Steps_example =
    review-Steps Fixed-IsIeee client whole decode running_system 900 request pod 10 refl loads got
      used_up-UsedUp refl refl (inr (omega arith))

pub trace_is_fair :
    NamesAreSlashFree (visits trace.resource_spans) × AllCountUp (visits trace.resource_spans)
unfolding attr_str attr_int64 number_of text_eq parse_int digits_value
trace_is_fair = ((refl, tt), (record { input = omega arith; output = tt }, tt))

body_of : Result (TraceRequest Fixed) → TraceRequest Fixed
body_of (ok tr) = tr
body_of r = trace

pub fair :
    (tr : TraceRequest Fixed)
    → take traces.body ≡ ok tr
    → NamesAreSlashFree (visits tr.resource_spans) × AllCountUp (visits tr.resource_spans)
unfolding body_of
fair tr e =
    subst
      (λ (t : TraceRequest Fixed).
        NamesAreSlashFree (visits t.resource_spans) × AllCountUp (visits t.resource_spans))
      (ap body_of e) trace_is_fair

-- The quota was due at 1500.
review-reconcile_quota_example :
    is_denied (
      review decode 2100 request
        (reconcile_quota whole
          (at 2000)
          accept
          (quota 1500).namespace
          agent
          (fetched (quota 1500))
          running_system).1)
    ≡ false
review-reconcile_quota_example =
    review-reconcile_quota whole decode (at 2000) accept agent (quota 1500) running_system 2100
      request pod refl (omega arith) refl refl refl

-- One call of a tool is a loop.
abbrev strict : OtelCriteria
strict = record {
  max_same_tool_calls = pos 1;
  window_seconds = pos 60;
  identical_response_hash = true;
}
