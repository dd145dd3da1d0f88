-- ===== src/Tests/Traces.antt =====
-- The OTLP receiver on a request with one span, and the price tables.
use kovern.Prelude.{ℕ, ◌≡◌, refl, none, some, List, [], ◌∷◌, arith}
use kovern.Prelude.Int.{pos, add64, wrap64, ◌*ℤ◌, ◌+ℤ◌}
use kovern.Prelude.Text.{Text, codes, text_eq, parse_int, digits_value}
use kovern.Prelude.Result.{Result, ok}
use kovern.Float.Fixed.{Fixed, fixed_float, Fixed-IsIeee, times, quotient}
use kovern.Ledger.Exhaustion.{OnlyCharges}
use kovern.Ledger.Runs.{NamespacesAreSlashFree, Call, spends, run}
use kovern.Spans.{new}
use kovern.Pricing.{Estimator, ModelPrice, cost, estimate, estimate_from}
use kovern.Receiver.{Clock, Handler, HttpRequest, post, other_method, serve, usage}
use kovern.Receiver.Attributes.{TraceRequest, KeyValue, OtlpSpan, attr_str, attr_int64, number_of}
use kovern.Receiver.Visits.{visits, spends_of}
use kovern.Receiver.Requests.{serve-store, calls_added, serve_posted}
use kovern.Tests.Fixtures.{team, agent, usd, whole, one}

abbrev pub text_attribute : Text → Text → KeyValue Fixed
text_attribute name value = record {
  name = name;
  value = record { string_value = some value; int_value = none; double_value = none };
}

abbrev pub int_attribute : Text → Text → KeyValue Fixed
int_attribute name value = record {
  name = name;
  value = record { string_value = none; int_value = some value; double_value = none };
}

abbrev span : OtlpSpan Fixed
span = record {
  name = codes "chat";
  start_time_unix_nano = codes "70";
  attributes =
      text_attribute (codes "gen_ai.request.model") (codes "gpt-4o")
      ∷ int_attribute (codes "gen_ai.usage.input_tokens") (codes "2000")
      ∷ [];
}

abbrev pub trace : TraceRequest Fixed
trace = record {
  resource_spans =
      record {
        resource_attributes =
            text_attribute (codes "k8s.namespace.name") team
            ∷ text_attribute (codes "k8s.pod.name") (codes "agent-1")
            ∷ text_attribute (codes "k8s.serviceaccount.name") agent
            ∷ [];
        scope_spans = record { spans = span ∷ [] } ∷ [];
      }
      ∷ [];
}

abbrev pub traces : HttpRequest (TraceRequest Fixed)
traces = record { method = post; body = trace }

abbrev fetching : HttpRequest (TraceRequest Fixed)
fetching = record { method = other_method; body = trace }

abbrev pub take : TraceRequest Fixed → Result (TraceRequest Fixed)
take tr = ok tr

abbrev pub clock : Clock
clock = record { parsed_at = λ n. 100; spent_at = λ n. 101 }

-- A dollar for a thousand tokens.
abbrev flat : ModelPrice Fixed
flat = record { input_per_1k = usd 1; output_per_1k = usd 1 }

abbrev estimator : Estimator Fixed
estimator = record { entries = []; fallback = flat }

abbrev reported : List (Call Fixed ℕ)
reported = spends_of clock estimator 0 (visits trace.resource_spans)

one_spend : reported ≡ spends 101 team agent (usd 2) (pos 2000) ∷ []
unfolding attr_str text_eq usage attr_int64 number_of parse_int digits_value estimate estimate_from
    cost times quotient add64 wrap64 ◌*ℤ◌ ◌+ℤ◌
one_spend = refl

abbrev pub handler : Handler Fixed
handler = record { store = new; cache = some one; cost_estimator = some estimator }

serve_posted_example :
    ((serve clock take traces handler).0 ≡ 200)
    × ((serve clock take traces handler).1.store
        ≡ calls_added clock 0 (visits trace.resource_spans) new)
    × ((serve clock take traces handler).1.cache ≡ some (run whole one reported))
serve_posted_example = serve_posted clock whole take traces trace new one estimator refl refl

-- Without a ledger and prices the span store is the same.
serve-store_example :
    (serve clock take traces handler).1.store
    ≡ (serve clock take traces
        (record { store = new; cache = none; cost_estimator = none })).1.store
serve-store_example =
    serve-store clock take traces handler
      (record { store = new; cache = none; cost_estimator = none }) refl

reported_slash_free : NamespacesAreSlashFree reported
reported_slash_free = rw one_spend (refl, tt)

reported_charges : OnlyCharges team agent reported
unfolding times
reported_charges = rw one_spend (λ _. Fixed-IsIeee.of_int_mono (pos 0) (pos 2) (omega arith), tt)

abbrev input_tokens : Text
input_tokens = codes "gen_ai.usage.input_tokens"
