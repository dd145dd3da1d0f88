-- ===== src/Tests/Debits.antt =====
-- A span with a negative token count, which the receiver takes for a spend.
use kovern.Prelude.{false, ◌∷◌, [], List, ℕ, ◌≡◌, refl, true}
use kovern.Prelude.Int.{negsuc, add64, wrap64, ◌*ℤ◌, ◌+ℤ◌}
use kovern.Prelude.Text.{codes, len, text_eq, parse_int, digits_value}
use kovern.Prelude.Dict.{lookup, insert}
use kovern.Ledger.{check, get, record_spend, spend, compute_state, key}
use kovern.Float.Fixed.{Fixed, fixed_float, times, quotient}
use kovern.Ledger.Runs.{Call, spends, step, run}
use kovern.Pricing.{
  estimate, estimate_from, new_default_estimator, new_estimator, default_prices, table, resort,
  place, cost,
}
use kovern.Pricing.Globs.{matches}
use kovern.Receiver.{post, usage}
use kovern.Receiver.Attributes.{TraceRequest, attr_str, attr_int64, number_of}
use kovern.Webhook.{handle}
use kovern.Webhook.Decisions.{is_denied}
use kovern.Operator.Requests.{spends_in}
use kovern.Tests.Fixtures.{team, agent, whole, one, pod, decode, request}
use kovern.Tests.Traces.{text_attribute, int_attribute, take, clock}

-- A request that reports minus four million tokens lifts the refusal.
abbrev debit : TraceRequest Fixed
debit = record {
  resource_spans =
      record {
        resource_attributes =
            text_attribute (codes "k8s.namespace.name") team
            ∷ text_attribute (codes "k8s.pod.name") pod.name
            ∷ text_attribute (codes "k8s.serviceaccount.name") agent
            ∷ [];
        scope_spans =
            record {
              spans =
                  record {
                    name = codes "chat";
                    start_time_unix_nano = codes "70";
                    attributes =
                        text_attribute (codes "gen_ai.request.model") (codes "gpt-4o")
                        ∷ int_attribute (codes "gen_ai.usage.input_tokens") (codes "-4000000")
                        ∷ [];
                  }
                  ∷ [];
            }
            ∷ [];
      }
      ∷ [];
}

abbrev recorded_spends : List (Call Fixed ℕ)
recorded_spends = spends_in clock take (record { method = post; body = debit })

debit_spends : recorded_spends ≡ spends 101 team agent (negsuc 9_999_999) (negsuc 3_999_999) ∷ []
unfolding attr_str attr_int64 number_of text_eq parse_int digits_value usage estimate estimate_from
    new_default_estimator new_estimator default_prices table resort place matches cost times
    quotient add64 wrap64 ◌*ℤ◌ ◌+ℤ◌ len
debit_spends = refl

debit_lifts :
    (is_denied (handle decode 900 one request) ≡ true)
    × (is_denied (handle decode 900 (run whole one recorded_spends) request) ≡ false)
unfolding handle check get lookup insert run step record_spend spend compute_state key text_eq times
    quotient ◌*ℤ◌ ◌+ℤ◌ add64 wrap64
debit_lifts = (refl, rw debit_spends refl)
