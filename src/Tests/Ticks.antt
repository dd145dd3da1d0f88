-- ===== src/Tests/Ticks.antt =====
-- The heuristic engine on a pod that calls one tool three times.
use kovern.Prelude.{ℕ, true, ◌+◌, ◌≡◌, ◌↔◌, [], ◌∷◌, suc, length}
use kovern.Prelude.Int.{pos}
use kovern.Prelude.Text.{codes}
use kovern.Api.{OtelCriteria}
use kovern.Spans.{SpanStore, add_call, window, trim}
use kovern.Spans
use kovern.Heuristic.{new, ticks, evaluate_pod}
use kovern.Heuristic.Cooldowns.{Spaced, ticks-Spaced}
use kovern.Heuristic.Remediations.{IsDue, evaluate_pod_detects_iff}
use kovern.Tests.Fixtures.{team, pod, policy, client}

abbrev searched : SpanStore → SpanStore
searched s = add_call s team pod.name (codes "search") 70

abbrev store : ℕ → SpanStore
store w = searched (searched (searched Spans.new))

abbrev put_store : SpanStore → ℕ → ℕ
put_store s w = w

abbrev criteria : OtelCriteria
criteria = record {
  max_same_tool_calls = pos 3;
  window_seconds = pos 60;
  identical_response_hash = true;
}

ticks-Spaced_example :
    Spaced (ticks client store put_store ((λ w. w + 5) ∷ (λ w. w + 9) ∷ []) new 100).0.detections
ticks-Spaced_example = ticks-Spaced client store put_store ((λ w. w + 5) ∷ (λ w. w + 9) ∷ []) 100

evaluate_pod_detects_iff_example :
    (length (evaluate_pod client store criteria pod new policy 100).0.0.detections
      ≡ suc (length new.detections))
    ↔ IsDue client store criteria pod new 100
evaluate_pod_detects_iff_example = evaluate_pod_detects_iff client store criteria pod new policy 100
