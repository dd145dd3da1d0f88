-- ===== src/Tests/Loops.antt =====
-- The loop side: the span store, the counts and the remediation.
use kovern.Prelude.{
  ltb, ℕ, ◌+◌, ◌*◌, ◌<◌, ◌≡◌, ◌↔◌, refl, Option, none, List, [], ◌∷◌, ◌++◌, arith, All,
}
use kovern.Prelude.Int.{pos, add64}
use kovern.Prelude.Text.{Text, codes, text_eq}
use kovern.Prelude.Dict.{lookup, insert}
use kovern.Api.{RemediationAction}
use kovern.Api
use kovern.Spans.Windows.{call_of, window-add_call}
use kovern.Prelude.{◌&&◌, if◌then◌else◌}
use kovern.Time.{nano_per_second}
use kovern.Spans.{ToolCall, SpanStore, new, add_call, window, trim}
use kovern.Spans.Windows.{
  IsValid, new-IsValid, add_call-IsValid, ten_minutes, window-trim-ten_minutes, window-trim_recent,
}
use kovern.Heuristic.{max_same_tool_count}
use kovern.Remediation.{remediate, failure}
use kovern.Remediation.Reports.{
  Effect, World, logged, Performed, marked, warning_of, remediate-Performed,
}
use kovern.Tests.Fixtures.{team, pod, policy, client}

abbrev search : Text
search = codes "search"

store : SpanStore
store = add_call (add_call new team pod.name search 70) team pod.name (codes "read") 80

store-IsValid : IsValid store
unfolding store
store-IsValid = add_call-IsValid _ _ _ _ _ (add_call-IsValid _ _ _ _ _ new-IsValid)

-- A minute and 100 nanoseconds after the year 0 the call is 50 nanoseconds old.
abbrev minute_later : ℕ
minute_later = 60_000_000_100

window-add_call_example :
    window minute_later (add_call store team pod.name search 60_000_000_050) team pod.name (pos 60)
    ≡ window minute_later store team pod.name (pos 60)
      ++ (if (text_eq team team && text_eq pod.name pod.name)
            && ltb minute_later (60_000_000_050 + 60 * nano_per_second)
          then call_of search 60_000_000_050 ∷ []
          else [])
window-add_call_example =
    window-add_call minute_later store team pod.name team pod.name search 60_000_000_050 60 refl
      refl (omega arith) (omega arith)

window-trim-ten_minutes_example :
    window 100 (trim 90 store ten_minutes) team pod.name (pos 60)
    ≡ window 100 store team pod.name (pos 60)
window-trim-ten_minutes_example =
    window-trim-ten_minutes 90 100 store team pod.name 60 store-IsValid (omega arith) (omega arith)

window-trim_recent_example :
    All
      (λ call. 90 < call.timestamp + 600 * nano_per_second)
      (window 100 (trim 90 store ten_minutes) team pod.name (pos 900))
window-trim_recent_example = window-trim_recent 90 100 store team pod.name (pos 900) store-IsValid

abbrev call : Text → ToolCall
call tool = record { tool_name = tool; timestamp = 1 }

abbrev calls : List ToolCall
calls = call search ∷ call (codes "read") ∷ call search ∷ []

two_searches : max_same_tool_count calls ≡ 2
unfolding max_same_tool_count lookup insert text_eq
two_searches = refl

world : World ℕ Text
world = record { base = 0; log = [] }

remediate-Performed_example :
    let ((result, policy'), w') = remediate (logged client) pod policy world in
    (applied : RemediationAction) × (e : Option Text) × (effects : List (Effect Text)) × Performed
      pod applied e effects
    × (w'.log ≡ world.log ++ (effects ++ (warning_of policy pod applied ++ (marked policy' ∷ []))))
    × (result ≡ failure Api.inject_fault pod e)
    × ((result ≡ none) ↔ (e ≡ none))
    × (policy'.status.detection_count ≡ add64 (pos 0) (pos 1))
    × (policy'.status.last_affected_pod ≡ pod.name)
    × (policy'.spec ≡ policy.spec)
remediate-Performed_example = remediate-Performed client pod policy world
