-- ===== src/Spans.antt =====
-- internal/otelreceiver/receiver.go, `SpanStore`: the tool calls of each pod. A method takes the
-- clock's reading where the code calls `time.Now()`.
pub mod Windows
use kovern.Prelude.{Bool, Option, none, some, List, [], ◌∷◌, ◌++◌, if◌then◌else◌, keep}
use kovern.Prelude.Int.{ℤ, neg_ℤ, wrap64}
use kovern.Prelude.Text.{Text}
use kovern.Prelude.Dict.{Dict, lookup, insert}
use kovern.Time
use kovern.Time.{Time, Duration, after, seconds}
use kovern.Ledger.{key}

pub record ToolCall : Type 0 where
  pub tool_name : Text
  pub timestamp : Time

pub record SpanStore : Type 0 where
  pub records : Dict (List ToolCall)

unfoldable pub new : SpanStore
new = record { records = [] }

abbrev pub or_nil : Option (List ToolCall) → List ToolCall
or_nil none = []
or_nil (some calls) = calls

-- The calls kept for a pod: the map's entry, or nil.
unfoldable pub calls_of : SpanStore → Text → Text → List ToolCall
calls_of s namespace pod = or_nil (lookup (key namespace pod) s.records)

unfoldable pub add_call : SpanStore → Text → Text → Text → Time → SpanStore
unfolding calls_of
add_call s namespace pod tool ts =
    let call : ToolCall = record { tool_name = tool; timestamp = ts } in
    record {
      records = insert (key namespace pod) (calls_of s namespace pod ++ (call ∷ [])) s.records;
    }

abbrev pub is_recent : Time → ToolCall → Bool
is_recent cutoff call = after call.timestamp cutoff

-- `time.Now().Add(-time.Duration(windowSeconds) * time.Second)`
unfoldable pub cutoff : Time → ℤ → Time
cutoff now window_seconds = Time.add now (seconds (wrap64 (neg_ℤ window_seconds)))

unfoldable pub window : Time → SpanStore → Text → Text → ℤ → List ToolCall
window now s namespace pod window_seconds =
    keep (is_recent (cutoff now window_seconds)) (calls_of s namespace pod)

abbrev with_calls : Text → List ToolCall → Dict (List ToolCall) → Dict (List ToolCall)
with_calls k [] m = m
with_calls k (c ∷ cs) m = (k, c ∷ cs) ∷ m

-- The loop of `Trim` over the map.
unfoldable pub trim_records : Time → Dict (List ToolCall) → Dict (List ToolCall)
trim_records limit [] = []
trim_records limit ((k, calls) ∷ m) =
    with_calls k (keep (is_recent limit) calls) (trim_records limit m)

-- `time.Now().Add(-maxAge)`
unfoldable pub trim_limit : Time → Duration → Time
trim_limit now max_age = Time.add now (wrap64 (neg_ℤ max_age))

unfoldable pub trim : Time → SpanStore → Duration → SpanStore
trim now s max_age = record { records = trim_records (trim_limit now max_age) s.records }
