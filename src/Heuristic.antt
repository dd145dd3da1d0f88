-- ===== src/Heuristic.antt =====
-- internal/heuristic/engine.go: the detection of loops from the recorded tool calls.
pub mod Tallies
pub mod Cooldowns
pub mod Remediations
pub mod Requests
pub mod Calls
pub mod Reports
pub mod Starts
pub mod Marks
pub mod Effects
pub mod Evaluations
use kovern.Prelude.{
  ℕ, zero, ◌+◌, ◌*◌, Bool, true, false, Option, none, some, List, [], ◌∷◌, ltb, if◌then◌else◌,
  length,
}
use kovern.Prelude.Int.{ℤ, pos, ◌*ℤ◌, ltb_ℤ, leb_ℤ, wrap64}
use kovern.Prelude.Text.{Text}
use kovern.Prelude.Dict.{Dict, lookup, insert}
use kovern.Prelude.Result.{Result, ok, err}
use kovern.Time
use kovern.Time.{Time, Duration, seconds, nano_per_second}
use kovern.Api.{LivelockPolicy, OtelCriteria}
use kovern.Ledger.{key}
use kovern.Spans.{ToolCall, SpanStore, window, trim}
use kovern.Spans.Windows.{ten_minutes}
use kovern.Cluster.{Pod, PodPhase, running, other_phase}
use kovern.Cluster.Client.{Client}
use kovern.Remediation.{M, ◌>>=◌, pure, remediate}

abbrev pub or_zero : Option ℕ → ℕ
or_zero none = 0
or_zero (some n) = n

-- `counts[c.ToolName]++` for each call.
unfoldable pub tally : List ToolCall → Dict ℕ → Dict ℕ
tally [] counts = counts
tally (c ∷ cs) counts =
    tally cs (insert c.tool_name (or_zero (lookup c.tool_name counts) + 1) counts)

-- The loop over the map, from the greatest count so far.
unfoldable pub greatest : ℕ → Dict ℕ → ℕ
greatest max [] = max
greatest max ((k, n) ∷ counts) = greatest (if ltb max n then n else max) counts

unfoldable pub max_same_tool_count : List ToolCall → ℕ
unfolding tally greatest
max_same_tool_count calls = greatest 0 (tally calls [])

-- The log line "livelock detected", with the time since the last remediation of the pod, where
-- `onCooldown` found one, and the reading that `setCooldown` keeps.
pub record Detection : Type 0 where
  pub namespace : Text
  pub pod : Text
  pub policy : Text
  pub calls : ℕ
  pub since : Option Duration
  pub marked_at : Time

-- The engine's own state, with the detections that it logged, the last first.
pub record Engine : Type 0 where
  pub cooldown : Dict Time
  pub detections : List Detection

unfoldable pub new : Engine
new = record { cooldown = []; detections = [] }

abbrev pub two_minutes : Duration
two_minutes = pos (120 * nano_per_second)

-- `ok && time.Since(last) < 2*time.Minute`
abbrev pub is_short : Option Duration → Bool
is_short none = false
is_short (some d) = ltb_ℤ d two_minutes

-- `setCooldown`, which ignores its duration.
unfoldable pub set_cooldown : Time → Text → Text → Duration → Dict Time → Dict Time
set_cooldown now namespace pod d cooldown = insert (key namespace pod) now cooldown

-- The interval between ticks: `Start` replaces 0 by ten seconds.
unfoldable pub interval : Duration → Duration
interval (pos zero) = pos (10 * nano_per_second)
interval d = d

module _ {W S P : Type 0} (c : Client W S P) where
  -- `time.Since(last)` for the pod's entry of the cooldown map, where it has one.
  abbrev pub elapsed : Option Time → M W (Option Duration)
  elapsed none = pure none
  elapsed (some last) = do now ← c.now; pure (some (Time.sub now last))

  -- What happens to a pod whose calls reach the maximum. The policy is changed in place.
  unfoldable pub detect :
      OtelCriteria
      → Pod
      → List ToolCall
      → Option Duration
      → Engine
      → LivelockPolicy S
      → M W (Engine × LivelockPolicy S)
  detect otel pod calls since e policy = do
    now ← c.now
    let duration = seconds (wrap64 (otel.window_seconds *ℤ pos 2))
    let found : Detection = record {
      namespace = pod.namespace;
      pod = pod.name;
      policy = policy.name;
      calls = length calls;
      since = since;
      marked_at = now;
    }
    let e' : Engine = record {
      cooldown = set_cooldown now pod.namespace pod.name duration e.cooldown;
      detections = found ∷ e.detections;
    }
    (failed, policy') ← remediate c pod policy
    pure (e', policy')

  -- `store` reads the span store of the world, which the receiver shares.
  module _ (store : W → SpanStore) where
    -- The calls in the window of a pod.
    abbrev recent_calls : OtelCriteria → Pod → M W (List ToolCall)
    recent_calls otel pod = do
      now ← c.now
      λ w. (window now (store w) pod.namespace pod.name otel.window_seconds, w)

    abbrev inspect :
        OtelCriteria
        → Pod
        → Option Duration
        → Engine
        → LivelockPolicy S
        → M W (Engine × LivelockPolicy S)
    inspect otel pod since e policy = do
      calls ← recent_calls otel pod
      if leb_ℤ otel.max_same_tool_calls (pos (max_same_tool_count calls))
          then detect otel pod calls since e policy
          else pure (e, policy)

    abbrev examine :
        PodPhase → OtelCriteria → Pod → Engine → LivelockPolicy S → M W (Engine × LivelockPolicy S)
    examine other_phase otel pod e policy = pure (e, policy)
    examine running otel pod e policy = do
      since ← elapsed (lookup (key pod.namespace pod.name) e.cooldown)
      if is_short since then pure (e, policy) else inspect otel pod since e policy

    -- The body of the loop over the pods.
    unfoldable pub evaluate_pod :
        OtelCriteria → Pod → Engine → LivelockPolicy S → M W (Engine × LivelockPolicy S)
    evaluate_pod otel pod e policy = examine pod.phase otel pod e policy

    unfoldable pub evaluate_pods :
        OtelCriteria → List Pod → Engine → LivelockPolicy S → M W (Engine × LivelockPolicy S)
    evaluate_pods otel [] e policy = pure (e, policy)
    evaluate_pods otel (pod ∷ pods) e policy = do
      (e', policy') ← evaluate_pod otel pod e policy
      evaluate_pods otel pods e' policy'

    abbrev pub evaluate_listed :
        OtelCriteria → LivelockPolicy S → Engine → Result (List Pod) → M W Engine
    evaluate_listed otel policy e (err x) = pure e
    evaluate_listed otel policy e (ok pods) = do
      (e', policy') ← evaluate_pods otel pods e policy
      pure e'

    abbrev pub evaluate_selected : OtelCriteria → LivelockPolicy S → Engine → Result P → M W Engine
    evaluate_selected otel policy e (err x) = pure e
    evaluate_selected otel policy e (ok selector) = do
      pods ← c.list_pods policy.namespace selector
      evaluate_listed otel policy e pods

    abbrev pub evaluate_otel : Option OtelCriteria → LivelockPolicy S → Engine → M W Engine
    evaluate_otel none policy e = pure e
    evaluate_otel (some otel) policy e =
        evaluate_selected otel policy e (c.as_selector policy.spec.selector)

    -- The body of the loop over the policies.
    unfoldable pub evaluate_policy : LivelockPolicy S → Engine → M W Engine
    evaluate_policy policy e = evaluate_otel policy.spec.detection.otel policy e

    unfoldable pub evaluate_policies : List (LivelockPolicy S) → Engine → M W Engine
    evaluate_policies [] e = pure e
    evaluate_policies (policy ∷ policies) e = do
      e' ← evaluate_policy policy e
      evaluate_policies policies e'

    abbrev pub evaluate_result :
        Engine → Result (List (LivelockPolicy S)) → M W (Engine × Option Text)
    evaluate_result e (err x) = pure (e, some x)
    evaluate_result e (ok policies) = do e' ← evaluate_policies policies e; pure (e', none)

    unfoldable pub evaluate : Engine → M W (Engine × Option Text)
    evaluate e = do policies ← c.list_policies; evaluate_result e policies

    module _ (put_store : SpanStore → W → W) where
      abbrev trim_store : M W (Unit {0})
      trim_store = do now ← c.now; λ w. (tt, put_store (trim now (store w) ten_minutes) w)

      -- One round of the loop of `Start`; the error of `evaluate` is only logged.
      unfoldable pub tick : Engine → M W Engine
      tick e = do _ ← trim_store; (e', failed) ← evaluate e; pure e'

      -- The loop of `Start`: before each tick the rest of the world takes a step.
      unfoldable pub ticks : List (W → W) → Engine → M W Engine
      ticks [] e = pure e
      ticks (step ∷ steps) e = λ w. (tick e >>= ticks steps) (step w)
