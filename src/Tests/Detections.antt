-- ===== src/Tests/Detections.antt =====
-- A looping pod from the request that reports it to the end of the engine's tick.
use kovern.Remediation.{remediate}
use kovern.Remediation.Reports.{
  Effect, World, logged, marked, deleted, scaled, unread_owner, warned, warning_of,
  remediate-Performed,
}
use kovern.Cluster.{Pod}
use kovern.Heuristic.Effects.{Brings}
use kovern.Prelude.{ℕ, ◌⊎◌, List, ◌++◌, AnyOf, AnyOf-left, AnyOf-right, refl, true, arith, inr}
use kovern.Prelude.Int.{pos}
use kovern.Prelude.Text.{Text, codes, text_eq, parse_int, digits_value}
use kovern.Prelude.Dict.{lookup}
use kovern.Prelude.Result.{ok}
use kovern.Float.Fixed.{Fixed, fixed_float}
use kovern.Time.{add, unix, seconds}
use kovern.Api.{OtelCriteria}
use kovern.Spans
use kovern.Spans.{SpanStore, trim}
use kovern.Spans.Windows
use kovern.Spans.Windows.{ten_minutes}
use kovern.Spans.{cutoff}
use kovern.Heuristic
use kovern.Heuristic.{evaluate_pod}
use kovern.Heuristic.Requests.{Evolves}
use kovern.Receiver.Attributes.{attr_str, extract_tool_name, parse_nano}
use kovern.Operator.{System, receive, engine_tick}
use kovern.Tests.Fixtures.{team, agent, one, pod, client, policy}
use kovern.Tests.Traces.{trace, traces, take, clock}
use kovern.Operator.Detections.{IsTick, Watches, receive-engine_tick}
use kovern.Heuristic.Marks.{IsMarked}
use kovern.Prelude.{◌≤◌, some, none, ◌∷◌, [], inl, inr, refl, arith}
use kovern.Cluster.Client.{Client}
use kovern.Tests.Systems.{trace_is_fair}
use kovern.Api.{LivelockPolicy}

abbrev strict : OtelCriteria
strict = record {
  max_same_tool_calls = pos 1;
  window_seconds = pos 60;
  identical_response_hash = true;
}

abbrev strict_policy : LivelockPolicy Text
strict_policy = record policy {
  spec = record policy.spec { detection = record { otel = some strict; semantic = none } };
}

-- An API that lists two policies and two pods, at one reading of the clock, with a record of the
-- calls that remediations make.
abbrev listing : Client ℕ Text Text
listing = record client {
  now = λ w. (w, w);
  list_policies = λ w. (ok (policy ∷ strict_policy ∷ []), w);
  list_pods = λ ns p w. (ok (record pod { name = codes "agent-0" } ∷ pod ∷ []), w);
}

abbrev Cluster : Type 0
Cluster = World ℕ Text

abbrev steady : Client Cluster Text Text
steady = logged listing

abbrev During : Cluster → Type 0
During w = (90 ≤ w.base) × (w.base ≤ 110)

-- The status of a policy was updated.
abbrev IsUpdate : Effect Text → Type 0
IsUpdate (marked p) = Unit
IsUpdate (deleted p e) = ⊥
IsUpdate (scaled d e) = ⊥
IsUpdate (unread_owner x) = ⊥
IsUpdate (warned p text) = ⊥

abbrev Updated : Cluster → Type 0
Updated w = AnyOf IsUpdate w.log

steady-IsTick : IsTick steady During 90 110
steady-IsTick = record {
  kept = record {
    now = λ w d. d;
    list_policies = λ w d. d;
    list_pods = λ ns p w d. d;
    delete_pod = λ p w d. d;
    get_replica_set = λ ns name w d. d;
    get_deployment = λ ns name w d. d;
    update_deployment = λ d w h. h;
    update_status = λ p w d. d;
    warn = λ p reason text w d. d;
  };
  clock = λ w d. d;
}

still : (xs ys : List (Effect Text)) → AnyOf IsUpdate xs → AnyOf IsUpdate (xs ++ ys)
still xs ys = AnyOf-left IsUpdate xs ys

updated_lem :
    (other : Pod) (p : LivelockPolicy Text) (w : Cluster) → Updated (remediate steady other p w).1
updated_lem other p w =
    let (applied, e, effects, performed, same, _, _, _, _, _) =
      remediate-Performed listing other p w in
    rw same (
      AnyOf-right IsUpdate w.log _ (
        AnyOf-right IsUpdate effects _
          (AnyOf-right IsUpdate (warning_of p other applied) _ (inl tt))))

steady-Brings : Brings steady During Updated pod
steady-Brings = record {
  lasts = record {
    now = λ w (d, h). (d, h);
    list_policies = λ w (d, h). (d, h);
    list_pods = λ ns p w (d, h). (d, h);
    delete_pod = λ p w (d, h). (d, still w.log _ h);
    get_replica_set = λ ns name w (d, h). (d, still w.log _ h);
    get_deployment = λ ns name w (d, h). (d, still w.log _ h);
    update_deployment = λ x w (d, h). (d, still w.log _ h);
    update_status = λ p w (d, h). (d, still w.log _ h);
    warn = λ p reason text w (d, h). (d, still w.log _ h);
  };
  brought = λ other p w same d. updated_lem other p w;
}

steady-Watches : Watches steady During strict_policy strict pod
steady-Watches = record {
  selector = agent;
  enabled = refl;
  selects = refl;
  lists = λ w d. (record pod { name = codes "agent-0" } ∷ pod ∷ [], refl, inr (inl refl));
}

-- The system that the request leaves, after another call and a trim.
abbrev quiet : System Fixed Cluster
quiet = record {
  cluster = record { base = 100; log = [] };
  ledger = one;
  spans = Spans.new;
  engine = Heuristic.new;
}

abbrev served : System Fixed Cluster
served = (receive clock take traces quiet).1

abbrev evolved : System Fixed Cluster
evolved = record served {
  spans =
      trim 50 (Spans.add_call served.spans team (codes "agent-2") (codes "search") 70) ten_minutes;
}

evolves : Evolves 110 served.spans evolved.spans
evolves =
    Evolves.trims 50 (omega arith)
      (Evolves.adds team (codes "agent-2") (codes "search") 70 refl Evolves.unchanged)

receive-engine_tick_example :
    let after = (engine_tick steady 95 evolved).1 in
    IsMarked 90 110 pod after.engine × (IsMarked 90 110 pod evolved.engine ⊎ Updated after.cluster)
unfolding Heuristic.new lookup attr_str text_eq extract_tool_name parse_nano parse_int digits_value
    unix cutoff add seconds receive
receive-engine_tick_example =
    receive-engine_tick steady clock take During Updated 90 110 traces trace quiet evolved 95
      (policy ∷ strict_policy ∷ []) strict_policy strict 60 pod (codes "chat") steady-IsTick
      steady-Brings refl refl Windows.new-IsValid refl trace_is_fair.0 evolves (omega arith)
      (omega arith, omega arith) refl (inr (inl refl)) steady-Watches refl refl (omega arith)
      (omega arith)
