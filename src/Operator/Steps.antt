-- ===== src/Operator/Steps.antt =====
-- The steps of the operator: what happens between two changes of a lock. The parts run at the same
-- time, so a run is any sequence of these steps.
use kovern.Prelude.{Bool}
use kovern.Prelude.Int.{ℤ}
use kovern.Prelude.Text.{Text}
use kovern.Float.{Float64}
use kovern.Time.{Time}
use kovern.Api.{LivelockPolicy, OtelCriteria}
use kovern.Ledger.Runs.{Call, step}
use kovern.Spans.{add_call, trim}
use kovern.Spans.Windows.{ten_minutes}
use kovern.Heuristic.{evaluate_pod}
use kovern.Cluster.{Pod}
use kovern.Cluster.Client.{Client}
use kovern.Operator.{System}

module _ {F K S P Q : Type 0} ⦃f : Float64 F⦄ (client : Client K S P) (as_int64 : Q → ℤ × Bool)
    (Allowed : Call F Q → Type 0) where
  -- The engine has come to a pod of a policy.
  abbrev pub examined : OtelCriteria → Pod → LivelockPolicy S → System F K → System F K
  examined otel pod policy s =
      let ((engine, policy'), k) =
        evaluate_pod client (λ _. s.spans) otel pod s.engine policy s.cluster in
      record s { cluster = k; engine = engine }

  -- One step of the system: a call of the ledger, which is one that is allowed, a call of the span
  -- store, the engine's evaluation of a pod, which reads the span store once, or a change elsewhere in
  -- the cluster.
  pub data Step (s : System F K) : System F K → Type 0 where
    calls :
        (call : Call F Q)
        → Allowed call
        → Step s (record s { ledger = step as_int64 s.ledger call })
    records :
        (ns pod tool : Text) (ts : Time)
        → Step s (record s { spans = add_call s.spans ns pod tool ts })
    trims : (now : Time) → Step s (record s { spans = trim now s.spans ten_minutes })
    examines :
        (otel : OtelCriteria) (pod : Pod) (policy : LivelockPolicy S)
        → Step s (examined otel pod policy s)
    elsewhere : (k : K) → Step s (record s { cluster = k })

  pub data Steps (s : System F K) : System F K → Type 0 where
    here : Steps s s
    later : {t u : System F K} → Steps s t → Step t u → Steps s u

  pub join : {s t u : System F K} → Steps s t → Steps t u → Steps s u
  join first here = first
  join first (later rest last) = later (join first rest) last

  abbrev pub only : {s t : System F K} → Step s t → Steps s t
  only = later here
