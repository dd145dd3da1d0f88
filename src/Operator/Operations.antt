-- ===== src/Operator/Operations.antt =====
-- The operations of the operator as runs of its steps.
use kovern.Prelude.{
  ℕ, suc, ◌≡◌, sym, refl, All, Bool, List, [], ◌∷◌, inl, inr, Bool-cases, Option-cases,
}
use mathlib.Core.Path.{subst}
use kovern.Prelude.Int.{ℤ}
use kovern.Prelude.Text.{Text, is_empty}
use kovern.Prelude.Result.{Result, ok, err}
use kovern.Float.{Float64}
use kovern.Time.{Time}
use kovern.Api.{TokenQuota}
use kovern.Ledger.Runs.{Call, spends, step, run}
use kovern.Pricing.{new_default_estimator}
use kovern.Spans.{trim}
use kovern.Spans.Windows.{ten_minutes}
use kovern.Cluster.Client.{Client}
use kovern.Quota.{Readings, Update, Fetch}
use kovern.Quota.Calls.{calls_of, reconcile-run}
use kovern.Receiver.{Clock, HttpRequest, Method, post, other_method, serve, usage, charge, recorded}
use kovern.Receiver.Attributes.{TraceRequest, extract_tool_name, parse_nano}
use kovern.Receiver.Visits.{Visit, visits, with_spend, spends_of, stored, charge-run}
use kovern.Operator.{System, receive, reconcile_quota, engine_tick}
use kovern.Operator.Requests.{spends_in, visited, receive-visited}
use kovern.Operator.Evaluations.{evaluate-Run}
use kovern.Operator.Steps.{Step, Steps, only, join}

module _ {F K S P Q : Type 0} ⦃f : Float64 F⦄ (client : Client K S P) (as_int64 : Q → ℤ × Bool)
    (Allowed : Call F Q → Type 0) where
  abbrev Run : System F K → System F K → Type 0
  Run = Steps client as_int64 Allowed

  recorded-Run :
      (s : System F K) (now : Time) (v : Visit F)
      → Run s (record s { spans = recorded now s.spans v.namespace v.pod v.span })
  unfolding recorded
  recorded-Run s now v =
      let tool = extract_tool_name v.span in
      elim (Bool-cases (is_empty tool)) [
        | inl e ↦ rw e Steps.here
        | inr e ↦ rw e (
            only client as_int64 Allowed
              (Step.records v.namespace v.pod tool (parse_nano now v.span.start_time_unix_nano)))
      ]

  charge-Run :
      (clock : Clock) (s : System F K) (now : Time) (v : Visit F) (rest : List (Call F Q))
      → All Allowed (
          with_spend clock
            (is_empty v.service_account)
            now
            v
            (usage new_default_estimator v.span)
            rest)
      → Run s (record s {
        ledger = charge now s.ledger new_default_estimator v.namespace v.service_account v.span;
      })
        × All Allowed rest
  unfolding charge step
  charge-Run clock s now v rest all = elim (Bool-cases (is_empty v.service_account)) [
    | inl e ↦ rw e (Steps.here, rw e at (all))
    | inr e ↦ rw e (elim (Option-cases (usage new_default_estimator v.span)) [
      | inl free ↦ rw free (Steps.here, rw (e, free) at (all))
      | inr ((usd, tokens), paid) ↦
          let (first, others) : All Allowed
              (spends now v.namespace v.service_account usd tokens ∷ rest) =
            rw (e, paid) at (all) in
          rw paid (
            only client as_int64 Allowed
                (Step.calls (spends now v.namespace v.service_account usd tokens) first),
            others,
          )
    ])
  ]

  visited-Run :
      (clock : Clock) (vs : List (Visit F)) (n : ℕ) (s : System F K)
      → All Allowed (spends_of clock new_default_estimator n vs)
      → Run s (visited as_int64 clock n vs s)
  unfolding run
  visited-Run clock [] n s all = Steps.here
  visited-Run clock (v ∷ vs) n s all =
      let s' = record s { spans = recorded (clock.parsed_at n) s.spans v.namespace v.pod v.span } in
      let s'' : System F K = record s' {
        ledger =
            charge (clock.spent_at n) s.ledger new_default_estimator v.namespace v.service_account
              v.span;
      } in
      let rest = spends_of clock new_default_estimator (suc n) vs in
      let (paid, all') = charge-Run clock s' (clock.spent_at n) v rest all in
      join client as_int64 Allowed (recorded-Run s (clock.parsed_at n) v) (
        join client as_int64 Allowed paid (
          subst (λ c. Run s'' (record s { spans = stored clock n (v ∷ vs) s.spans; ledger = c }))
            (charge-run clock as_int64 (clock.spent_at n) s.ledger new_default_estimator v rest)
            (visited-Run clock vs (suc n) s'' all')))

  module _ {B : Type 0} (clock : Clock) (decode : B → Result (TraceRequest F)) where
    receive-Run :
        (req : HttpRequest B) (s : System F K)
        → All Allowed (spends_in clock decode req)
        → Run s (receive clock decode req s).1
    unfolding receive serve
    receive-Run req s all = go req.method (decode req.body) refl refl all
      where
        go :
            (m : Method) (d : Result (TraceRequest F))
            → req.method ≡ m
            → decode req.body ≡ d
            → All Allowed (spends_in clock decode req)
            → Run s (receive clock decode req s).1
        go other_method d e _ _ = rw e Steps.here
        go post (err x) e e' _ = rw (e, e') Steps.here
        go post (ok tr) e e' all =
            subst (λ (o : ℕ × System F K). Run s o.1)
              (sym (receive-visited as_int64 clock decode req tr s e e'))
              (visited-Run clock (visits tr.resource_spans) 0 s (rw (e, e') at (all)))

  run-Run :
      (calls : List (Call F Q)) (s : System F K)
      → All Allowed calls
      → Run s (record s { ledger = run as_int64 s.ledger calls })
  unfolding run
  run-Run [] s _ = Steps.here
  run-Run (call ∷ calls) s (first, others) =
      join client as_int64 Allowed (only client as_int64 Allowed (Step.calls call first))
        (run-Run calls (record s { ledger = step as_int64 s.ledger call }) others)

  reconcile_quota-Run :
      (r : Readings) (answer : ℕ → TokenQuota Q → Update) (ns name : Text)
      (found : Fetch (TokenQuota Q)) (s : System F K)
      → All Allowed (calls_of r ns name found)
      → Run s (reconcile_quota as_int64 r answer ns name found s).1
  unfolding reconcile_quota
  reconcile_quota-Run r answer ns name found s all =
      subst (λ c. Run s (record s { ledger = c }))
        (sym (reconcile-run as_int64 r answer s.ledger ns name found))
        (run-Run (calls_of r ns name found) s all)

  engine_tick-Run : (now : Time) (s : System F K) → Run s (engine_tick client now s).1
  unfolding engine_tick
  engine_tick-Run now s =
      join client as_int64 Allowed (only client as_int64 Allowed (Step.trims now))
        (evaluate-Run client as_int64 Allowed (record s { spans = trim now s.spans ten_minutes }))

abbrev pub Anything : {F Q : Type 0} → Call F Q → Type 0
Anything call = Unit

anything : {F Q : Type 0} (calls : List (Call F Q)) → All Anything calls
anything [] = tt
anything (call ∷ calls) = (tt, anything calls)

module _ {F K S P Q B : Type 0} ⦃f : Float64 F⦄ (client : Client K S P) (as_int64 : Q → ℤ × Bool)
    (clock : Clock) (decode : B → Result (TraceRequest F)) where
  -- Every operation of the operator amounts to a run of its steps: a trace request, a reconciliation
  -- and a tick of the engine change the system in no other way than by calls of the ledger, calls of
  -- the span store, and the engine's evaluations of one pod each.
  pub operations-Steps :
      (s : System F K)
      → ((req : HttpRequest B) → Steps client as_int64 Anything s (receive clock decode req s).1)
        × ((r : Readings) (answer : ℕ → TokenQuota Q → Update) (ns name : Text)
              (found : Fetch (TokenQuota Q))
            → Steps client as_int64 Anything s
                (reconcile_quota as_int64 r answer ns name found s).1)
        × ((now : Time) → Steps client as_int64 Anything s (engine_tick client now s).1)
  operations-Steps s = (
    λ req. receive-Run client as_int64 Anything clock decode req s (anything _),
    λ r answer ns name found.
        reconcile_quota-Run client as_int64 Anything r answer ns name found s (anything _),
    λ now. engine_tick-Run client as_int64 Anything now s,
  )
