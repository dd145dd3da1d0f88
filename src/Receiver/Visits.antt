-- ===== src/Receiver/Visits.antt =====
-- The loops of a request as one pass over its spans.
use mathlib.Core.List.{map-append}
use kovern.Prelude.{
  ℕ, suc, ◌≡◌, ◌∙◌, sym, refl, ap, Bool, true, false, ◌||◌, Option, none, some, List, [], ◌∷◌, ◌++◌,
  map, if◌then◌else◌, Bool-cases, Option-cases, inl, inr,
}
use kovern.Prelude.Int.{ℤ}
use kovern.Prelude.Text.{Text, codes, is_empty}
use kovern.Float.{Float64}
use kovern.Time.{Time}
use kovern.Ledger.{Cache}
use kovern.Ledger.Runs.{Call, spends, run}
use kovern.Spans.{SpanStore}
use kovern.Pricing.{Estimator}
use kovern.Receiver.Attributes.{OtlpSpan, ScopeSpans, ResourceSpans, attr_str}
use kovern.Receiver.{
  Clock, Handler, usage, charge, recorded, ingest_span, ingest_spans, ingest_scopes,
  ingest_resource, ingest,
}

-- A span with what its resource says of it.
pub record Visit (F : Type 0) : Type 0 where
  pub namespace : Text
  pub pod : Text
  pub service_account : Text
  pub span : OtlpSpan F

module _ {F : Type 0} where
  abbrev pub spans_of : List (ScopeSpans F) → List (OtlpSpan F)
  spans_of [] = []
  spans_of (ss ∷ scopes) = ss.spans ++ spans_of scopes

  abbrev pub visit : Text → Text → Text → OtlpSpan F → Visit F
  visit ns pod sa span = record { namespace = ns; pod = pod; service_account = sa; span = span }

  -- The spans of a resource that names its namespace and its pod.
  abbrev pub resource_visits : ResourceSpans F → List (Visit F)
  resource_visits rs =
      let ns = attr_str rs.resource_attributes (codes "k8s.namespace.name") in
      let pod = attr_str rs.resource_attributes (codes "k8s.pod.name") in
      let sa = attr_str rs.resource_attributes (codes "k8s.serviceaccount.name") in
      if is_empty ns || is_empty pod then [] else map (visit ns pod sa) (spans_of rs.scope_spans)

  -- The spans of a request that are handled, in order.
  abbrev pub visits : List (ResourceSpans F) → List (Visit F)
  visits [] = []
  visits (rs ∷ resources) = resource_visits rs ++ visits resources

module _ {F : Type 0} ⦃f : Float64 F⦄ (clock : Clock) where
  -- The store after the spans from the n-th on.
  abbrev pub stored : ℕ → List (Visit F) → SpanStore → SpanStore
  stored n [] s = s
  stored n (v ∷ vs) s = stored (suc n) vs (recorded (clock.parsed_at n) s v.namespace v.pod v.span)

  abbrev pub with_spend :
      {Q : Type 0} → Bool → Time → Visit F → Option (F × ℤ) → List (Call F Q) → List (Call F Q)
  with_spend true now v u calls = calls
  with_spend false now v none calls = calls
  with_spend false now v (some (usd, tokens)) calls =
      spends now v.namespace v.service_account usd tokens ∷ calls

  -- A spend for each span whose resource names a service account and that has usage attributes.
  abbrev pub spends_of : {Q : Type 0} → Estimator F → ℕ → List (Visit F) → List (Call F Q)
  spends_of e n [] = []
  spends_of e n (v ∷ vs) =
      with_spend (is_empty v.service_account) (clock.spent_at n) v (usage e v.span)
        (spends_of e (suc n) vs)

  pub visit_all : List (Visit F) → ℕ × Handler F → ℕ × Handler F
  visit_all [] st = st
  visit_all (v ∷ vs) st =
      visit_all vs (ingest_span clock v.namespace v.pod v.service_account v.span st)

  visit_all-append :
      (vs ws : List (Visit F)) (st : ℕ × Handler F)
      → visit_all (vs ++ ws) st ≡ visit_all ws (visit_all vs st)
  unfolding visit_all
  visit_all-append [] ws st = refl
  visit_all-append (v ∷ vs) ws st =
      visit_all-append vs ws (ingest_span clock v.namespace v.pod v.service_account v.span st)

  ingest_spans-visit_all :
      (ns pod sa : Text) (spans : List (OtlpSpan F)) (st : ℕ × Handler F)
      → ingest_spans clock ns pod sa spans st ≡ visit_all (map (visit ns pod sa) spans) st
  unfolding ingest_spans visit_all
  ingest_spans-visit_all ns pod sa [] st = refl
  ingest_spans-visit_all ns pod sa (span ∷ spans) st =
      ingest_spans-visit_all ns pod sa spans (ingest_span clock ns pod sa span st)

  ingest_scopes-visit_all :
      (ns pod sa : Text) (scopes : List (ScopeSpans F)) (st : ℕ × Handler F)
      → ingest_scopes clock ns pod sa scopes st
        ≡ visit_all (map (visit ns pod sa) (spans_of scopes)) st
  unfolding ingest_scopes visit_all
  ingest_scopes-visit_all ns pod sa [] st = refl
  ingest_scopes-visit_all ns pod sa (ss ∷ scopes) st =
      ingest_scopes-visit_all ns pod sa scopes (ingest_spans clock ns pod sa ss.spans st)
      ∙ ap (visit_all (map (visit ns pod sa) (spans_of scopes)))
          (ingest_spans-visit_all ns pod sa ss.spans st)
      ∙ sym (visit_all-append (map (visit ns pod sa) ss.spans) _ st)
      ∙ ap (λ vs. visit_all vs st) (sym (map-append (visit ns pod sa) ss.spans (spans_of scopes)))

  ingest_resource-visit_all :
      (rs : ResourceSpans F) (st : ℕ × Handler F)
      → ingest_resource clock rs st ≡ visit_all (resource_visits rs) st
  unfolding ingest_resource visit_all
  ingest_resource-visit_all rs st =
      let ns = attr_str rs.resource_attributes (codes "k8s.namespace.name") in
      let pod = attr_str rs.resource_attributes (codes "k8s.pod.name") in
      elim (Bool-cases (is_empty ns || is_empty pod)) [
        | inl skipped ↦ rw skipped
        | inr named ↦ rw named (ingest_scopes-visit_all ns pod _ rs.scope_spans st)
      ]

  pub ingest-visit_all :
      (resources : List (ResourceSpans F)) (st : ℕ × Handler F)
      → ingest clock resources st ≡ visit_all (visits resources) st
  unfolding ingest visit_all
  ingest-visit_all [] st = refl
  ingest-visit_all (rs ∷ resources) st =
      ingest-visit_all resources (ingest_resource clock rs st)
      ∙ ap (visit_all (visits resources)) (ingest_resource-visit_all rs st)
      ∙ sym (visit_all-append (resource_visits rs) (visits resources) st)

  pub visit_all-store :
      (vs : List (Visit F)) (n : ℕ) (h : Handler F)
      → (visit_all vs (n, h)).1.store ≡ stored n vs h.store
  unfolding visit_all ingest_span
  visit_all-store [] n h = refl
  visit_all-store (v ∷ vs) n h = visit_all-store vs (suc n) _

  module _ {Q : Type 0} (as_int64 : Q → ℤ × Bool) where
    pub charge-run :
        (now : Time) (c : Cache F) (e : Estimator F) (v : Visit F) (calls : List (Call F Q))
        → run as_int64 (charge now c e v.namespace v.service_account v.span) calls
          ≡ run as_int64 c (with_spend (is_empty v.service_account) now v (usage e v.span) calls)
    unfolding charge run
    charge-run now c e v calls = elim (Bool-cases (is_empty v.service_account)) [
      | inl anonymous ↦ rw anonymous
      | inr named ↦
          rw named
            (elim (Option-cases (usage e v.span)) [ inl free ↦ rw free | inr (u, paid) ↦ rw paid ])
    ]

    pub visit_all-cache :
        (vs : List (Visit F)) (n : ℕ) (s : SpanStore) (c : Cache F) (e : Estimator F)
        → (visit_all vs (n, record { store = s; cache = some c; cost_estimator = some e })).1.cache
          ≡ some (run as_int64 c (spends_of e n vs))
    unfolding visit_all ingest_span run
    visit_all-cache [] n s c e = refl
    visit_all-cache (v ∷ vs) n s c e =
        visit_all-cache vs (suc n) _ _ e
        ∙ ap some (charge-run (clock.spent_at n) c e v (spends_of e (suc n) vs))
