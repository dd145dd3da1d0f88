-- ===== src/Policy.antt =====
-- internal/controller/livelockpolicy_controller.go: the reconciler of LivelockPolicy objects, which
-- only logs what it finds. A requeue time of 0 is none.
use kovern.Prelude.{◌≡◌, refl, Bool, false, true, Option, none, some, List, [], ◌∷◌}
use kovern.Prelude.Int.{pos}
use kovern.Prelude.Text.{Text}
use kovern.Prelude.Result.{Result}
use kovern.Api.{LivelockPolicy, SemanticCriteria, OtelCriteria, RemediationAction}
use kovern.Remediation.{M}
use kovern.Quota.{Fetch, fetched, not_found, fetch_error, Outcome, done, failed}
use kovern.Detector.{Detector, Question, is_livelocked, no_loop}
use kovern.Detector.Verdicts.{may_ask, is_livelocked_quiet}

-- The log line "reconciled LivelockPolicy".
pub record PolicyLog : Type 0 where
  pub namespace : Text
  pub name : Text
  pub otel_enabled : Bool
  pub semantic_enabled : Bool
  pub remediation_action : RemediationAction

abbrev is_some : Option OtelCriteria → Bool
is_some none = false
is_some (some otel) = true

abbrev is_enabled : Option SemanticCriteria → Bool
is_enabled none = false
is_enabled (some semantic) = semantic.enabled

module _ {S : Type 0} where
  -- `Reconcile` for the object `namespace/name`: what it logs, and its result.
  unfoldable pub reconcile_policy :
      Text → Text → Fetch (LivelockPolicy S) → List PolicyLog × Outcome
  reconcile_policy namespace name not_found = ([], done (pos 0))
  reconcile_policy namespace name (fetch_error e) = ([], failed e)
  reconcile_policy namespace name (fetched policy) =
      let line : PolicyLog = record {
        namespace = namespace;
        name = name;
        otel_enabled = is_some policy.spec.detection.otel;
        semantic_enabled = is_enabled policy.spec.detection.semantic;
        remediation_action = policy.spec.remediation.action;
      } in
      (line ∷ [], done (pos 0))

may_ask-is_enabled :
    (o : Option SemanticCriteria) (turns : List Text)
    → is_enabled o ≡ false
    → may_ask o turns ≡ false
may_ask-is_enabled none turns off = refl
may_ask-is_enabled (some semantic) turns off = rw off refl

-- Where the log line of a policy says that semantic detection is off, no detector asks a model about
-- the policy, or reports a loop.
reconcile_policy-is_livelocked :
    {S G W : Type 0} (ask_anthropic : Question → M W (Result (List Text)))
    (ask_gemini : G → Question → M W (Result Text)) (d : Detector G) (turns : List Text)
    (policy : LivelockPolicy S) (namespace name : Text) (w : W) {line : PolicyLog}
    → (reconcile_policy namespace name (fetched policy)).0 ≡ line ∷ []
    → line.semantic_enabled ≡ false
    → is_livelocked ask_anthropic ask_gemini d turns policy.spec w ≡ (no_loop, w)
unfolding reconcile_policy
reconcile_policy-is_livelocked ask_anthropic ask_gemini d turns policy namespace name w {line}
      logged off =
    is_livelocked_quiet ask_anthropic ask_gemini d turns policy.spec w
      (may_ask-is_enabled policy.spec.detection.semantic turns (cc (logged, off)))
