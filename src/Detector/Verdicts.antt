-- ===== src/Detector/Verdicts.antt =====
-- What a detector concludes from a model's answer, and when it asks at all.
use mathlib.Core.Bool.{false≢true}
use kovern.Prelude.{
  ℕ, ◌≡◌, refl, ap, ◌∙◌, Bool, true, false, ◌&&◌, Option, none, some, List, [], ◌∷◌, ◌++◌, arith,
  length, leb, ltb, Bool-cases, inl, inr, if◌then◌else◌,
}
use kovern.Prelude.Text.{
  Text, codes, has_prefix, trim_prefix, trim_space, trim_left, trim_right, to_upper, is_space,
  is_empty,
}
use kovern.Prelude.Result.{Result, ok, err}
use kovern.Api.{LivelockPolicySpec, SemanticCriteria}
use kovern.Remediation.{M}
use kovern.Detector.{
  no_loop, livelock_yes, parse_response, Question, Detector, guarded, is_livelocked, no_op,
  anthropic, gemini, Verdict, consult_anthropic, consult_gemini, anthropic_verdict, gemini_verdict,
}

-- No space at either end.
abbrev pub IsTrimmed : Text → Type 0
IsTrimmed s = trim_space s ≡ s

trim_right-trim_right : (s : Text) → trim_right (trim_right s) ≡ trim_right s
unfolding trim_right
trim_right-trim_right [] = refl
trim_right-trim_right (c ∷ s) = elim (Bool-cases (is_empty (trim_right s) && is_space c)) [
  | inl e ↦ rw e
  | inr e ↦ rw e (rw (trim_right-trim_right s, e))
]

blank_left : (r : Text) → trim_left (if is_empty r && true then [] else b' ' ∷ r) ≡ trim_left r
unfolding trim_left
blank_left [] = refl
blank_left (c ∷ r) = refl

-- A space before a text is trimmed.
trim_space-blank : (s : Text) → trim_space (b' ' ∷ s) ≡ trim_space s
unfolding trim_space trim_left trim_right
trim_space-blank s = blank_left (trim_right s)

trim_space-trim_right : (s : Text) → trim_space (trim_right s) ≡ trim_space s
unfolding trim_space
trim_space-trim_right s = ap trim_left (trim_right-trim_right s)

trim_space-bar : (s : Text) → trim_space (b'|' ∷ s) ≡ b'|' ∷ trim_right s
unfolding trim_space trim_left trim_right
trim_space-bar s = elim (Bool-cases (is_empty (trim_right s))) [ inl e ↦ rw e | inr e ↦ rw e ]

-- The answer that the prompt asks for, with a reason that has no space at its ends, is read as a
-- loop with that reason.
pub parse_response-printed :
    (reason : Text)
    → IsTrimmed reason
    → parse_response (livelock_yes ++ (codes " | " ++ reason)) ≡ (true, reason, none)
unfolding parse_response has_prefix trim_prefix to_upper
parse_response-printed reason h =
    rw (trim_space-blank (b'|' ∷ b' ' ∷ reason), trim_space-bar (b' ' ∷ reason))
      (ap (λ (s : Text). (true, s, none))
        (trim_space-trim_right (b' ' ∷ reason) ∙ trim_space-blank reason ∙ h))

parse_response-error : (t : Text) → (parse_response t).2 ≡ none
unfolding parse_response
parse_response-error t = elim (Bool-cases (has_prefix (to_upper t) livelock_yes)) [
  | inl e ↦ rw e
  | inr e ↦ rw e
]

anthropic_verdict-error :
    (r : Result (List Text)) → (anthropic_verdict r).0 ≡ true → (anthropic_verdict r).2 ≡ none
anthropic_verdict-error (err e) h = cc h
anthropic_verdict-error (ok []) h = cc h
anthropic_verdict-error (ok (text ∷ _)) h = parse_response-error (trim_space text)

gemini_verdict-error : (r : Result Text) → (gemini_verdict r).0 ≡ true → (gemini_verdict r).2 ≡ none
gemini_verdict-error (err e) h = cc h
gemini_verdict-error (ok text) h = parse_response-error (trim_space text)

leb_of_ltb : (a b : ℕ) → ltb a b ≡ true → leb b a ≡ false
leb_of_ltb a b h = ground arith

leb_of_not_ltb : (a b : ℕ) → ltb a b ≡ false → leb b a ≡ true
leb_of_not_ltb a b h = ground arith

-- Semantic detection is enabled, and there are at least two turns.
abbrev pub may_ask : Option SemanticCriteria → List Text → Bool
may_ask none turns = false
may_ask (some cfg) turns = cfg.enabled && leb 2 (length turns)

-- A verdict of a loop is never together with an error.
abbrev IsSound : Verdict → Type 0
IsSound v = v.0 ≡ true → v.2 ≡ none

module _ {W : Type 0} (turns : List Text) (consult : SemanticCriteria → M W Verdict) (w : W) where
  -- The guards as one test.
  guarded-may_ask :
      (cfg : SemanticCriteria)
      → guarded (some cfg) turns consult w
        ≡ (if may_ask (some cfg) turns then consult cfg w else (no_loop, w))
  guarded-may_ask cfg = elim (Bool-cases cfg.enabled) [
    | inl on ↦ elim (Bool-cases (ltb (length turns) 2)) [
      | inl few ↦ rw (on, few, leb_of_ltb (length turns) 2 few) refl
      | inr enough ↦ rw (on, enough, leb_of_not_ltb (length turns) 2 enough) refl
    ]
    | inr off ↦ rw off
  ]

  guarded_quiet :
      (o : Option SemanticCriteria)
      → may_ask o turns ≡ false
      → guarded o turns consult w ≡ (no_loop, w)
  guarded_quiet none h = refl
  guarded_quiet (some cfg) h = rw (guarded-may_ask cfg, h) refl

  guarded-error :
      (o : Option SemanticCriteria)
      → ((cfg : SemanticCriteria) → IsSound (consult cfg w).0)
      → (guarded o turns consult w).0.0 ≡ true
      → (may_ask o turns ≡ true) × ((guarded o turns consult w).0.2 ≡ none)
  guarded-error none sound h = absurd (false≢true h)
  guarded-error (some cfg) sound h = elim (Bool-cases (may_ask (some cfg) turns)) [
    | inl may ↦
        (may, rw (guarded-may_ask cfg, may) (sound cfg (rw (guarded-may_ask cfg, may) at h)))
    | inr no_call ↦ absurd (false≢true (rw (guarded-may_ask cfg, no_call) at h))
  ]

module _ {G W : Type 0} (ask_anthropic : Question → M W (Result (List Text)))
    (ask_gemini : G → Question → M W (Result Text)) where
  -- Where semantic detection is missing or disabled, or there are fewer than two turns, a detector
  -- reports no loop and asks no model.
  pub is_livelocked_quiet :
      {S : Type 0} (d : Detector G) (turns : List Text) (spec : LivelockPolicySpec S) (w : W)
      → may_ask spec.detection.semantic turns ≡ false
      → is_livelocked ask_anthropic ask_gemini d turns spec w ≡ (no_loop, w)
  unfolding is_livelocked
  is_livelocked_quiet no_op turns spec w h = guarded_quiet turns _ w spec.detection.semantic h
  is_livelocked_quiet anthropic turns spec w h = guarded_quiet turns _ w spec.detection.semantic h
  is_livelocked_quiet (gemini g) turns spec w h = guarded_quiet turns _ w spec.detection.semantic h

  -- A detector reports a loop only where semantic detection is enabled and there are at least two
  -- turns, and never together with an error.
  pub is_livelocked_sound :
      {S : Type 0} (d : Detector G) (turns : List Text) (spec : LivelockPolicySpec S) (w : W)
      → (is_livelocked ask_anthropic ask_gemini d turns spec w).0.0 ≡ true
      → (may_ask spec.detection.semantic turns ≡ true)
        × ((is_livelocked ask_anthropic ask_gemini d turns spec w).0.2 ≡ none)
  unfolding is_livelocked
  is_livelocked_sound no_op turns spec w h =
      guarded-error turns _ w spec.detection.semantic (λ cfg. cc) h
  is_livelocked_sound anthropic turns spec w h =
      guarded-error turns (consult_anthropic ask_anthropic turns) w spec.detection.semantic
        (λ cfg. anthropic_verdict-error _) h
  is_livelocked_sound (gemini g) turns spec w h =
      guarded-error turns (consult_gemini (ask_gemini g) turns) w spec.detection.semantic
        (λ cfg. gemini_verdict-error _) h
