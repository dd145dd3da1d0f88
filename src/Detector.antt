-- ===== src/Detector.antt =====
-- internal/detector: semantic loop detection by a language model. The calls of the model providers
-- are arguments: `G` stands for a Gemini client, `W` for the state of the world.
pub mod Verdicts
use kovern.Prelude.{
  ℕ, suc, Bool, true, false, not, Option, none, some, List, [], ◌∷◌, ◌++◌, if◌then◌else◌, ltb,
  length,
}
use kovern.Prelude.Text.{
  Text, codes, text_eq, is_empty, has_prefix, trim_prefix, trim_space, to_upper, decimal,
}
use kovern.Prelude.Result.{Result, ok, err}
use kovern.Api.{LivelockPolicySpec, SemanticCriteria}
use kovern.Remediation.{M, ◌>>=◌, pure}

-- The verdict, its reason, and the error.
abbrev pub Verdict : Type 0
Verdict = Bool × Text × Option Text

abbrev pub no_loop : Verdict
no_loop = (false, [], none)

abbrev pub livelock_yes : Text
livelock_yes = codes "LIVELOCK:YES"

unfoldable pub parse_response : Text → Verdict
parse_response response =
    if has_prefix (to_upper response) livelock_yes
    then (
      true,
      trim_space (trim_prefix (trim_space (trim_prefix response livelock_yes)) (codes "|")),
      none,
    )
    else no_loop

abbrev livelock_system_prompt : Text
livelock_system_prompt =
    codes
      "You are a livelock detector for AI agent systems running on Kubernetes.\nYou will receive a sequence of recent agent turns (tool calls and their results).\nDetermine if the agent is stuck in a semantic loop — repeating equivalent actions\nor receiving functionally identical responses, making no meaningful progress.\n\nRespond ONLY in one of these two formats (no other text):\n  LIVELOCK:YES | <one-sentence reason>\n  LIVELOCK:NO"

-- The turns from the n-th on.
unfoldable pub turns_text : ℕ → List Text → Text
turns_text n [] = []
turns_text n (t ∷ turns) =
    codes "--- Turn "
    ++ (decimal n ++ (codes " ---\n" ++ (t ++ (codes "\n\n" ++ turns_text (suc n) turns))))

unfoldable pub build_prompt : List Text → Text → Text
build_prompt turns threshold =
    codes "Similarity threshold: "
    ++ (threshold
        ++ (codes "\n\nRecent agent turns (oldest first):\n\n"
            ++ (turns_text 1 turns ++ codes "Is this agent stuck in a livelock?")))

-- What a provider is asked.
pub record Question : Type 0 where
  pub model : Text
  pub system : Text
  pub prompt : Text
  pub max_tokens : ℕ

abbrev or_default : Text → Text → Text
or_default s other = if is_empty s then other else s

-- The question of a check, with the provider's default model.
unfoldable pub question : Text → SemanticCriteria → List Text → Question
question default_model cfg turns = record {
  model = or_default cfg.model default_model;
  system = livelock_system_prompt;
  prompt = build_prompt turns (or_default cfg.similarity_threshold (codes "0.92"));
  max_tokens = 256;
}

-- The texts of Anthropic's answer, or its error.
abbrev anthropic_verdict : Result (List Text) → Verdict
anthropic_verdict (err e) = (false, [], some (codes "anthropic livelock check failed: " ++ e))
anthropic_verdict (ok []) = (false, [], some (codes "empty response from Anthropic"))
anthropic_verdict (ok (text ∷ _)) = parse_response (trim_space text)

abbrev gemini_verdict : Result Text → Verdict
gemini_verdict (err e) = (false, [], some (codes "gemini livelock check failed: " ++ e))
gemini_verdict (ok text) = parse_response (trim_space text)

pub data Detector (G : Type 0) : Type 0 where
  no_op anthropic : Detector G
  gemini : G → Detector G

module _ {G : Type 0} (google_api_key : Text) (new_gemini : Text → Result G) where
  abbrev with_client : Result G → Result (Detector G)
  with_client (err e) = err (codes "gemini client: " ++ e)
  with_client (ok client) = ok (gemini client)

  abbrev detector_of : SemanticCriteria → Result (Detector G)
  detector_of cfg =
      if not cfg.enabled
      then ok no_op
      else if text_eq cfg.provider (codes "Gemini")
      then (if is_empty google_api_key
          then err (codes "detector: GOOGLE_API_KEY not set for Gemini provider")
          else with_client (new_gemini google_api_key))
      else ok anthropic

  unfoldable pub new_from_spec : Option SemanticCriteria → Result (Detector G)
  new_from_spec none = ok no_op
  new_from_spec (some cfg) = detector_of cfg

module _ {W : Type 0} where
  -- The guards, which the three detectors share, before the call of the provider.
  abbrev guarded :
      Option SemanticCriteria → List Text → (SemanticCriteria → M W Verdict) → M W Verdict
  guarded none turns consult = pure no_loop
  guarded (some cfg) turns consult =
      if not cfg.enabled
      then pure no_loop
      else if ltb (length turns) 2
      then pure no_loop
      else consult cfg

  abbrev consult_anthropic :
      (Question → M W (Result (List Text))) → List Text → SemanticCriteria → M W Verdict
  consult_anthropic ask turns cfg = do
    r ← ask (question (codes "claude-haiku-4-5-20251001") cfg turns)
    pure (anthropic_verdict r)

  abbrev consult_gemini :
      (Question → M W (Result Text)) → List Text → SemanticCriteria → M W Verdict
  consult_gemini ask turns cfg = do
    r ← ask (question (codes "gemini-2.5-flash") cfg turns)
    pure (gemini_verdict r)

  module _ {S : Type 0} where
    -- `IsLivelocked` of each of the detectors.
    unfoldable pub no_op_is_livelocked : List Text → LivelockPolicySpec S → M W Verdict
    no_op_is_livelocked turns spec = guarded spec.detection.semantic turns (λ cfg. pure no_loop)

    unfoldable pub anthropic_is_livelocked :
        (Question → M W (Result (List Text))) → List Text → LivelockPolicySpec S → M W Verdict
    anthropic_is_livelocked ask turns spec =
        guarded spec.detection.semantic turns (consult_anthropic ask turns)

    unfoldable pub gemini_is_livelocked :
        (Question → M W (Result Text)) → List Text → LivelockPolicySpec S → M W Verdict
    gemini_is_livelocked ask turns spec =
        guarded spec.detection.semantic turns (consult_gemini ask turns)

module _ {G W : Type 0} (ask_anthropic : Question → M W (Result (List Text)))
    (ask_gemini : G → Question → M W (Result Text)) where
  -- The method of the interface.
  unfoldable pub is_livelocked :
      {S : Type 0} → Detector G → List Text → LivelockPolicySpec S → M W Verdict
  unfolding no_op_is_livelocked anthropic_is_livelocked gemini_is_livelocked
  is_livelocked no_op turns spec = no_op_is_livelocked turns spec
  is_livelocked anthropic turns spec = anthropic_is_livelocked ask_anthropic turns spec
  is_livelocked (gemini client) turns spec = gemini_is_livelocked (ask_gemini client) turns spec
