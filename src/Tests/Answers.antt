-- ===== src/Tests/Answers.antt =====
-- The detectors on short answers.
use kovern.Prelude.{ℕ, suc, ◌≡◌, refl, true, none, some, List, [], ◌∷◌, ◌++◌}
use kovern.Prelude.Int.{pos}
use kovern.Prelude.Text.{Text, codes, trim_space, has_prefix, to_upper, decimal}
use kovern.Prelude.Result.{Result, ok}
use kovern.Api.{LivelockPolicySpec}
use kovern.Remediation.{M}
use kovern.Detector.{anthropic, Question, livelock_yes, parse_response, is_livelocked, turns_text}
use kovern.Detector.Verdicts.{may_ask, IsTrimmed, parse_response-printed, is_livelocked_sound}
use kovern.Tests.Fixtures.{policy}

abbrev reason : Text
reason = codes "the same search"

reason-IsTrimmed : IsTrimmed reason
unfolding trim_space
reason-IsTrimmed = refl

parse_response-printed_example :
    parse_response (livelock_yes ++ (codes " | " ++ reason)) ≡ (true, reason, none)
parse_response-printed_example = parse_response-printed reason reason-IsTrimmed

second_turn : turns_text 2 (reason ∷ []) ≡ codes "--- Turn 2 ---\nthe same search\n\n"
unfolding turns_text decimal
second_turn = refl

abbrev semantic : LivelockPolicySpec Text
semantic = record policy.spec {
  detection = record policy.spec.detection {
    semantic = some (record {
      enabled = true;
      provider = codes "Anthropic";
      window_turns = pos 5;
      similarity_threshold = [];
      model = [];
    });
  };
}

-- The world counts the questions.
abbrev ask : Question → M ℕ (Result (List Text))
ask q w = (ok ((livelock_yes ++ codes " | loop ") ∷ []), suc w)

abbrev ask_gemini : Text → Question → M ℕ (Result Text)
ask_gemini client q w = (ok livelock_yes, suc w)

asked : (is_livelocked ask ask_gemini anthropic (reason ∷ reason ∷ []) semantic 0).0.0 ≡ true
unfolding is_livelocked parse_response has_prefix to_upper trim_space
asked = refl

is_livelocked_sound_example :
    (may_ask semantic.detection.semantic (reason ∷ reason ∷ []) ≡ true)
    × ((is_livelocked ask ask_gemini anthropic (reason ∷ reason ∷ []) semantic 0).0.2 ≡ none)
is_livelocked_sound_example =
    is_livelocked_sound ask ask_gemini anthropic (reason ∷ reason ∷ []) semantic 0 asked
