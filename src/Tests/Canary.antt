-- ===== src/Tests/Canary.antt =====
-- A canary whose second load answers as the first.
use grpo_guard.Canary.{
  CanaryResult, Response, _token_diff, answer_dict, verdict_pass, check, fold_max, sketch,
  sketch_diffs,
}
use grpo_guard.Canary.Passed.{AnsweredAs, check-AnsweredAs}
use grpo_guard.Prelude.{String, [], refl, ◌∷◌, ◌≡◌}
use grpo_guard.Prelude.Int.{pos}
use grpo_guard.Prelude.Result.{ok}

abbrev steady : String → Response
steady p = answer_dict ((1 ∷ 2 ∷ []) ∷ [])

abbrev steady_result : CanaryResult
steady_result = record {
  policy_version = 1;
  sketches = (1 ∷ 2 ∷ []) ∷ (1 ∷ 2 ∷ []) ∷ [];
  max_token_drift = 0;
  verdict = verdict_pass;
}

steady_checks :
    check steady ("a" ∷ "b" ∷ []) 1 ((1 ∷ 2 ∷ []) ∷ (1 ∷ 2 ∷ []) ∷ []) (pos 0) ≡ ok steady_result
unfolding check sketch sketch_diffs _token_diff fold_max
steady_checks = refl

check-AnsweredAs_example : AnsweredAs steady ("a" ∷ "b" ∷ []) ((1 ∷ 2 ∷ []) ∷ (1 ∷ 2 ∷ []) ∷ [])
check-AnsweredAs_example =
    check-AnsweredAs steady ("a" ∷ "b" ∷ []) 1 ((1 ∷ 2 ∷ []) ∷ (1 ∷ 2 ∷ []) ∷ []) steady_result
      steady_checks refl
