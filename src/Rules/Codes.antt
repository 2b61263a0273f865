-- ===== src/Rules/Codes.antt =====
-- What every rule of the table has in common: the code that it reports, and its decision.
use grpo_guard.Context.{ValidationContext}
use grpo_guard.Prelude.{String, arith, some, ◌≡◌, ◌≢◌}
use grpo_guard.Prelude.Result.{ok}
use grpo_guard.Rules.Base.{RuleResult}
use grpo_guard.Rules.Data.{
  d001_split_manifest_missing, d002_prompt_not_in_declared_split, d003_split_overlap,
  d004_prompt_content_mismatch, r001_reward_protocol_missing, r002_infra_error_as_task_fail,
  r003_reward_missing_pre_update, r004_reward_present_pre_reward, r005_parent_identity_not_allowed,
  r006_evaluator_alias, r008_reward_verifier_unregistered,
}
use grpo_guard.Rules.Logprobs.{
  l001_missing_behavior_logprob, l002_source_event_mismatch, l003_scorer_policy_mismatch,
  l004_token_logprob_length_mismatch, l005_scoring_after_update, l006_unsupported_provenance,
  l007_authoritative_source_ambiguous, l008_nonauthoritative_logprob_consumed,
}
use grpo_guard.Rules.Masks.{
  m001_mask_shape_mismatch, m002_prompt_selected, m003_padding_selected,
  m004_canonical_mask_mismatch, m005_empty_completion,
}
use grpo_guard.Rules.Policy.{
  p001_missing_policy_manifest, p002_checkpoint_hash_mismatch, p003_missing_sync_event,
  p004_stale_policy_strict, p005_lag_exceeds_bound, p006_correction_undeclared,
  p007_event_order_invalid, p008_canary_mismatch, p009_contract_protocol_mismatch,
}
use grpo_guard.Rules.Table.{run_rule}
use grpo_guard.Rules.Tokens.{
  t001_artifact_hash_mismatch, t002_tokenizer_mismatch, t003_chat_template_mismatch,
  t004_token_sequence_mismatch, t005_span_out_of_range,
}
use grpo_guard.Schema.Decision.{Code, allow, l004, m001, m002, m003, m004, t005}
use grpo_guard.Schema.Seal.{Bytes}

abbrev Reports : Code → RuleResult → Type 0
Reports c r = (r.code ≡ c) × (r.decision ≢ allow)

module _ (sha256 : Bytes → String) (ctx : ValidationContext) where
  l004-Reports :
      {r : RuleResult}
      → l004_token_logprob_length_mismatch sha256 ctx ≡ ok (some r)
      → Reports l004 r
  unfolding l004_token_logprob_length_mismatch
  l004-Reports h = ground arith

  m001-Reports :
      {r : RuleResult} → m001_mask_shape_mismatch sha256 ctx ≡ ok (some r) → Reports m001 r
  unfolding m001_mask_shape_mismatch
  m001-Reports h = ground arith

  m002-Reports : {r : RuleResult} → m002_prompt_selected sha256 ctx ≡ ok (some r) → Reports m002 r
  unfolding m002_prompt_selected
  m002-Reports h = ground arith

  m003-Reports : {r : RuleResult} → m003_padding_selected sha256 ctx ≡ ok (some r) → Reports m003 r
  unfolding m003_padding_selected
  m003-Reports h = ground arith

  m004-Reports :
      {r : RuleResult} → m004_canonical_mask_mismatch sha256 ctx ≡ ok (some r) → Reports m004 r
  unfolding m004_canonical_mask_mismatch
  m004-Reports h = ground arith

  t005-Reports : {r : RuleResult} → t005_span_out_of_range sha256 ctx ≡ ok (some r) → Reports t005 r
  unfolding t005_span_out_of_range
  t005-Reports h = ground arith

  -- A rule that fires reports its own code, and never the decision `allow`.
  pub run_rule-code :
      (c : Code) {r : RuleResult}
      → run_rule sha256 c ctx ≡ ok (some r)
      → (r.code ≡ c) × (r.decision ≢ allow)
  unfolding run_rule d001_split_manifest_missing d002_prompt_not_in_declared_split
      d003_split_overlap d004_prompt_content_mismatch l001_missing_behavior_logprob
      l002_source_event_mismatch l003_scorer_policy_mismatch l005_scoring_after_update
      l006_unsupported_provenance l007_authoritative_source_ambiguous
      l008_nonauthoritative_logprob_consumed m005_empty_completion p001_missing_policy_manifest
      p002_checkpoint_hash_mismatch p003_missing_sync_event p004_stale_policy_strict
      p005_lag_exceeds_bound p006_correction_undeclared p007_event_order_invalid
      p008_canary_mismatch p009_contract_protocol_mismatch r001_reward_protocol_missing
      r002_infra_error_as_task_fail r003_reward_missing_pre_update r004_reward_present_pre_reward
      r005_parent_identity_not_allowed r006_evaluator_alias r008_reward_verifier_unregistered
      t001_artifact_hash_mismatch t002_tokenizer_mismatch t003_chat_template_mismatch
      t004_token_sequence_mismatch
  run_rule-code l004 h = l004-Reports h
  run_rule-code m001 h = m001-Reports h
  run_rule-code m002 h = m002-Reports h
  run_rule-code m003 h = m003-Reports h
  run_rule-code m004 h = m004-Reports h
  run_rule-code t005 h = t005-Reports h
  run_rule-code _ h = ground arith
