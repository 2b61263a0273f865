-- ===== src/Rules/Table.antt =====
-- ALL_RULES of validators/rules.py, and the stages of validators/validator.py that select from it.
use grpo_guard.Context.{ValidationContext}
use grpo_guard.Prelude.{Bool, List, String, [], false, if◌then◌else◌, true, ◌∷◌}
use grpo_guard.Prelude.Result.{ok}
use grpo_guard.Rules.Base.{Verdict}
use grpo_guard.Rules.Data.{
  d001_split_manifest_missing, d002_prompt_not_in_declared_split, d003_split_overlap,
  d004_prompt_content_mismatch, r001_reward_protocol_missing, r002_infra_error_as_task_fail,
  r003_reward_missing_pre_update, r004_reward_present_pre_reward, r005_parent_identity_not_allowed,
  r006_evaluator_alias, r008_reward_verifier_unregistered,
}
use grpo_guard.Rules.Logprobs.{
  l001_missing_behavior_logprob, l002_source_event_mismatch, l003_scorer_policy_mismatch,
  l004_token_logprob_length_mismatch, l005_scoring_after_update, l006_unsupported_provenance,
  l007_authoritative_source_ambiguous, l008_nonauthoritative_logprob_consumed,
}
use grpo_guard.Rules.Masks.{
  m001_mask_shape_mismatch, m002_prompt_selected, m003_padding_selected,
  m004_canonical_mask_mismatch, m005_empty_completion,
}
use grpo_guard.Rules.Policy.{
  p001_missing_policy_manifest, p002_checkpoint_hash_mismatch, p003_missing_sync_event,
  p004_stale_policy_strict, p005_lag_exceeds_bound, p006_correction_undeclared,
  p007_event_order_invalid, p008_canary_mismatch, p009_contract_protocol_mismatch,
}
use grpo_guard.Rules.Tokens.{
  t001_artifact_hash_mismatch, t002_tokenizer_mismatch, t003_chat_template_mismatch,
  t004_token_sequence_mismatch, t005_span_out_of_range,
}
use grpo_guard.Schema.Decision.{
  Code, ValidationStage, d001, d002, d003, d004, full_pre_update, identity_pre_reward, l001, l002,
  l003, l004, l005, l006, l007, l008, m001, m002, m003, m004, m005, p001, p002, p003, p004, p005,
  p006, p007, p008, p009, r001, r002, r003, r004, r005, r006, r008, t001, t002, t003, t004, t005,
}
use grpo_guard.Schema.Seal.{Bytes}

-- ALL_RULES[code](ctx)
unfoldable pub run_rule : (Bytes → String) → Code → ValidationContext → Verdict
run_rule sha256 d001 ctx = ok (d001_split_manifest_missing ctx)
run_rule sha256 d002 ctx = ok (d002_prompt_not_in_declared_split ctx)
run_rule sha256 d003 ctx = ok (d003_split_overlap ctx)
run_rule sha256 d004 ctx = ok (d004_prompt_content_mismatch sha256 ctx)
run_rule sha256 l001 ctx = ok (l001_missing_behavior_logprob ctx)
run_rule sha256 l002 ctx = ok (l002_source_event_mismatch ctx)
run_rule sha256 l003 ctx = ok (l003_scorer_policy_mismatch ctx)
run_rule sha256 l004 ctx = l004_token_logprob_length_mismatch sha256 ctx
run_rule sha256 l005 ctx = ok (l005_scoring_after_update ctx)
run_rule sha256 l006 ctx = ok (l006_unsupported_provenance ctx)
run_rule sha256 l007 ctx = ok (l007_authoritative_source_ambiguous ctx)
run_rule sha256 l008 ctx = ok (l008_nonauthoritative_logprob_consumed ctx)
run_rule sha256 m001 ctx = m001_mask_shape_mismatch sha256 ctx
run_rule sha256 m002 ctx = m002_prompt_selected sha256 ctx
run_rule sha256 m003 ctx = m003_padding_selected sha256 ctx
run_rule sha256 m004 ctx = m004_canonical_mask_mismatch sha256 ctx
run_rule sha256 m005 ctx = ok (m005_empty_completion ctx)
run_rule sha256 p001 ctx = ok (p001_missing_policy_manifest ctx)
run_rule sha256 p002 ctx = ok (p002_checkpoint_hash_mismatch ctx)
run_rule sha256 p003 ctx = ok (p003_missing_sync_event ctx)
run_rule sha256 p004 ctx = ok (p004_stale_policy_strict ctx)
run_rule sha256 p005 ctx = ok (p005_lag_exceeds_bound ctx)
run_rule sha256 p006 ctx = ok (p006_correction_undeclared ctx)
run_rule sha256 p007 ctx = ok (p007_event_order_invalid ctx)
run_rule sha256 p008 ctx = ok (p008_canary_mismatch ctx)
run_rule sha256 p009 ctx = ok (p009_contract_protocol_mismatch ctx)
run_rule sha256 r001 ctx = ok (r001_reward_protocol_missing ctx)
run_rule sha256 r002 ctx = ok (r002_infra_error_as_task_fail ctx)
run_rule sha256 r003 ctx = ok (r003_reward_missing_pre_update ctx)
run_rule sha256 r004 ctx = ok (r004_reward_present_pre_reward ctx)
run_rule sha256 r005 ctx = ok (r005_parent_identity_not_allowed ctx)
run_rule sha256 r006 ctx = ok (r006_evaluator_alias ctx)
run_rule sha256 r008 ctx = ok (r008_reward_verifier_unregistered ctx)
run_rule sha256 t001 ctx = ok (t001_artifact_hash_mismatch sha256 ctx)
run_rule sha256 t002 ctx = ok (t002_tokenizer_mismatch ctx)
run_rule sha256 t003 ctx = ok (t003_chat_template_mismatch ctx)
run_rule sha256 t004 ctx = ok (t004_token_sequence_mismatch ctx)
run_rule sha256 t005 ctx = t005_span_out_of_range sha256 ctx

-- The keys of ALL_RULES, sorted.
abbrev pub all_rules : List Code
all_rules =
    d001 ∷ d002 ∷ d003 ∷ d004 ∷ l001 ∷ l002 ∷ l003 ∷ l004 ∷ l005 ∷ l006 ∷ l007 ∷ l008 ∷ m001 ∷ m002
    ∷ m003 ∷ m004 ∷ m005 ∷ p001 ∷ p002 ∷ p003 ∷ p004 ∷ p005 ∷ p006 ∷ p007 ∷ p008 ∷ p009 ∷ r001
    ∷ r002 ∷ r003 ∷ r004 ∷ r005 ∷ r006 ∷ r008 ∷ t001 ∷ t002 ∷ t003 ∷ t004 ∷ t005 ∷ []

-- c.startswith(("P", "T", "M", "L")) or c == "R004", for the data and reward families.
unfoldable pub in_identity : Code → Bool
in_identity d001 = false
in_identity d002 = false
in_identity d003 = false
in_identity d004 = false
in_identity r001 = false
in_identity r002 = false
in_identity r003 = false
in_identity r005 = false
in_identity r006 = false
in_identity r008 = false
in_identity _ = true

-- Every rule of the table is one of PRE_UPDATE_STAGE_RULES.
unfoldable pub in_stage : ValidationStage → Code → Bool
unfolding in_identity
in_stage identity_pre_reward c = in_identity c
in_stage full_pre_update c = true

unfoldable pub select : (Code → Bool) → List Code → List Code
select p [] = []
select p (c ∷ cs) = let rest = select p cs in if p c then c ∷ rest else rest

-- sorted(RULES_BY_STAGE[stage])
unfoldable pub rules_by_stage : ValidationStage → List Code
unfolding in_stage select
rules_by_stage stage = select (in_stage stage) all_rules
