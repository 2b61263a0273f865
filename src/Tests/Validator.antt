-- ===== src/Tests/Validator.antt =====
-- The validator on the sample run, and on the runs of tampered ones.
use grpo_guard.Align.{
  Alignment, apply_padding, fill, mask_from_artifact_bytes, positions_from, reconstruct_alignment,
}
use grpo_guard.ArtifactStore.{eq_bytes, get, put, verify}
use grpo_guard.Context.{ValidationContext, event}
use grpo_guard.Prelude.{
  [], all, ap, arith, compare_text, false, insert_text, length, refl, some, sorted_set, subst, sym,
  ◌-◌, ◌∙◌, ◌∷◌, ◌≡◌, ◌≢◌,
}
use grpo_guard.Prelude.Dict.{insert, lookup}
use grpo_guard.Prelude.Int.{pos}
use grpo_guard.Prelude.Result.{ok}
use grpo_guard.Rules.Base.{_authoritative_ref, _gen, _reward, _scoring, as_decision}
use grpo_guard.Rules.Data.{
  d001_split_manifest_missing, d002_prompt_not_in_declared_split, d003_split_overlap,
  d004_prompt_content_mismatch, int32_slice, memberships, prompt_bytes,
  r001_reward_protocol_missing, r002_infra_error_as_task_fail, r003_reward_missing_pre_update,
  r004_reward_present_pre_reward, r005_parent_identity_not_allowed, r006_evaluator_alias,
  r008_reward_verifier_unregistered,
}
use grpo_guard.Rules.Logprobs.{
  l001_missing_behavior_logprob, l002_source_event_mismatch, l003_scorer_policy_mismatch,
  l004_token_logprob_length_mismatch, l005_scoring_after_update, l006_unsupported_provenance,
  l007_authoritative_source_ambiguous, l008_nonauthoritative_logprob_consumed, scorer_length,
}
use grpo_guard.Rules.Masks.{
  _mask_violation, check_target, m001_mask_shape_mismatch, m002_prompt_selected,
  m003_padding_selected, m004_canonical_mask_mismatch, m005_empty_completion, mask_shapes,
  padding_selected, read_mask, service_length,
}
use grpo_guard.Rules.Policy.{
  _policy_lag, is_sync_success, p001_missing_policy_manifest, p002_checkpoint_hash_mismatch,
  p003_missing_sync_event, p004_stale_policy_strict, p005_lag_exceeds_bound,
  p006_correction_undeclared, p007_event_order_invalid, p008_canary_mismatch,
  p009_contract_protocol_mismatch,
}
use grpo_guard.Rules.Table.{all_rules, in_identity, in_stage, rules_by_stage, run_rule, select}
use grpo_guard.Rules.Tokens.{
  _alignment, bytes_per_element, element_count, t001_artifact_hash_mismatch,
  t002_tokenizer_mismatch, t003_chat_template_mismatch, t004_token_sequence_mismatch,
  t005_span_out_of_range,
}
use grpo_guard.Schema.Decision.{ValidationDecision, full_pre_update}
use grpo_guard.Schema.Double.{exceeds_1e_9}
use grpo_guard.Schema.Events.{
  Event, GenerationEvent, ValidationDecisionEvent, generation, sync_terminal_failure,
  sync_terminal_success, update_terminal_failure, update_terminal_success, validation_decision,
}
use grpo_guard.Schema.Seal.{
  Bytes, is_sealed, ref, seal, seal_envelope, verify_seal, verify_seal_envelope,
}
use grpo_guard.Tests.Sample.{
  loss_bytes, sample_artifact, sample_context, sample_generation, sample_store, target_bytes,
  toy_dumps, toy_sha256,
}
use grpo_guard.Validator.{
  artifact_hashes, decision_event, event_hashes, next_seq, observed_lag, run_rules,
  validate_envelope,
}
use grpo_guard.Validator.Decide.{IsJustified, validate_envelope-IsJustified}
use grpo_guard.Align.{is_binary}
use grpo_guard.Validator.Answers.{MasksFit, WellFormed, validate_envelope-answers}
use grpo_guard.Validator.Gaps.{mask_length_unanswered}
use grpo_guard.Validator.Trust.{IsTrustworthy, allow-IsTrustworthy}

abbrev sample_decision : ValidationDecisionEvent
sample_decision =
    decision_event toy_sha256 toy_dumps "rules" "now" sample_context full_pre_update "1"
      (record { rejects = []; quarantines = []; checked = all_rules })

abbrev sample_allowed : Event
sample_allowed =
    validation_decision
      (record sample_decision { base = record sample_decision.base { event_sha256 = "1111.|" } })

-- The sample run is allowed.
sample_allows :
    validate_envelope toy_sha256 toy_dumps "rules" "now" sample_context full_pre_update "1"
    ≡ ok sample_allowed
unfolding _gen _scoring _reward _authoritative_ref d001_split_manifest_missing
    d002_prompt_not_in_declared_split r001_reward_protocol_missing r002_infra_error_as_task_fail
    r003_reward_missing_pre_update r004_reward_present_pre_reward r005_parent_identity_not_allowed
    memberships d003_split_overlap r006_evaluator_alias r008_reward_verifier_unregistered
    int32_slice prompt_bytes d004_prompt_content_mismatch l001_missing_behavior_logprob
    l002_source_event_mismatch l003_scorer_policy_mismatch scorer_length
    l004_token_logprob_length_mismatch l005_scoring_after_update l006_unsupported_provenance
    l007_authoritative_source_ambiguous l008_nonauthoritative_logprob_consumed read_mask
    service_length mask_shapes m001_mask_shape_mismatch padding_selected check_target
    _mask_violation m002_prompt_selected m003_padding_selected m004_canonical_mask_mismatch
    m005_empty_completion p001_missing_policy_manifest p002_checkpoint_hash_mismatch is_sync_success
    p003_missing_sync_event _policy_lag p004_stale_policy_strict p005_lag_exceeds_bound
    p006_correction_undeclared p009_contract_protocol_mismatch p007_event_order_invalid
    p008_canary_mismatch run_rule in_identity in_stage select rules_by_stage bytes_per_element
    element_count t002_tokenizer_mismatch t003_chat_template_mismatch t004_token_sequence_mismatch
    t001_artifact_hash_mismatch _alignment t005_span_out_of_range fill apply_padding positions_from
    reconstruct_alignment mask_from_artifact_bytes eq_bytes put get verify lookup insert event
    run_rules event_hashes artifact_hashes next_seq observed_lag validate_envelope is_sealed seal
    verify_seal seal_envelope verify_seal_envelope ref insert_text sorted_set compare_text
    exceeds_1e_9 sync_terminal_success sync_terminal_failure update_terminal_success
    update_terminal_failure toy_sha256
sample_allows = refl

sample_gen : _gen sample_context ≡ some sample_generation
unfolding _gen lookup
sample_gen = refl

allow-IsTrustworthy_example : IsTrustworthy toy_sha256 sample_context sample_generation
allow-IsTrustworthy_example =
    allow-IsTrustworthy toy_sha256 toy_dumps "rules" "now" sample_context "1" sample_generation
      sample_allowed sample_decision.decision_payload sample_allows refl refl sample_gen

validate_envelope-IsJustified_example :
    (p : ValidationDecision) × (as_decision sample_allowed ≡ some p)
    × IsJustified toy_sha256 sample_context
        (rules_by_stage full_pre_update)
        p.decision
        p.reason_codes
validate_envelope-IsJustified_example =
    validate_envelope-IsJustified toy_sha256 toy_dumps "rules" "now" sample_context full_pre_update
      "1" sample_allowed sample_allows

-- The sample with a target mask that is one entry short.
abbrev short_generation : GenerationEvent
short_generation = record sample_generation {
  completion_target_mask = sample_artifact loss_bytes "int8";
}

abbrev short_context : ValidationContext
short_context = record sample_context { events = ("gen-0", generation short_generation) ∷ [] }

abbrev sample_alignment : Alignment
sample_alignment = record {
  total = 4;
  prompt_len = 2;
  completion_len = 2;
  completion_target_mask = target_bytes;
  loss_mask = loss_bytes;
  prediction_positions = pos 1 ∷ pos 2 ∷ [];
  padding_within_completion = false;
}

short_gen : _gen short_context ≡ some short_generation
unfolding _gen lookup
short_gen = refl

short_alignment : _alignment toy_sha256 short_context ≡ ok sample_alignment
unfolding _alignment _gen lookup get toy_sha256 element_count bytes_per_element
    reconstruct_alignment apply_padding fill positions_from
short_alignment = refl

short_read : get toy_sha256 sample_store short_generation.completion_target_mask ≡ ok loss_bytes
unfolding get lookup toy_sha256
short_read = refl

mask_length_unanswered_example :
    validate_envelope toy_sha256 toy_dumps "rules" "now" short_context full_pre_update "1"
    ≢ ok sample_allowed
mask_length_unanswered_example =
    mask_length_unanswered toy_sha256 toy_dumps "rules" "now" short_context full_pre_update "1"
      short_generation sample_alignment loss_bytes sample_allowed short_gen short_alignment
      short_read (λ e. ground (arith, e))

whole_alignment : _alignment toy_sha256 sample_context ≡ ok sample_alignment
unfolding _alignment _gen lookup get toy_sha256 element_count bytes_per_element
    reconstruct_alignment apply_padding fill positions_from
whole_alignment = refl

whole_target :
    get toy_sha256 sample_store sample_generation.completion_target_mask ≡ ok target_bytes
unfolding get lookup toy_sha256
whole_target = refl

whole_loss : get toy_sha256 sample_store sample_generation.loss_mask ≡ ok loss_bytes
unfolding get lookup toy_sha256
whole_loss = refl

sample_MasksFit : MasksFit toy_sha256 sample_context sample_generation
sample_MasksFit = record {
  pairs = refl;
  target = λ a al bytes read.
      let t : target_bytes ≡ bytes = ground (arith, whole_target, read) in
      let s : sample_alignment ≡ a = ground (arith, whole_alignment, al) in
      (
        ap (λ (l : Bytes). length l) (sym t) ∙ ap (λ (x : Alignment). x.total) s,
        ap (λ (l : Bytes). all is_binary l) (sym t),
      );
  loss = λ a al bytes read.
      let t : loss_bytes ≡ bytes = ground (arith, whole_loss, read) in
      let s : sample_alignment ≡ a = ground (arith, whole_alignment, al) in
      (
        ap (λ (l : Bytes). length l) (sym t) ∙ ap (λ (x : Alignment). x.total - 1) s,
        ap (λ (l : Bytes). all is_binary l) (sym t),
      );
}

sample_WellFormed : WellFormed toy_sha256 sample_context
sample_WellFormed gen g =
    let same : sample_generation ≡ gen = ground (arith, sample_gen, g) in
    subst (λ e. MasksFit toy_sha256 sample_context e) same sample_MasksFit

validate_envelope-answers_example :
    (ev : Event) × (validate_envelope toy_sha256 toy_dumps "rules" "now" sample_context
        full_pre_update "1"
      ≡ ok ev)
validate_envelope-answers_example =
    validate_envelope-answers toy_sha256 toy_dumps "rules" "now" sample_context full_pre_update "1"
      sample_WellFormed refl
