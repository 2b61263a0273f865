-- ===== src/Validator/Gaps.antt =====
-- What the rules do not see: the lag fields of the contract; and a mask of the wrong length, on which
-- the validator gives no answer.
use grpo_guard.Align.{Alignment, mask_from_artifact_bytes}
use grpo_guard.ArtifactStore.{get}
use grpo_guard.Context.{ValidationContext, event}
use grpo_guard.Prelude.{
  All, List, Option, String, [], arith, inl, inr, length, refl, some, ℕ, ◌∷◌, ◌≡◌, ◌≢◌,
}
use grpo_guard.Prelude.Result.{Result-cases, alignment_error, err, ok}
use grpo_guard.Rules.Base.{_authoritative_ref, _gen, _reward, _scoring}
use grpo_guard.Rules.Data.{
  d001_split_manifest_missing, d002_prompt_not_in_declared_split, d003_split_overlap,
  d004_prompt_content_mismatch, prompt_bytes, r001_reward_protocol_missing,
  r002_infra_error_as_task_fail, r003_reward_missing_pre_update, r004_reward_present_pre_reward,
  r005_parent_identity_not_allowed, r006_evaluator_alias, r008_reward_verifier_unregistered,
}
use grpo_guard.Rules.Logprobs.{
  l001_missing_behavior_logprob, l002_source_event_mismatch, l003_scorer_policy_mismatch,
  l004_token_logprob_length_mismatch, l005_scoring_after_update, l006_unsupported_provenance,
  l007_authoritative_source_ambiguous, l008_nonauthoritative_logprob_consumed, scorer_length,
}
use grpo_guard.Rules.Masks.{
  _mask_violation, check_target, m001_mask_shape_mismatch, m002_prompt_selected,
  m003_padding_selected, m004_canonical_mask_mismatch, m005_empty_completion, mask_shapes,
  read_mask, service_length,
}
use grpo_guard.Rules.Policy.{
  _policy_lag, p001_missing_policy_manifest, p002_checkpoint_hash_mismatch, p003_missing_sync_event,
  p004_stale_policy_strict, p005_lag_exceeds_bound, p006_correction_undeclared,
  p007_event_order_invalid, p008_canary_mismatch, p009_contract_protocol_mismatch,
}
use grpo_guard.Rules.Table.{rules_by_stage, run_rule}
use grpo_guard.Rules.Tokens.{
  _alignment, t001_artifact_hash_mismatch, t002_tokenizer_mismatch, t003_chat_template_mismatch,
  t004_token_sequence_mismatch, t005_span_out_of_range,
}
use grpo_guard.Schema.Decision.{
  Code, ValidationStage, full_pre_update, identity_pre_reward, l002, m001, r005,
}
use grpo_guard.Schema.Events.{Event, GenerationEvent}
use grpo_guard.Schema.Seal.{Bytes}
use grpo_guard.Validator.{
  Fired, event_hashes, note_result, nothing_fired, observed_lag, run_rules, validate_envelope,
}
use grpo_guard.Validator.Aggregate.{Returns, run_rules-Collected}

module _ (sha256 : Bytes → String) (ctx : ValidationContext) where
  -- A target mask that is intact but not as long as the sequence makes M001 raise AlignmentError.
  pub m001_raises :
      (gen : GenerationEvent) (a : Alignment) (bytes : Bytes)
      → _gen ctx ≡ some gen
      → _alignment sha256 ctx ≡ ok a
      → get sha256 ctx.store gen.completion_target_mask ≡ ok bytes
      → length bytes ≢ a.total
      → run_rule sha256 m001 ctx ≡ err alignment_error
  unfolding run_rule m001_mask_shape_mismatch read_mask mask_from_artifact_bytes
  m001_raises gen a bytes g al read differ = ground arith

-- The context with other lag fields in the envelope's contract.
abbrev pub with_contract_lag : ValidationContext → ℕ → Option String → ValidationContext
with_contract_lag ctx n correction = record ctx {
  envelope = record ctx.envelope {
    training_contract = record ctx.envelope.training_contract {
      max_policy_lag_versions = n;
      importance_correction = correction;
    };
  };
}

module _ (sha256 : Bytes → String) (ctx : ValidationContext) (n : ℕ)
    (correction : Option String) where
  run_rule_blind :
      (c : Code) → run_rule sha256 c (with_contract_lag ctx n correction) ≡ run_rule sha256 c ctx
  unfolding run_rule event _gen _scoring _reward _authoritative_ref _policy_lag _alignment
      _mask_violation read_mask check_target mask_shapes service_length scorer_length prompt_bytes
      d001_split_manifest_missing d002_prompt_not_in_declared_split d003_split_overlap
      d004_prompt_content_mismatch l001_missing_behavior_logprob l002_source_event_mismatch
      l003_scorer_policy_mismatch l004_token_logprob_length_mismatch l005_scoring_after_update
      l006_unsupported_provenance l007_authoritative_source_ambiguous
      l008_nonauthoritative_logprob_consumed m001_mask_shape_mismatch m002_prompt_selected
      m003_padding_selected m004_canonical_mask_mismatch m005_empty_completion
      p001_missing_policy_manifest p002_checkpoint_hash_mismatch p003_missing_sync_event
      p004_stale_policy_strict p005_lag_exceeds_bound p006_correction_undeclared
      p007_event_order_invalid p008_canary_mismatch p009_contract_protocol_mismatch
      r001_reward_protocol_missing r002_infra_error_as_task_fail r003_reward_missing_pre_update
      r004_reward_present_pre_reward r005_parent_identity_not_allowed r006_evaluator_alias
      r008_reward_verifier_unregistered t001_artifact_hash_mismatch t002_tokenizer_mismatch
      t003_chat_template_mismatch t004_token_sequence_mismatch t005_span_out_of_range
  run_rule_blind l002 = ground arith
  run_rule_blind r005 = ground arith
  run_rule_blind _ = refl

  run_rules_blind :
      (cs : List Code) (f : Fired)
      → run_rules sha256 (with_contract_lag ctx n correction) cs f ≡ run_rules sha256 ctx cs f
  unfolding run_rules
  run_rules_blind [] f = refl
  run_rules_blind (c ∷ cs) f = rw (run_rule_blind c) (elim (Result-cases (run_rule sha256 c ctx)) [
    | inl (r, e) ↦ rw e (run_rules_blind cs (note_result c r f))
    | inr (e, raised) ↦ rw raised
  ])

module _ (sha256 : Bytes → String) (dumps : Event → Bytes) (rules_sha256 now : String)
    (ctx : ValidationContext) (stage : ValidationStage) (version : String) where
  -- The lag bound and the correction that the envelope's own contract declares have no influence on
  -- the decision: only the validator's configuration is read.
  pub contract_lag_ignored :
      (n : ℕ) (correction : Option String)
      → validate_envelope sha256 dumps rules_sha256 now
          (with_contract_lag ctx n correction)
          stage
          version
        ≡ validate_envelope sha256 dumps rules_sha256 now ctx stage version
  unfolding validate_envelope event_hashes observed_lag _policy_lag _gen
  contract_lag_ignored n correction =
      rw (run_rules_blind sha256 ctx n correction (rules_by_stage stage) nothing_fired)

  pub answered :
      (ev : Event)
      → validate_envelope sha256 dumps rules_sha256 now ctx stage version ≡ ok ev
      → All (Returns sha256 ctx) (rules_by_stage stage)
  unfolding validate_envelope
  answered ev h = elim (Result-cases (run_rules sha256 ctx (rules_by_stage stage) nothing_fired)) [
    | inr (e, raised) ↦ absurd (ground arith)
    | inl (f, ran) ↦ (run_rules-Collected sha256 ctx (rules_by_stage stage) nothing_fired f ran).1
  ]

-- Both stages have the rule M001.
at_m001 : (P : Code → Type 0) (stage : ValidationStage) → All P (rules_by_stage stage) → P m001
unfolding rules_by_stage
at_m001 P identity_pre_reward h = h.1.1.1.1.1.1.1.1.0
at_m001 P full_pre_update h = h.1.1.1.1.1.1.1.1.1.1.1.1.0

-- In both stages, a target mask that is intact but not as long as the sequence gets no decision:
-- the exception of M001 leaves `validate_envelope`.
pub mask_length_unanswered :
    (sha256 : Bytes → String) (dumps : Event → Bytes) (rules_sha256 now : String)
    (ctx : ValidationContext) (stage : ValidationStage) (version : String) (gen : GenerationEvent)
    (a : Alignment) (bytes : Bytes) (ev : Event)
    → _gen ctx ≡ some gen
    → _alignment sha256 ctx ≡ ok a
    → get sha256 ctx.store gen.completion_target_mask ≡ ok bytes
    → length bytes ≢ a.total
    → validate_envelope sha256 dumps rules_sha256 now ctx stage version ≢ ok ev
mask_length_unanswered sha256 dumps rules_sha256 now ctx stage version gen a bytes ev g al read
      differ h =
    let returned = answered sha256 dumps rules_sha256 now ctx stage version ev h in
    let raised = m001_raises sha256 ctx gen a bytes g al read differ in
    let (r, e) = at_m001 (Returns sha256 ctx) stage returned in cc (e, raised)
