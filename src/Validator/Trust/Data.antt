-- ===== src/Validator/Trust/Data.antt =====
-- What the silence of the L, D and R rules says of provenance, prompt and reward.
use grpo_guard.Context.{ValidationContext, event}
use grpo_guard.Prelude.{
  Option, Option-cases, String, any, arith, contains, eq_iff, false, inl, inr, is_some, length,
  none, refl, some, true, ◌&&◌, ◌||◌, ◌≡◌, ◌≢◌, ◌≤◌,
}
use grpo_guard.Prelude.Dict.{Dict, lookup, values}
use grpo_guard.Prelude.Result.{ok}
use grpo_guard.Rules.Base.{
  _authoritative_ref, _gen, _reward, _scoring, as_decision, as_generation, as_scoring,
}
use grpo_guard.Rules.Data.{
  d001_split_manifest_missing, d002_prompt_not_in_declared_split, d003_split_overlap,
  d004_prompt_content_mismatch, is_infra, memberships, parent_ref_verdict, prompt_bytes,
  r002_infra_error_as_task_fail, r003_reward_missing_pre_update, r004_reward_present_pre_reward,
  r005_parent_identity_not_allowed, r006_evaluator_alias, r008_reward_verifier_unregistered,
  registry_verdict,
}
use grpo_guard.Rules.Logprobs.{
  l001_missing_behavior_logprob, l002_source_event_mismatch, l003_scorer_policy_mismatch,
  l006_unsupported_provenance, l007_authoritative_source_ambiguous,
}
use grpo_guard.Rules.Table.{run_rule}
use grpo_guard.Schema.Decision.{
  ValidationDecision, allow, d001, d002, d003, d004, l001, l002, l003, l006, l007, r002, r003, r004,
  r005, r006, r008,
}
use grpo_guard.Schema.Double.{exceeds_1e_9}
use grpo_guard.Schema.Envelope.{
  SplitManifest, TrainingContract, exact_behavior_scorer, generation_service, pre_reward,
  pre_update,
}
use grpo_guard.Schema.Events.{
  Event, GenerationEvent, RewardEvent, ScoringEvent, base_of, generation, reward, scoring, sync,
  training_step, update, update_input, validation_decision,
}
use grpo_guard.Schema.Refs.{EventRef}
use grpo_guard.Schema.Seal.{Bytes}
use grpo_guard.Validator.Decide.{Silent}

module _ (sha256 : Bytes → String) (ctx : ValidationContext) (gen : GenerationEvent) where
  abbrev contract : TrainingContract
  contract = ctx.envelope.training_contract

  -- The contract's authoritative event is of the class that its declared source names.
  pub record SourceBound : Type 0 where
    pub ev : Event
    pub found : event ctx contract.authoritative_behavior_logprob_event.event_id ≡ some ev
    pub service :
        contract.behavior_logprob_source ≡ generation_service
        → (is_some (as_generation ev) ≡ true)
          × ((base_of ev).event_id ≡ ctx.envelope.generation_event.event_id)
          × (is_some gen.service_behavior_logprobs ≡ true)
    pub scorer :
        contract.behavior_logprob_source ≡ exact_behavior_scorer
        → (sc : ScoringEvent) × (ev ≡ scoring sc)

  scoring_of :
      (ev : Event) → is_some (as_scoring ev) ≡ true → (sc : ScoringEvent) × (ev ≡ scoring sc)
  scoring_of (scoring sc) h = (sc, refl)
  scoring_of (sync e) h = cc
  scoring_of (update e) h = cc
  scoring_of (update_input e) h = cc
  scoring_of (generation e) h = cc
  scoring_of (reward e) h = cc
  scoring_of (validation_decision e) h = cc
  scoring_of (training_step e) h = cc

  pub Silent-SourceBound : _gen ctx ≡ some gen → Silent sha256 ctx l002 → SourceBound
  unfolding run_rule l002_source_event_mismatch _authoritative_ref
  Silent-SourceBound g s =
      elim (Option-cases (event ctx contract.authoritative_behavior_logprob_event.event_id)) [
        | inl missing ↦ absurd (ground arith)
        | inr (ev, found) ↦ record {
          ev = ev;
          found = found;
          service = λ e.
              ground (arith, eq_iff (base_of ev).event_id ctx.envelope.generation_event.event_id);
          scorer = λ e. scoring_of ev (ground arith);
        }
      ]

  -- A scoring event is about the same policy, checkpoint, tokens and generation.
  pub record ScorerBound : Type 0 where
    pub policy :
        (sc : ScoringEvent)
        → _scoring ctx ≡ some sc
        → sc.scorer_policy_version ≡ gen.behavior_policy_version
    pub checkpoint :
        (sc : ScoringEvent)
        → _scoring ctx ≡ some sc
        → sc.scorer_checkpoint_manifest_sha256 ≡ gen.checkpoint_manifest_sha256
    pub tokens :
        (sc : ScoringEvent)
        → _scoring ctx ≡ some sc
        → sc.token_artifact_sha256 ≡ gen.sequence_token_ids.sha256
    pub source :
        (sc : ScoringEvent)
        → _scoring ctx ≡ some sc
        → sc.source_generation_event.event_id ≡ ctx.envelope.generation_event.event_id
    pub some_source : (is_some gen.service_behavior_logprobs || is_some (_scoring ctx)) ≡ true
    pub one_source :
        contract.diagnostic_non_authoritative_logprobs_allowed ≡ false
        → (is_some gen.service_behavior_logprobs && is_some (_scoring ctx)) ≡ false

  pub Silent-ScorerBound :
      _gen ctx ≡ some gen
      → Silent sha256 ctx l001
      → Silent sha256 ctx l003
      → Silent sha256 ctx l006
      → Silent sha256 ctx l007
      → ScorerBound
  unfolding run_rule l001_missing_behavior_logprob l003_scorer_policy_mismatch
      l006_unsupported_provenance l007_authoritative_source_ambiguous
  Silent-ScorerBound g s1 s3 s6 s7 = record {
    policy = λ sc e. ground arith;
    checkpoint = λ sc e.
        ground (arith, eq_iff sc.scorer_checkpoint_manifest_sha256 gen.checkpoint_manifest_sha256);
    tokens = λ sc e. ground (arith, eq_iff sc.token_artifact_sha256 gen.sequence_token_ids.sha256);
    source = λ sc e.
        ground (
          arith,
          eq_iff sc.source_generation_event.event_id ctx.envelope.generation_event.event_id,
        );
    some_source = ground arith;
    one_source = λ e. ground arith;
  }

  -- The prompt is in the declared split, and in no two registered ones.
  pub record PromptBound : Type 0 where
    pub split : SplitManifest
    pub bound : ctx.split_manifest ≡ some split
    pub declared : contains gen.prompt_id split.prompt_ids ≡ true
    pub one_split :
        (registry : Dict SplitManifest)
        → ctx.split_registry ≡ some registry
        → length (memberships gen.prompt_id registry) ≤ 1
    pub content :
        (expected : String) (bytes : Bytes)
        → lookup gen.prompt_id split.content_sha256s ≡ some expected
        → prompt_bytes sha256 ctx gen ≡ ok bytes
        → sha256 bytes ≡ expected

  split_of : Silent sha256 ctx d001 → (s : SplitManifest) × (ctx.split_manifest ≡ some s)
  unfolding run_rule d001_split_manifest_missing
  split_of s = ground arith

  pub Silent-PromptBound :
      _gen ctx ≡ some gen
      → Silent sha256 ctx d001
      → Silent sha256 ctx d002
      → Silent sha256 ctx d003
      → Silent sha256 ctx d004
      → PromptBound
  unfolding run_rule d002_prompt_not_in_declared_split d003_split_overlap
      d004_prompt_content_mismatch
  Silent-PromptBound g s1 s2 s3 s4 =
      let (split, e) = split_of s1 in
      record {
        split = split;
        bound = e;
        declared = ground arith;
        one_split = λ registry r. ground arith;
        content = λ expected bytes x b. ground (arith, eq_iff (sha256 bytes) expected);
      }

  -- The reward, where the envelope's reward event is one: its verifier is the registered one and
  -- not the evaluator's, and an infrastructure failure carries no reward.
  pub record RewardBound : Type 0 where
    pub present :
        ctx.envelope.envelope_stage ≡ pre_update → is_some ctx.envelope.reward_event ≡ true
    pub absent : ctx.envelope.envelope_stage ≡ pre_reward → ctx.envelope.reward_event ≡ none
    pub registered :
        (rew : RewardEvent) (registry : Dict String)
        → _reward ctx ≡ some rew
        → ctx.reward_verifier_registry ≡ some registry
        → lookup rew.reward_version registry ≡ some rew.evaluator_protocol_sha256
    pub independent :
        (rew : RewardEvent) (protocol : String)
        → _reward ctx ≡ some rew
        → ctx.eval_protocol_sha256 ≡ some protocol
        → rew.evaluator_protocol_sha256 ≢ protocol
    pub no_infra_reward :
        (rew : RewardEvent)
        → _reward ctx ≡ some rew
        → is_infra rew.terminal_status ≡ true
        → any exceeds_1e_9 (values rew.components) ≡ false
    pub parent :
        ctx.envelope.envelope_stage ≡ pre_update
        → (p : ValidationDecision) × (p.decision ≡ allow)
          × ((r : EventRef) × (ctx.envelope.parent_identity_decision ≡ some r)
              × ((ev : Event) × (event ctx r.event_id ≡ some ev) × (as_decision ev ≡ some p)))

  parent_of :
      (o : Option EventRef)
      → parent_ref_verdict ctx o ≡ none
      → (p : ValidationDecision) × (p.decision ≡ allow)
        × ((r : EventRef) × (o ≡ some r)
            × ((ev : Event) × (event ctx r.event_id ≡ some ev) × (as_decision ev ≡ some p)))
  parent_of none h = cc
  parent_of (some r) h = elim (Option-cases (event ctx r.event_id)) [
    | inl missing ↦ absurd (ground arith)
    | inr (ev, found) ↦ elim (Option-cases (as_decision ev)) [
      | inl other ↦ absurd (ground arith)
      | inr (p, e) ↦ (p, ground arith, (r, refl, (ev, found, e)))
    ]
  ]

  registered_of :
      (protocol : String) (o : Option String)
      → registry_verdict protocol o ≡ none
      → o ≡ some protocol
  registered_of protocol none h = cc
  registered_of protocol (some s) h = ground (arith, eq_iff protocol s)

  pub Silent-RewardBound :
      Silent sha256 ctx r002
      → Silent sha256 ctx r003
      → Silent sha256 ctx r004
      → Silent sha256 ctx r005
      → Silent sha256 ctx r006
      → Silent sha256 ctx r008
      → RewardBound
  unfolding run_rule r002_infra_error_as_task_fail r003_reward_missing_pre_update
      r004_reward_present_pre_reward r005_parent_identity_not_allowed r006_evaluator_alias
      r008_reward_verifier_unregistered
  Silent-RewardBound s2 s3 s4 s5 s6 s8 = record {
    present = λ e. ground arith;
    absent = λ e. ground arith;
    registered = λ rew registry x y.
        registered_of rew.evaluator_protocol_sha256 (lookup rew.reward_version registry)
          (ground arith);
    independent =
        λ rew protocol x y same. ground (arith, eq_iff rew.evaluator_protocol_sha256 protocol);
    no_infra_reward = λ rew x i. ground arith;
    parent = λ e. parent_of ctx.envelope.parent_identity_decision (ground arith);
  }
