-- ===== src/Schema/Events.antt =====
-- src/grpo_guard/schema/events.py: the event classes; a subclass is a record over its base.
use grpo_guard.Prelude.{Bool, List, Option, String, false, true, ℕ}
use grpo_guard.Prelude.Dict.{Dict}
use grpo_guard.Prelude.Int.{ℤ}
use grpo_guard.Schema.Decision.{ValidationDecision}
use grpo_guard.Schema.Double.{Double}
use grpo_guard.Schema.Refs.{ArtifactRef, EnvelopeRef, EventRef}

pub data SyncEventType : Type 0 where
  sync_requested sync_started runtime_loaded canary_passed canary_mismatch : SyncEventType
  sync_unknown sync_reconciled_canary_passed sync_retryable_old sync_quarantined : SyncEventType
  sync_failed sync_attempt_superseded : SyncEventType

pub data UpdateEventType : Type 0 where
  update_started update_prepared update_unknown update_committed : UpdateEventType
  update_restored_parent update_aborted update_attempt_superseded : UpdateEventType

unfoldable pub sync_terminal_success : SyncEventType → Bool
sync_terminal_success canary_passed = true
sync_terminal_success sync_reconciled_canary_passed = true
sync_terminal_success _ = false

unfoldable pub sync_terminal_failure : SyncEventType → Bool
sync_terminal_failure sync_failed = true
sync_terminal_failure sync_quarantined = true
sync_terminal_failure sync_retryable_old = true
sync_terminal_failure sync_attempt_superseded = true
sync_terminal_failure canary_mismatch = true
sync_terminal_failure _ = false

unfoldable pub update_terminal_success : UpdateEventType → Bool
update_terminal_success update_committed = true
update_terminal_success update_restored_parent = true
update_terminal_success _ = false

unfoldable pub update_terminal_failure : UpdateEventType → Bool
update_terminal_failure update_aborted = true
update_terminal_failure update_attempt_superseded = true
update_terminal_failure _ = false

pub data TerminalStatus : Type 0 where
  success infra_error timeout invalid task_fail : TerminalStatus

-- The terminal status of a generation, which cannot be a failed task.
pub data GenerationStatus : Type 0 where
  generation_success generation_infra_error generation_timeout generation_invalid : GenerationStatus

pub record EventBase : Type 0 where
  pub schema_version : String
  pub event_id : String
  pub run_id : String
  pub component_id : String
  pub lifecycle_seq : ℕ
  pub created_at_utc : String
  pub input_events : List EventRef
  pub input_artifacts : List ArtifactRef
  pub output_artifacts : List ArtifactRef
  pub event_sha256 : String

pub record SyncEvent : Type 0 where
  pub base : EventBase
  pub open base use *
  pub event_type : SyncEventType
  pub sync_id : String
  pub attempt : ℕ
  pub supersedes_attempt : Option ℤ
  pub lease_epoch : ℕ
  pub idempotency_key : String
  pub source_policy_version : ℕ
  pub source_checkpoint_manifest_sha256 : String
  pub target_runtime_id : String
  pub previous_runtime_load_epoch : Option ℕ
  pub observed_runtime_load_epoch : Option ℕ
  pub observed_policy_version : Option ℤ
  pub upstream_adapter_id : String
  pub upstream_operation : String
  pub compatibility_profile_sha256 : String
  pub status_detail : Option String

pub record UpdateEvent : Type 0 where
  pub base : EventBase
  pub open base use *
  pub event_type : UpdateEventType
  pub update_id : String
  pub transaction_id : String
  pub attempt : ℕ
  pub supersedes_attempt : Option ℤ
  pub lease_epoch : ℕ
  pub idempotency_key : String
  pub parent_policy_version : ℕ
  pub output_policy_version : Option ℤ
  pub input_preupdate_envelope_sha256s : List String
  pub update_input_event : Option EventRef
  pub gradient_accumulation_microbatches : ℕ
  pub optimizer_step_count_delta : ℕ
  pub trajectory_use_policy : String
  pub checkpoint_manifest_sha256 : Option String
  pub optimizer_state_artifact : Option ArtifactRef
  pub failure_code : Option String

pub record UpdateInputEvent : Type 0 where
  pub base : EventBase
  pub open base use *
  pub update_id : String
  pub preupdate_envelope : EnvelopeRef
  pub preupdate_validation_decision : EventRef
  pub sequence_token_ids : ArtifactRef
  pub loss_mask : ArtifactRef
  pub authoritative_behavior_logprob_event : EventRef
  pub authoritative_behavior_logprobs : ArtifactRef
  pub reward_event : EventRef
  pub materialized_layout_sha256 : String
  pub single_use_nonce_sha256 : String
  pub tokenizer_called : Bool
  pub reward_value_sha256 : String
  pub reward_shape : List ℕ
  pub reward_dtype : String
  pub group_size : Option ℤ
  pub group_members : List String
  pub parent_policy_manifest : String

pub record GenerationEvent : Type 0 where
  pub base : EventBase
  pub open base use *
  pub request_id : String
  pub attempt_id : String
  pub prompt_id : String
  pub sample_index : ℕ
  pub runtime_id : String
  pub runtime_load_epoch : ℕ
  pub behavior_policy_version : ℕ
  pub checkpoint_manifest_sha256 : String
  pub sync_event : EventRef
  pub sampling_config_sha256 : String
  pub tokenizer_sha256 : String
  pub chat_template_sha256 : String
  pub prompt_span : ℤ × ℤ
  pub completion_span : ℤ × ℤ
  pub padding_spans : List (List ℤ)
  pub truncation_applied : Bool
  pub terminal_status : GenerationStatus
  pub sequence_token_ids : ArtifactRef
  pub completion_target_mask : ArtifactRef
  pub loss_mask : ArtifactRef
  pub service_behavior_logprobs : Option ArtifactRef

pub record ScoringEvent : Type 0 where
  pub base : EventBase
  pub open base use *
  pub source_generation_event : EventRef
  pub scorer_policy_version : ℕ
  pub scorer_checkpoint_manifest_sha256 : String
  pub token_artifact_sha256 : String
  pub scoring_dtype : String
  pub behavior_logprobs : ArtifactRef

pub record RewardEvent : Type 0 where
  pub base : EventBase
  pub open base use *
  pub reward_version : String
  pub evaluator_protocol_sha256 : String
  pub source_generation_event : EventRef
  pub components : Dict Double
  pub terminal_status : TerminalStatus
  pub latency_ms : Double

pub record ValidationDecisionEvent : Type 0 where
  pub base : EventBase
  pub open base use *
  pub decision_payload : ValidationDecision

pub record TrainingStepEvent : Type 0 where
  pub base : EventBase
  pub open base use *
  pub update_id : String
  pub parent_policy_version : ℤ
  pub output_policy_version : ℤ
  pub rollout_sequences : ℤ
  pub consumed_sequences : ℤ
  pub success_rate : Double
  pub loss : Double
  pub ratio_p50 : Double
  pub ratio_max : Double
  pub clip_fraction : Option Double
  pub weight_delta_fp32_vs_v0 : Option Double

-- The subclasses of EventBase that `event_from_payload` builds.
pub data Event : Type 0 where
  sync : SyncEvent → Event
  update : UpdateEvent → Event
  update_input : UpdateInputEvent → Event
  generation : GenerationEvent → Event
  scoring : ScoringEvent → Event
  reward : RewardEvent → Event
  validation_decision : ValidationDecisionEvent → Event
  training_step : TrainingStepEvent → Event

abbrev pub base_of : Event → EventBase
base_of (sync e) = e.base
base_of (update e) = e.base
base_of (update_input e) = e.base
base_of (generation e) = e.base
base_of (scoring e) = e.base
base_of (reward e) = e.base
base_of (validation_decision e) = e.base
base_of (training_step e) = e.base

abbrev pub with_base : Event → EventBase → Event
with_base (sync e) b = sync (record e { base = b })
with_base (update e) b = update (record e { base = b })
with_base (update_input e) b = update_input (record e { base = b })
with_base (generation e) b = generation (record e { base = b })
with_base (scoring e) b = scoring (record e { base = b })
with_base (reward e) b = reward (record e { base = b })
with_base (validation_decision e) b = validation_decision (record e { base = b })
with_base (training_step e) b = training_step (record e { base = b })
