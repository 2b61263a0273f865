-- ===== src/Schema/Envelope.antt =====
-- src/grpo_guard/schema/envelope.py and manifests.py.
use grpo_guard.Prelude.{Bool, List, Option, String, ℕ}
use grpo_guard.Prelude.Dict.{Dict}
use grpo_guard.Schema.Refs.{ArtifactRef, EventRef, ManifestRef}

pub data ProtocolMode : Type 0 where
  strict_on_policy bounded_off_policy : ProtocolMode

pub data LogprobSource : Type 0 where
  generation_service exact_behavior_scorer : LogprobSource

pub data EnvelopeStage : Type 0 where
  pre_reward pre_update : EnvelopeStage

pub record TrainingContract : Type 0 where
  pub protocol : ProtocolMode
  pub trainer_parent_policy_version : ℕ
  pub consuming_update_id : String
  pub max_policy_lag_versions : ℕ
  pub importance_correction : Option String
  pub behavior_logprob_source : LogprobSource
  pub authoritative_behavior_logprob_event : EventRef
  pub diagnostic_non_authoritative_logprobs_allowed : Bool

pub record TrajectoryEnvelope : Type 0 where
  pub envelope_id : String
  pub envelope_sha256 : String
  pub envelope_stage : EnvelopeStage
  pub run_id : String
  pub request_id : String
  pub generation_event : EventRef
  pub scoring_event : Option EventRef
  pub reward_event : Option EventRef
  pub policy_manifest : ManifestRef
  pub split_manifest : ManifestRef
  pub parent_envelope_sha256 : Option String
  pub parent_identity_decision : Option EventRef
  pub training_contract : TrainingContract
  pub required_extensions : List String

pub data AdapterKind : Type 0 where
  full lora qlora : AdapterKind

pub record PolicyManifest : Type 0 where
  pub manifest_id : String
  pub model_id : String
  pub model_revision : String
  pub policy_version : ℕ
  pub parent_policy_version : Option ℕ
  pub weights : List ArtifactRef
  pub checkpoint_manifest_sha256 : String
  pub tokenizer_sha256 : String
  pub chat_template_sha256 : String
  pub precision : String
  pub adapter_kind : AdapterKind
  pub base_model_sha256 : Option String
  pub adapter_sha256 : Option String
  pub code_commit_sha : String
  pub config_sha256 : String

pub data SplitName : Type 0 where
  train calibration held_out : SplitName

pub record SplitManifest : Type 0 where
  pub split_id : String
  pub split_name : SplitName
  pub prompt_ids : List String
  pub content_sha256s : Dict String
