-- ===== src/Tests/Sample.antt =====
-- A small run that the full pre-update validation allows: four tokens, of which the last two are
-- the completion, and every event that its envelope names.
use grpo_guard.ArtifactStore.{ArtifactStore, artifact_ref}
use grpo_guard.Context.{ValidationContext}
use grpo_guard.Prelude.{String, [], false, none, some, suc, take, zero, ℕ, ◌∷◌}
use grpo_guard.Prelude.Int.{pos}
use grpo_guard.Schema.Decision.{allow, identity_pre_reward, p001}
use grpo_guard.Schema.Double.{finite, zero_double}
use grpo_guard.Schema.Envelope.{
  PolicyManifest, SplitManifest, TrajectoryEnvelope, bounded_off_policy, full, generation_service,
  pre_update, train,
}
use grpo_guard.Schema.Events.{
  Event, EventBase, GenerationEvent, RewardEvent, SyncEvent, ValidationDecisionEvent, base_of,
  canary_passed, generation, generation_success, reward, success, sync, validation_decision,
}
use grpo_guard.Schema.Refs.{ArtifactRef, EventRef}
use grpo_guard.Schema.Seal.{Bytes}
use Prim.Native.String.{◌++◌ as text_append}

-- A digest for the tests: the bytes, each in unary.
abbrev unary : ℕ → String → String
unary zero rest = text_append "." rest
unary (suc n) rest = text_append "1" (unary n rest)

unfoldable pub toy_sha256 : Bytes → String
toy_sha256 [] = "|"
toy_sha256 (b ∷ bs) = unary b (toy_sha256 bs)

-- A serialization for the tests: the event's lifecycle number.
abbrev pub toy_dumps : Event → Bytes
toy_dumps e = (base_of e).lifecycle_seq ∷ []

abbrev pub token_bytes : Bytes
token_bytes = 5 ∷ 0 ∷ 0 ∷ 0 ∷ 6 ∷ 0 ∷ 0 ∷ 0 ∷ 7 ∷ 0 ∷ 0 ∷ 0 ∷ 8 ∷ 0 ∷ 0 ∷ 0 ∷ []

abbrev pub target_bytes : Bytes
target_bytes = 0 ∷ 0 ∷ 1 ∷ 1 ∷ []

abbrev pub loss_bytes : Bytes
loss_bytes = 0 ∷ 1 ∷ 1 ∷ []

abbrev pub logprob_bytes : Bytes
logprob_bytes = 0 ∷ 0 ∷ 0 ∷ 1 ∷ 0 ∷ 0 ∷ 0 ∷ 2 ∷ []

abbrev pub sample_artifact : Bytes → String → ArtifactRef
sample_artifact bytes dtype =
    artifact_ref toy_sha256 bytes "application/octet-stream" "gen-0" (some dtype) none

abbrev pub blob : Bytes → String × Bytes
blob bytes = (toy_sha256 bytes, bytes)

abbrev pub sample_store : ArtifactStore
sample_store = record {
  blobs = blob token_bytes ∷ blob target_bytes ∷ blob loss_bytes ∷ blob logprob_bytes ∷ [];
}

abbrev pub event_ref : String → EventRef
event_ref id = record { uri = text_append "event://" id; event_id = id; event_sha256 = "e" }

abbrev pub sample_base : String → ℕ → EventBase
sample_base id seq = record {
  schema_version = "1.0";
  event_id = id;
  run_id = "run-0";
  component_id = "test";
  lifecycle_seq = seq;
  created_at_utc = "";
  input_events = [];
  input_artifacts = [];
  output_artifacts = [];
  event_sha256 = "e";
}

abbrev pub sample_sync : SyncEvent
sample_sync = record {
  base = sample_base "sync-0" 1;
  event_type = canary_passed;
  sync_id = "s";
  attempt = 1;
  supersedes_attempt = none;
  lease_epoch = 1;
  idempotency_key = "k";
  source_policy_version = 0;
  source_checkpoint_manifest_sha256 = "ckpt";
  target_runtime_id = "rt";
  previous_runtime_load_epoch = none;
  observed_runtime_load_epoch = some 1;
  observed_policy_version = some (pos 0);
  upstream_adapter_id = "a";
  upstream_operation = "load";
  compatibility_profile_sha256 = "p";
  status_detail = none;
}

abbrev pub sample_generation : GenerationEvent
sample_generation = record {
  base = sample_base "gen-0" 2;
  request_id = "req-0";
  attempt_id = "att-0";
  prompt_id = "prompt-0";
  sample_index = 0;
  runtime_id = "rt";
  runtime_load_epoch = 1;
  behavior_policy_version = 0;
  checkpoint_manifest_sha256 = "ckpt";
  sync_event = event_ref "sync-0";
  sampling_config_sha256 = "sampling";
  tokenizer_sha256 = "tok";
  chat_template_sha256 = "chat";
  prompt_span = (pos 0, pos 2);
  completion_span = (pos 2, pos 4);
  padding_spans = [];
  truncation_applied = false;
  terminal_status = generation_success;
  sequence_token_ids = sample_artifact token_bytes "int32";
  completion_target_mask = sample_artifact target_bytes "int8";
  loss_mask = sample_artifact loss_bytes "int8";
  service_behavior_logprobs = some (sample_artifact logprob_bytes "float32");
}

abbrev pub sample_reward : RewardEvent
sample_reward = record {
  base = sample_base "rew-0" 3;
  reward_version = "v1";
  evaluator_protocol_sha256 = "proto";
  source_generation_event = event_ref "gen-0";
  components = ("total", finite false 1 1074) ∷ [];
  terminal_status = success;
  latency_ms = zero_double;
}

abbrev pub sample_parent : ValidationDecisionEvent
sample_parent = record {
  base = sample_base "vdec-0" 3;
  decision_payload = record {
    decision = allow;
    validation_stage = identity_pre_reward;
    reason_codes = p001 ∷ [];
    checked_ruleset_sha256 = "rules";
    checked_event_sha256s = [];
    checked_artifact_sha256s = [];
    observed_policy_lag = 0;
    validator_version = "1";
  };
}

abbrev pub sample_envelope : TrajectoryEnvelope
sample_envelope = record {
  envelope_id = "env-0";
  envelope_sha256 = "";
  envelope_stage = pre_update;
  run_id = "run-0";
  request_id = "req-0";
  generation_event = event_ref "gen-0";
  scoring_event = none;
  reward_event = some (event_ref "rew-0");
  policy_manifest = record { uri = "m"; manifest_id = "m"; sha256 = "m" };
  split_manifest = record { uri = "s"; manifest_id = "s"; sha256 = "s" };
  parent_envelope_sha256 = some "parent";
  parent_identity_decision = some (event_ref "vdec-0");
  training_contract = record {
    protocol = bounded_off_policy;
    trainer_parent_policy_version = 1;
    consuming_update_id = "upd-0";
    max_policy_lag_versions = 1;
    importance_correction = some "clip";
    behavior_logprob_source = generation_service;
    authoritative_behavior_logprob_event = event_ref "gen-0";
    diagnostic_non_authoritative_logprobs_allowed = false;
  };
  required_extensions = [];
}

abbrev pub sample_policy : PolicyManifest
sample_policy = record {
  manifest_id = "m";
  model_id = "model";
  model_revision = "r";
  policy_version = 0;
  parent_policy_version = none;
  weights = [];
  checkpoint_manifest_sha256 = "ckpt";
  tokenizer_sha256 = "tok";
  chat_template_sha256 = "chat";
  precision = "bf16";
  adapter_kind = full;
  base_model_sha256 = none;
  adapter_sha256 = none;
  code_commit_sha = "c";
  config_sha256 = "c";
}

abbrev pub sample_split : SplitManifest
sample_split = record {
  split_id = "train-0";
  split_name = train;
  prompt_ids = "prompt-0" ∷ [];
  content_sha256s = ("prompt-0", toy_sha256 (take 8 token_bytes)) ∷ [];
}

abbrev pub sample_context : ValidationContext
sample_context = record {
  envelope = sample_envelope;
  store = sample_store;
  events =
      ("sync-0", sync sample_sync)
      ∷ ("gen-0", generation sample_generation)
      ∷ ("rew-0", reward sample_reward)
      ∷ ("vdec-0", validation_decision sample_parent)
      ∷ [];
  policy_manifest = some sample_policy;
  split_manifest = some sample_split;
  protocol = record {
    name = "bounded";
    mode = bounded_off_policy;
    max_policy_lag_versions = pos 2;
    importance_correction = some "clip";
    checked_ruleset_sha256 = "rules";
  };
  canary_status = some "passed";
  update_input_event = none;
  split_registry = some (("train", sample_split) ∷ []);
  eval_protocol_sha256 = some "heldout";
  reward_verifier_registry = some (("v1", "proto") ∷ []);
}
