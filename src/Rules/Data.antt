-- ===== src/Rules/Data.antt =====
-- The D and R rules of validators/rules.py: splits, prompt contents and rewards.
use grpo_guard.ArtifactStore.{get}
use grpo_guard.Context.{ValidationContext, event}
use grpo_guard.Prelude.{
  Bool, List, Option, String, [], any, contains, false, if◌then◌else◌, is_empty, is_some, length,
  ltb, none, not, slice, some, true, ◌%◌, ◌&&◌, ◌*◌, ◌/◌, ◌==◌, ◌is◌, ◌∷◌,
}
use grpo_guard.Prelude.Dict.{Dict, lookup, values}
use grpo_guard.Prelude.Int.{slice_index, ℤ}
use grpo_guard.Prelude.Result.{Result, err, ok, value_error}
use grpo_guard.Rules.Base.{
  RuleResult, _gen, _reward, as_decision, fires_if, is_allow, quarantined, rejected,
}
use grpo_guard.Schema.Decision.{
  ValidationDecision, d001, d002, d003, d004, r001, r002, r003, r004, r005, r006, r008,
}
use grpo_guard.Schema.Double.{exceeds_1e_9}
use grpo_guard.Schema.Envelope.{EnvelopeStage, SplitManifest, pre_reward, pre_update}
use grpo_guard.Schema.Events.{Event, GenerationEvent, TerminalStatus, infra_error, invalid, timeout}
use grpo_guard.Schema.Refs.{EventRef}
use grpo_guard.Schema.Seal.{Bytes}
use grpo_guard.Prelude.Maybe.{◌>>=◌}

unfoldable pub d001_split_manifest_missing : ValidationContext → Option RuleResult
d001_split_manifest_missing ctx = fires_if (not (is_some ctx.split_manifest)) (rejected d001)

unfoldable pub d002_prompt_not_in_declared_split : ValidationContext → Option RuleResult
d002_prompt_not_in_declared_split ctx = do
  gen ← _gen ctx
  split ← ctx.split_manifest
  fires_if (not (contains gen.prompt_id split.prompt_ids)) (rejected d002)

unfoldable pub r001_reward_protocol_missing : ValidationContext → Option RuleResult
r001_reward_protocol_missing ctx = do
  rew ← _reward ctx
  fires_if (is_empty rew.evaluator_protocol_sha256) (quarantined r001)

abbrev pub is_infra : TerminalStatus → Bool
is_infra infra_error = true
is_infra timeout = true
is_infra invalid = true
is_infra _ = false

unfoldable pub r002_infra_error_as_task_fail : ValidationContext → Option RuleResult
r002_infra_error_as_task_fail ctx = do
  rew ← _reward ctx
  fires_if (is_infra rew.terminal_status && any exceeds_1e_9 (values rew.components))
      (rejected r002)

abbrev pub is_pre_update : EnvelopeStage → Bool
is_pre_update pre_update = true
is_pre_update pre_reward = false

unfoldable pub r003_reward_missing_pre_update : ValidationContext → Option RuleResult
r003_reward_missing_pre_update ctx =
    fires_if (is_pre_update ctx.envelope.envelope_stage && not (is_some ctx.envelope.reward_event))
      (rejected r003)

unfoldable pub r004_reward_present_pre_reward : ValidationContext → Option RuleResult
r004_reward_present_pre_reward ctx =
    fires_if (not (is_pre_update ctx.envelope.envelope_stage) && is_some ctx.envelope.reward_event)
      (rejected r004)

abbrev pub parent_verdict : Option ValidationDecision → Option RuleResult
parent_verdict none = some (rejected r005)
parent_verdict (some payload) = fires_if (not (is_allow payload.decision)) (rejected r005)

abbrev pub parent_event_verdict : Option Event → Option RuleResult
parent_event_verdict none = some (rejected r005)
parent_event_verdict (some parent) = parent_verdict (as_decision parent)

abbrev pub parent_ref_verdict : ValidationContext → Option EventRef → Option RuleResult
parent_ref_verdict ctx none = some (rejected r005)
parent_ref_verdict ctx (some r) = parent_event_verdict (event ctx r.event_id)

unfoldable pub r005_parent_identity_not_allowed : ValidationContext → Option RuleResult
r005_parent_identity_not_allowed ctx =
    if not (is_pre_update ctx.envelope.envelope_stage)
    then none
    else parent_ref_verdict ctx ctx.envelope.parent_identity_decision

-- The names of the splits that list the prompt.
unfoldable pub memberships : String → Dict SplitManifest → List String
memberships prompt_id [] = []
memberships prompt_id ((name, sm) ∷ registry) =
    let rest = memberships prompt_id registry in
    if contains prompt_id sm.prompt_ids then name ∷ rest else rest

unfoldable pub d003_split_overlap : ValidationContext → Option RuleResult
d003_split_overlap ctx = do
  gen ← _gen ctx
  registry ← ctx.split_registry
  fires_if (ltb 1 (length (memberships gen.prompt_id registry))) (rejected d003)

unfoldable pub r006_evaluator_alias : ValidationContext → Option RuleResult
r006_evaluator_alias ctx = do
  rew ← _reward ctx
  eval_protocol ← ctx.eval_protocol_sha256
  fires_if (rew.evaluator_protocol_sha256 is eval_protocol) (quarantined r006)

abbrev pub registry_verdict : String → Option String → Option RuleResult
registry_verdict protocol none = some (rejected r008)
registry_verdict protocol (some registered) =
    fires_if (not (protocol is registered)) (rejected r008)

unfoldable pub r008_reward_verifier_unregistered : ValidationContext → Option RuleResult
r008_reward_verifier_unregistered ctx = do
  rew ← _reward ctx
  registry ← ctx.reward_verifier_registry
  registry_verdict rew.evaluator_protocol_sha256 (lookup rew.reward_version registry)

-- seq[start:end].tobytes() over the int32 array of the bytes; frombuffer refuses a partial element.
unfoldable pub int32_slice : Bytes → ℤ → ℤ → Result Bytes
int32_slice bytes start end =
    if not (length bytes % 4 == 0)
    then err value_error
    else (let n = length bytes / 4 in
        ok (slice (4 * slice_index n start) (4 * slice_index n end) bytes))

module _ (sha256 : Bytes → String) where
  -- The bytes that D004 hashes, or the exception that it swallows.
  unfoldable pub prompt_bytes : ValidationContext → GenerationEvent → Result Bytes
  unfolding int32_slice
  prompt_bytes ctx gen = elim (get sha256 ctx.store gen.sequence_token_ids) [
    | err e ↦ err e
    | ok seq ↦ int32_slice seq gen.prompt_span.0 gen.prompt_span.1
  ]

  abbrev pub content_verdict : String → Result Bytes → Option RuleResult
  content_verdict expected (err e) = none
  content_verdict expected (ok bytes) = fires_if (not (sha256 bytes is expected)) (rejected d004)

  unfoldable pub d004_prompt_content_mismatch : ValidationContext → Option RuleResult
  d004_prompt_content_mismatch ctx = do
    gen ← _gen ctx
    split ← ctx.split_manifest
    expected ← lookup gen.prompt_id split.content_sha256s
    content_verdict expected (prompt_bytes ctx gen)
