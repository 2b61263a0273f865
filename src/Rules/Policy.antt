-- ===== src/Rules/Policy.antt =====
-- The P rules of validators/rules.py: policy identity, lag and order of events.
use grpo_guard.Context.{ValidationContext, event}
use grpo_guard.Prelude.{
  Bool, Option, String, false, if◌then◌else◌, is_empty, is_some, ltb, none, not, some, true, ℕ, ◌-◌,
  ◌is◌,
}
use grpo_guard.Prelude.Int.{ltb_ℤ, pos}
use grpo_guard.Rules.Base.{RuleResult, _gen, fires_if, quarantined, rejected}
use grpo_guard.Schema.Decision.{p001, p002, p003, p004, p005, p006, p007, p008, p009}
use grpo_guard.Schema.Envelope.{ProtocolMode, bounded_off_policy, strict_on_policy}
use grpo_guard.Schema.Events.{Event, base_of, sync, sync_terminal_success}
use grpo_guard.Prelude.Maybe.{◌>>=◌}

unfoldable pub p001_missing_policy_manifest : ValidationContext → Option RuleResult
p001_missing_policy_manifest ctx = fires_if (not (is_some ctx.policy_manifest)) (rejected p001)

unfoldable pub p002_checkpoint_hash_mismatch : ValidationContext → Option RuleResult
p002_checkpoint_hash_mismatch ctx = do
  gen ← _gen ctx
  man ← ctx.policy_manifest
  fires_if (not (gen.checkpoint_manifest_sha256 is man.checkpoint_manifest_sha256)) (rejected p002)

-- event_type in SYNC_TERMINAL_SUCCESS, for an event of any class
unfoldable pub is_sync_success : Event → Bool
unfolding sync_terminal_success
is_sync_success (sync e) = sync_terminal_success e.event_type
is_sync_success _ = false

abbrev pub sync_verdict : Option Event → Option RuleResult
sync_verdict none = some (quarantined p003)
sync_verdict (some ev) = fires_if (not (is_sync_success ev)) (quarantined p003)

unfoldable pub p003_missing_sync_event : ValidationContext → Option RuleResult
p003_missing_sync_event ctx = do gen ← _gen ctx; sync_verdict (event ctx gen.sync_event.event_id)

-- max(0, parent - behavior): subtraction on the naturals stops at 0.
unfoldable pub _policy_lag : ValidationContext → Option ℕ
_policy_lag ctx = do
  gen ← _gen ctx
  some (ctx.envelope.training_contract.trainer_parent_policy_version - gen.behavior_policy_version)

abbrev pub is_strict : ProtocolMode → Bool
is_strict strict_on_policy = true
is_strict bounded_off_policy = false

unfoldable pub p004_stale_policy_strict : ValidationContext → Option RuleResult
p004_stale_policy_strict ctx =
    if not (is_strict ctx.protocol.mode)
    then none
    else (do lag ← _policy_lag ctx; fires_if (ltb 0 lag) (rejected p004))

unfoldable pub p005_lag_exceeds_bound : ValidationContext → Option RuleResult
p005_lag_exceeds_bound ctx = if is_strict ctx.protocol.mode then none else (do
  lag ← _policy_lag ctx
  fires_if (ltb_ℤ ctx.protocol.max_policy_lag_versions (pos lag)) (rejected p005))

-- `not text`, for a text or None
abbrev pub is_falsy : Option String → Bool
is_falsy none = true
is_falsy (some s) = is_empty s

unfoldable pub p006_correction_undeclared : ValidationContext → Option RuleResult
p006_correction_undeclared ctx =
    if is_strict ctx.protocol.mode
    then none
    else fires_if (is_falsy ctx.protocol.importance_correction) (rejected p006)

abbrev pub same_mode : ProtocolMode → ProtocolMode → Bool
same_mode strict_on_policy m = is_strict m
same_mode bounded_off_policy m = not (is_strict m)

unfoldable pub p009_contract_protocol_mismatch : ValidationContext → Option RuleResult
p009_contract_protocol_mismatch ctx =
    fires_if (not (same_mode ctx.envelope.training_contract.protocol ctx.protocol.mode))
      (rejected p009)

abbrev pub seq_of : Option Event → ℕ → ℕ
seq_of none n = n
seq_of (some ev) n = (base_of ev).lifecycle_seq

unfoldable pub p007_event_order_invalid : ValidationContext → Option RuleResult
p007_event_order_invalid ctx = do
  gen ← _gen ctx
  if ltb gen.lifecycle_seq (seq_of (event ctx gen.sync_event.event_id) gen.lifecycle_seq)
      then some (rejected p007)
      else fires_if (ltb (seq_of ctx.update_input_event gen.lifecycle_seq) gen.lifecycle_seq)
          (rejected p007)

unfoldable pub p008_canary_mismatch : ValidationContext → Option RuleResult
p008_canary_mismatch ctx = do
  status ← ctx.canary_status
  fires_if (status is "mismatch") (rejected p008)
