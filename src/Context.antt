-- ===== src/Context.antt =====
-- src/grpo_guard/validators/context.py: everything that a rule may read. `notes` is a list of
-- messages that nothing reads back, and is not modelled.
use grpo_guard.ArtifactStore.{ArtifactStore}
use grpo_guard.Prelude.{Option, String}
use grpo_guard.Prelude.Dict.{Dict, lookup}
use grpo_guard.Prelude.Int.{ℤ}
use grpo_guard.Schema.Envelope.{PolicyManifest, ProtocolMode, SplitManifest, TrajectoryEnvelope}
use grpo_guard.Schema.Events.{Event}

pub record ProtocolConfig : Type 0 where
  pub name : String
  pub mode : ProtocolMode
  pub max_policy_lag_versions : ℤ
  pub importance_correction : Option String
  pub checked_ruleset_sha256 : String

pub record ValidationContext : Type 0 where
  pub envelope : TrajectoryEnvelope
  pub store : ArtifactStore
  pub events : Dict Event
  pub policy_manifest : Option PolicyManifest
  pub split_manifest : Option SplitManifest
  pub protocol : ProtocolConfig
  pub canary_status : Option String
  pub update_input_event : Option Event
  pub split_registry : Option (Dict SplitManifest)
  pub eval_protocol_sha256 : Option String
  pub reward_verifier_registry : Option (Dict String)

unfoldable pub event : ValidationContext → String → Option Event
event ctx event_id = lookup event_id ctx.events
