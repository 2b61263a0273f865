-- ===== src/Validator/Trust/Policy.antt =====
-- What the silence of the P, T002 and T003 rules says of the generation that an envelope names.
use grpo_guard.Context.{ValidationContext, event}
use grpo_guard.Prelude.{
  Option, String, arith, eq_iff, false, none, refl, some, true, ℕ, ◌-◌, ◌≡◌, ◌≤◌,
}
use grpo_guard.Prelude.Int.{leb_ℤ, pos}
use grpo_guard.Rules.Base.{_gen}
use grpo_guard.Rules.Policy.{
  _policy_lag, is_falsy, is_sync_success, p001_missing_policy_manifest,
  p002_checkpoint_hash_mismatch, p003_missing_sync_event, p004_stale_policy_strict,
  p005_lag_exceeds_bound, p006_correction_undeclared, p007_event_order_invalid,
  p009_contract_protocol_mismatch, sync_verdict,
}
use grpo_guard.Rules.Table.{run_rule}
use grpo_guard.Rules.Tokens.{t002_tokenizer_mismatch, t003_chat_template_mismatch}
use grpo_guard.Schema.Decision.{p001, p002, p003, p004, p005, p006, p007, p009, t002, t003}
use grpo_guard.Schema.Envelope.{PolicyManifest, bounded_off_policy, strict_on_policy}
use grpo_guard.Schema.Events.{
  Event, GenerationEvent, SyncEvent, generation, reward, scoring, sync, sync_terminal_success,
  training_step, update, update_input, validation_decision,
}
use grpo_guard.Schema.Seal.{Bytes}
use grpo_guard.Validator.Decide.{Silent}

module _ (sha256 : Bytes → String) (ctx : ValidationContext) (gen : GenerationEvent) where
  -- The generation has the hashes of the manifest that is bound to it.
  pub record PolicyBound : Type 0 where
    pub man : PolicyManifest
    pub bound : ctx.policy_manifest ≡ some man
    pub checkpoint : gen.checkpoint_manifest_sha256 ≡ man.checkpoint_manifest_sha256
    pub tokenizer : gen.tokenizer_sha256 ≡ man.tokenizer_sha256
    pub chat_template : gen.chat_template_sha256 ≡ man.chat_template_sha256

  manifest_of : Silent sha256 ctx p001 → (man : PolicyManifest) × (ctx.policy_manifest ≡ some man)
  unfolding run_rule p001_missing_policy_manifest
  manifest_of s = ground arith

  pub Silent-PolicyBound :
      _gen ctx ≡ some gen
      → Silent sha256 ctx p001
      → Silent sha256 ctx p002
      → Silent sha256 ctx t002
      → Silent sha256 ctx t003
      → PolicyBound
  unfolding run_rule p002_checkpoint_hash_mismatch t002_tokenizer_mismatch
      t003_chat_template_mismatch
  Silent-PolicyBound g s1 s2 s3 s4 =
      let (man, e) = manifest_of s1 in
      record {
        man = man;
        bound = e;
        checkpoint =
            ground (arith, eq_iff gen.checkpoint_manifest_sha256 man.checkpoint_manifest_sha256);
        tokenizer = ground (arith, eq_iff gen.tokenizer_sha256 man.tokenizer_sha256);
        chat_template = ground (arith, eq_iff gen.chat_template_sha256 man.chat_template_sha256);
      }

  -- The generation follows a sync event that ended in success.
  pub record SyncBound : Type 0 where
    pub ev : SyncEvent
    pub found : event ctx gen.sync_event.event_id ≡ some (sync ev)
    pub success : sync_terminal_success ev.event_type ≡ true
    pub ordered : ev.lifecycle_seq ≤ gen.lifecycle_seq

  sync_of :
      (o : Option Event)
      → sync_verdict o ≡ none
      → (ev : SyncEvent) × (o ≡ some (sync ev)) × (sync_terminal_success ev.event_type ≡ true)
  unfolding is_sync_success
  sync_of none s = cc
  sync_of (some (sync ev)) s = (ev, refl, ground arith)
  sync_of (some (update ev)) s = cc
  sync_of (some (update_input ev)) s = cc
  sync_of (some (generation ev)) s = cc
  sync_of (some (scoring ev)) s = cc
  sync_of (some (reward ev)) s = cc
  sync_of (some (validation_decision ev)) s = cc
  sync_of (some (training_step ev)) s = cc

  pub Silent-SyncBound :
      _gen ctx ≡ some gen → Silent sha256 ctx p003 → Silent sha256 ctx p007 → SyncBound
  unfolding run_rule p003_missing_sync_event p007_event_order_invalid
  Silent-SyncBound g s3 s7 =
      let (ev, found, success) = sync_of (event ctx gen.sync_event.event_id) (ground arith) in
      record { ev = ev; found = found; success = success; ordered = ground arith }

  abbrev lag : ℕ
  lag = ctx.envelope.training_contract.trainer_parent_policy_version - gen.behavior_policy_version

  -- The trainer is not ahead of the generation by more than the protocol allows.
  pub record LagBound : Type 0 where
    pub mode : ctx.envelope.training_contract.protocol ≡ ctx.protocol.mode
    pub strict :
        ctx.protocol.mode ≡ strict_on_policy
        → ctx.envelope.training_contract.trainer_parent_policy_version ≤ gen.behavior_policy_version
    pub bounded :
        ctx.protocol.mode ≡ bounded_off_policy
        → (leb_ℤ (pos lag) ctx.protocol.max_policy_lag_versions ≡ true)
          × (is_falsy ctx.protocol.importance_correction ≡ false)

  pub Silent-LagBound :
      _gen ctx ≡ some gen
      → Silent sha256 ctx p004
      → Silent sha256 ctx p005
      → Silent sha256 ctx p006
      → Silent sha256 ctx p009
      → LagBound
  unfolding run_rule p004_stale_policy_strict p005_lag_exceeds_bound p006_correction_undeclared
      p009_contract_protocol_mismatch _policy_lag
  Silent-LagBound g s4 s5 s6 s9 = record {
    mode = ground arith;
    strict = λ m. ground arith;
    bounded = λ m. (ground arith, ground arith);
  }
