-- ===== src/Tests/Seal.antt =====
-- Sealed events, and a rule that fires.
use grpo_guard.Context.{ValidationContext}
use grpo_guard.Prelude.{String, none, refl, some, true, ◌≡◌}
use grpo_guard.Prelude.Result.{err, ok, value_error}
use grpo_guard.Rules.Base.{rejected}
use grpo_guard.Rules.Policy.{p001_missing_policy_manifest}
use grpo_guard.Rules.Table.{run_rule}
use grpo_guard.Schema.Decision.{p001}
use grpo_guard.Schema.Events.{
  Event, base_of, generation, reward, scoring, sync, training_step, update, update_input,
  validation_decision, with_base,
}
use grpo_guard.Schema.Seal.{Bytes, is_sealed, seal, verify_seal}
use grpo_guard.Schema.Sealing.{seal-verify_seal}
use grpo_guard.Tests.Sample.{sample_context, sample_sync, toy_dumps, toy_sha256}

abbrev fixed_digest : Bytes → String
fixed_digest bytes = "digest"

toy_dumps-ignores :
    (e : Event) (h : String)
    → toy_dumps (with_base e (record (base_of e) { event_sha256 = h })) ≡ toy_dumps e
toy_dumps-ignores (sync e) h = refl
toy_dumps-ignores (update e) h = refl
toy_dumps-ignores (update_input e) h = refl
toy_dumps-ignores (generation e) h = refl
toy_dumps-ignores (scoring e) h = refl
toy_dumps-ignores (reward e) h = refl
toy_dumps-ignores (validation_decision e) h = refl
toy_dumps-ignores (training_step e) h = refl

abbrev with_hash : String → Event
with_hash h = sync (record sample_sync { base = record sample_sync.base { event_sha256 = h } })

sample_seals : seal fixed_digest toy_dumps (with_hash "") ≡ ok (with_hash "digest")
unfolding seal
sample_seals = refl

seal-verify_seal_example :
    (is_sealed (with_hash "digest") ≡ true)
    × (verify_seal fixed_digest toy_dumps (with_hash "digest") ≡ true)
    × (seal fixed_digest toy_dumps (with_hash "digest") ≡ err value_error)
seal-verify_seal_example =
    seal-verify_seal fixed_digest toy_dumps (with_hash "") (with_hash "digest") toy_dumps-ignores
      (λ bytes. refl) sample_seals

sample_verifies : verify_seal toy_sha256 toy_dumps (with_hash "1.|") ≡ true
unfolding verify_seal toy_sha256
sample_verifies = refl

-- The sample without its policy manifest.
abbrev unowned_context : ValidationContext
unowned_context = record sample_context { policy_manifest = none }

p001_fires : run_rule toy_sha256 p001 unowned_context ≡ ok (some (rejected p001))
unfolding run_rule p001_missing_policy_manifest
p001_fires = refl
