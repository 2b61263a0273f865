-- ===== src/Tests/Handles.antt =====
-- A model of one number, which every step increments, and a handle for it.
use grpo_guard.Guarded.Batch.{
  Layout, Request, Rewards, ValidatedBatchHandle, layout_of, sealed_event,
}
use grpo_guard.Guarded.Nonce.{sqlite}
use grpo_guard.Guarded.Run.{GuardedStepResult}
use grpo_guard.Guarded.Step.{Argument, StepConfig, Trainer, World, handle}
use grpo_guard.Guarded.Wal.{committed}
use grpo_guard.Prelude.{Bool, List, Option, String, [], length, none, some, ℕ, ◌+◌, ◌is◌, ◌∷◌}
use grpo_guard.Prelude.Int.{pos}
use grpo_guard.Prelude.Result.{Result, ok}
use grpo_guard.Schema.Refs.{EventRef}
use grpo_guard.Schema.Seal.{Bytes}
use grpo_guard.Tests.Sample.{
  event_ref, logprob_bytes, loss_bytes, sample_artifact, sample_store, token_bytes, toy_dumps,
  toy_sha256,
}

abbrev pub counter : Trainer
counter = record {
  Params = ℕ;
  Grads = ℕ;
  Loss = ℕ;
  Checkpoint = ℕ;
  loss_from_batches = λ p batches group_size. ok (length batches);
  zero_grad = λ g. 0;
  backward = λ l g. (ok tt, l);
  step = λ g p. (ok tt, p + g);
  commit_fn = some (λ p. (ok p, p));
  policy_manifest = λ p. "manifest";
}

abbrev pub sample_rewards : Rewards
sample_rewards = record { shape = 1 ∷ []; float32_bytes = 0 ∷ 0 ∷ 0 ∷ 1 ∷ [] }

abbrev pub sample_request : Request
sample_request = record {
  run_id = "run-0";
  update_id = "upd-0";
  preupdate_envelope = record { uri = "e"; envelope_id = "env-0"; envelope_sha256 = "env" };
  validation_decision = event_ref "vdec-env-0";
  sequence_ref = sample_artifact token_bytes "int32";
  loss_mask_ref = sample_artifact loss_bytes "int8";
  logprob_event_ref = event_ref "gen-0";
  logprob_ref = sample_artifact logprob_bytes "float32";
  reward_event_ref = event_ref "rew-0";
  nonce = "n";
  rewards = some sample_rewards;
  lifecycle_seq = 5;
  group_size = some (pos 1);
  group_members = "env" ∷ [];
  parent_policy_manifest = "manifest";
}

abbrev pub toy_encode : String → Bytes
toy_encode s = 3 ∷ []

abbrev pub toy_layout : Layout → Bytes
toy_layout l = 7 ∷ []

abbrev pub sample_handle : ValidatedBatchHandle
sample_handle = record {
  handle_id = 1;
  input_event =
      sealed_event toy_sha256 toy_encode toy_layout toy_dumps "now" sample_request sample_rewards;
  batch = record {
    sequence_token_ids = record { dtype = "<i4"; bytes = token_bytes };
    loss_mask = record { dtype = "<i1"; bytes = loss_bytes };
    behavior_logprobs = record { dtype = "<f4"; bytes = logprob_bytes };
    rewards = sample_rewards;
    layout_sha256 = toy_sha256 (
        toy_layout (
          layout_of toy_sha256 toy_encode toy_layout toy_dumps "now" sample_request
            sample_rewards));
  };
}

abbrev pub sample_nonce : String
sample_nonce = toy_sha256 (toy_encode "n")

abbrev pub trusting : EventRef → Result Bool
trusting r = ok (r.event_id is "vdec-env-0")

abbrev pub sample_config : StepConfig
sample_config = record {
  store = sample_store;
  decision_verifier = some trusting;
  group_size = pos 1;
  failpoint = none;
}

abbrev pub start : World counter
start = record { registry = sqlite []; used = []; wal = some []; params = 0; grads = 0 }

abbrev pub sample_args : Option (List Argument)
sample_args = some (handle sample_handle ∷ [])

abbrev pub sample_result : GuardedStepResult counter
sample_result = record {
  loss = 1;
  consumed_nonces = "111.|" ∷ [];
  checkpoint = some 1;
  wal_status = committed;
}
