-- ===== src/Tests/Runtime.antt =====
-- A generation of two prompt tokens and two completion tokens.
use grpo_guard.Align.{Alignment, reconstruct_alignment}
use grpo_guard.AppendLog.{append, append_provenance_edge, find_edge}
use grpo_guard.ArtifactStore.{artifact_ref, get, put}
use grpo_guard.Prelude.{[], arith, false, refl, some, ◌∷◌, ◌≡◌}
use grpo_guard.Prelude.Decimal.{decimal, decimal_4}
use grpo_guard.Prelude.Dict.{insert, lookup}
use grpo_guard.Prelude.Int.{pos}
use grpo_guard.Prelude.Result.{Result, ok}
use grpo_guard.Prelude.Words.{bytes_32, bytes_8}
use grpo_guard.Runtime.{
  Runtime, Sampled, emit_generation, emit_numbered, generation_draft, log_edge, log_edges,
  log_generation, log_sampled, next_number, put_array, put_logprobs, put_tokens, sealed_generation,
}
use grpo_guard.Runtime.Canonical.{emitted_masks_canonical}
use grpo_guard.Runtime.Emitted.{Emitted, emit_generation-Emitted}
use grpo_guard.Schema.Events.{GenerationEvent, generation_success}
use grpo_guard.Schema.Seal.{is_sealed}
use grpo_guard.Tests.Sample.{event_ref, toy_dumps, toy_sha256}

abbrev runtime : Runtime
runtime = record {
  store = record { blobs = [] };
  log = record { run_id = "run-0"; lease_id = "w" };
  files = record {
    event_files = [];
    edge_files = [];
    lease_file = some (record { lease_id = "w"; epoch = 1 });
  };
  run_id = "run-0";
  runtime_id = "rollout-gpu1";
  component_id = "vllm_runtime";
  seq = 0;
  load_epoch = 1;
  from_log = false;
}

abbrev sampled : Sampled
sampled = record {
  prompt_ids = 1 ∷ 2 ∷ [];
  completion_ids = 3 ∷ 4 ∷ [];
  service_logprobs = some (7 ∷ 8 ∷ []);
  behavior_policy_version = 1;
  checkpoint_manifest_sha256 = "c";
  sync_event = event_ref "sync-0";
  tokenizer_sha256 = "t";
  chat_template_sha256 = "t";
  sampling_config_sha256 = "s";
  prompt_id = "p";
  request_id = "r";
  truncation_applied = false;
  terminal_status = generation_success;
  required_epoch = some (pos 1);
}

abbrev emitted : Result GenerationEvent × Runtime
emitted = emit_generation toy_sha256 toy_dumps "" sampled runtime

abbrev generated : GenerationEvent
generated = sealed_generation toy_sha256 toy_dumps "" (
    generation_draft "" runtime sampled 1 (record {
      seq_ref =
          artifact_ref toy_sha256 (bytes_32 (1 ∷ 2 ∷ 3 ∷ 4 ∷ [])) "application/octet-stream"
            "gen-1-run-0-0001" (some "int32") (some (4 ∷ []));
      target_ref =
          artifact_ref toy_sha256 (0 ∷ 0 ∷ 1 ∷ 1 ∷ []) "application/octet-stream" "gen-1-run-0-0001"
            (some "int8") (some (4 ∷ []));
      loss_ref =
          artifact_ref toy_sha256 (0 ∷ 1 ∷ 1 ∷ []) "application/octet-stream" "gen-1-run-0-0001"
            (some "int8") (some (3 ∷ []));
      lp_ref = some (
          artifact_ref toy_sha256 (bytes_32 (7 ∷ 8 ∷ [])) "application/octet-stream"
            "gen-1-run-0-0001" (some "float32") (some (2 ∷ [])));
    }))

emits : emitted ≡ (ok generated, emitted.1)
unfolding emit_generation emit_numbered next_number put_tokens put_array put_logprobs log_sampled
    log_generation log_edges log_edge append append_provenance_edge is_sealed put lookup insert
    toy_sha256 bytes_32 bytes_8 decimal decimal_4 find_edge
emits = refl

emit_generation-Emitted_example : Emitted toy_sha256 toy_dumps "" sampled generated emitted.1
emit_generation-Emitted_example =
    emit_generation-Emitted toy_sha256 toy_dumps "" sampled runtime emitted.1 generated emits

emitted_masks_canonical_example :
    (al : Alignment) × (reconstruct_alignment 4 (pos 2) (pos 4) [] (pos 0) ≡ ok al)
    × (get toy_sha256 emitted.1.store generated.completion_target_mask
        ≡ ok al.completion_target_mask)
    × (get toy_sha256 emitted.1.store generated.loss_mask ≡ ok al.loss_mask)
emitted_masks_canonical_example =
    emitted_masks_canonical toy_sha256 toy_dumps "" sampled runtime emitted.1 generated
      (ground arith) (ground arith) emits
