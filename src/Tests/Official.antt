-- ===== src/Tests/Official.antt =====
-- The guarded trainer on two rollouts, the second with a padded prompt.
use mathlib.Core.List.{Permᴰ}
use grpo_guard.Prelude.Action.{pure}
use grpo_guard.ArtifactStore.{artifact_ref, put}
use grpo_guard.Official.Advantages.{advantage_rows_unbound}
use grpo_guard.Official.Available.{hashes_of}
use grpo_guard.Official.Checked.{consumed_over}
use grpo_guard.Official.Exhausted.{exhausted_passes}
use grpo_guard.Official.Gate.{Gated, _prepare_inputs-Gated}
use grpo_guard.Official.Match.{
  Columns, _as_np, available_from, check_advantages, check_old, column_dict, match_row, match_rows,
  take_advantages, verify_columns,
}
use grpo_guard.Official.Recorded.{RowsRecorded, _guard_validate_rollouts-RowsRecorded}
use grpo_guard.Official.Rollout.{
  Guard, RolloutBatch, RolloutRecord, _guard_emit_generation, _guard_validate_rollouts, finish_row,
  record_row, record_rows, store_put, store_rest, store_span, store_spans,
}
use grpo_guard.Official.Rows.{Row, _align_checks, _masked_real, _span}
use grpo_guard.Official.Runs.{consumed_once}
use grpo_guard.Official.Step.{_guard_pre_update, _prepare_inputs, verify_batch}
use grpo_guard.Prelude.{
  All, [], contains, false, length, none, refl, some, true, ℕ, ◌++◌, ◌+◌, ◌∷◌, ◌≡◌,
}
use grpo_guard.Prelude.Dict.{Distinct, insert, lookup, remove}
use grpo_guard.Prelude.Result.{Result, ok}
use grpo_guard.Prelude.Words.{bytes_32, bytes_8}
use grpo_guard.Schema.Refs.{ArtifactRef}
use grpo_guard.Schema.Seal.{Bytes}
use grpo_guard.Tests.Sample.{toy_dumps, toy_sha256}

abbrev fresh_guard : Guard
fresh_guard = record {
  enabled = true;
  run_id = "run-0";
  log = none;
  files = record { event_files = []; edge_files = []; lease_file = none };
  epoch = none;
  store = some (record { blobs = [] });
  rollouts = [];
  gen_seq = 0;
  last_verified = none;
  step_capability = false;
  opt_wrapped = false;
  global_step = 0;
}

abbrev rollout_batch : RolloutBatch
rollout_batch = record {
  prompt_ids = (1 ∷ 2 ∷ []) ∷ (0 ∷ 5 ∷ []) ∷ [];
  prompt_mask = (1 ∷ 1 ∷ []) ∷ (0 ∷ 1 ∷ []) ∷ [];
  completion_ids = (3 ∷ 4 ∷ []) ∷ (6 ∷ 7 ∷ []) ∷ [];
  completion_mask = (1 ∷ 1 ∷ []) ∷ (1 ∷ 1 ∷ []) ∷ [];
  sampling_per_token_logps = [];
  old_per_token_logps = [];
  advantages = some (9 ∷ []) ∷ some (8 ∷ []) ∷ [];
}

abbrev recorded : Result (Unit {0}) × Guard
recorded = _guard_validate_rollouts toy_sha256 toy_dumps "" rollout_batch fresh_guard

recorded_ok : recorded.0 ≡ ok tt
unfolding _guard_validate_rollouts toy_sha256 lookup insert record_rows record_row _align_checks
    _masked_real grpo_guard.Official.Rows.select grpo_guard.Align.reconstruct_alignment
    grpo_guard.Align.apply_padding grpo_guard.Align.fill _span store_put put store_rest bytes_32
    bytes_8 store_spans store_span finish_row _guard_emit_generation
recorded_ok = refl

_guard_validate_rollouts-RowsRecorded_example :
    RowsRecorded toy_sha256 rollout_batch recorded.1 0 rollout_batch.prompt_ids
      rollout_batch.completion_ids recorded.1.rollouts
_guard_validate_rollouts-RowsRecorded_example =
    _guard_validate_rollouts-RowsRecorded toy_sha256 toy_dumps "" rollout_batch fresh_guard
      recorded_ok

-- A record of the tokens of a prompt and a completion, with an advantage.
abbrev held_ref : Bytes → ArtifactRef
held_ref bytes = artifact_ref toy_sha256 bytes "application/octet-stream" "" none none

abbrev held_record : ℕ → Row → Row → Row → RolloutRecord
held_record i p c adv = record {
  step = 0;
  index = i;
  prompt_len = length p;
  completion_len = length c;
  sequence_ref = held_ref (bytes_32 (p ++ c));
  mask_ref = held_ref [];
  old_logprob_ref = none;
  sampling_logprob_ref = none;
  advantage_ref = some (held_ref (bytes_32 adv));
}

abbrev held_guard : Guard
held_guard = record fresh_guard {
  rollouts =
      held_record 0 (1 ∷ 2 ∷ []) (3 ∷ 4 ∷ []) (9 ∷ [])
      ∷ held_record 1 (5 ∷ []) (6 ∷ 7 ∷ []) (8 ∷ [])
      ∷ [];
}

-- The columns of a training batch with the same rows, in the other order.
abbrev train_columns : Columns
train_columns = record {
  prompt_ids = some ((0 ∷ 5 ∷ []) ∷ (1 ∷ 2 ∷ []) ∷ []);
  prompt_mask = some ((0 ∷ 1 ∷ []) ∷ (1 ∷ 1 ∷ []) ∷ []);
  completion_ids = some ((6 ∷ 7 ∷ []) ∷ (3 ∷ 4 ∷ []) ∷ []);
  completion_mask = some ((1 ∷ 1 ∷ []) ∷ (1 ∷ 1 ∷ []) ∷ []);
  old_per_token_logps = none;
  advantages = none;
}

abbrev foreign_columns : Columns
foreign_columns = record train_columns { completion_ids = some ((9 ∷ 9 ∷ []) ∷ (9 ∷ 9 ∷ []) ∷ []) }

held_passes : (_guard_pre_update toy_sha256 (column_dict train_columns) held_guard).0 ≡ ok tt
unfolding _guard_pre_update verify_batch verify_columns toy_sha256 lookup insert available_from
    match_rows match_row _as_np _masked_real grpo_guard.Official.Match.row_hash
    grpo_guard.Official.Rows.select bytes_32 remove check_old take_advantages check_advantages
held_passes = refl

exhausted_passes_example :
    _prepare_inputs toy_sha256
      (pure (column_dict foreign_columns))
      none
      (_guard_pre_update toy_sha256 (column_dict train_columns) held_guard).1
    ≡ (
      ok (column_dict foreign_columns),
      record (_guard_pre_update toy_sha256 (column_dict train_columns) held_guard).1 {
        step_capability = true;
      },
    )
exhausted_passes_example =
    exhausted_passes toy_sha256 held_guard train_columns ((0 ∷ 5 ∷ []) ∷ (1 ∷ 2 ∷ []) ∷ [])
      (column_dict foreign_columns) refl refl refl held_passes

consumed_once_example :
    Distinct (
      consumed_over toy_sha256 held_guard
        (column_dict train_columns ∷ column_dict train_columns ∷ []))
    × All
        (λ h. contains h (hashes_of held_guard.rollouts) ≡ true)
        (consumed_over toy_sha256 held_guard
          (column_dict train_columns ∷ column_dict train_columns ∷ []))
consumed_once_example =
    consumed_once toy_sha256 held_guard (column_dict train_columns ∷ column_dict train_columns ∷ [])

_prepare_inputs-Gated_example :
    Gated toy_sha256
      (column_dict train_columns)
      (ok (column_dict train_columns))
      held_guard
      (_prepare_inputs toy_sha256 (pure (column_dict train_columns)) none held_guard)
      (λ (n : ℕ). n + 1)
      0
_prepare_inputs-Gated_example =
    _prepare_inputs-Gated toy_sha256 (pure (column_dict train_columns)) none held_guard
      (column_dict train_columns) (λ (n : ℕ). n + 1) 0 refl

advantage_rows_unbound_example :
    _guard_pre_update toy_sha256
      (column_dict (record train_columns { advantages = some ((9 ∷ []) ∷ (8 ∷ []) ∷ []) }))
      held_guard
    ≡ _guard_pre_update toy_sha256
        (column_dict (record train_columns { advantages = some ((8 ∷ []) ∷ (9 ∷ []) ∷ []) }))
        held_guard
advantage_rows_unbound_example =
    advantage_rows_unbound toy_sha256 held_guard train_columns ((9 ∷ []) ∷ (8 ∷ []) ∷ [])
      ((8 ∷ []) ∷ (9 ∷ []) ∷ []) refl refl (Permᴰ.swap refl refl)
