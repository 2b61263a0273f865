-- ===== src/Tests/Resume.antt =====
-- A log of two training steps, given with the later one first, and of a file that cannot be read.

use grpo_guard.Prelude.{
  List, String, [], any, insert_by, lt_key, lt_text, none, refl, some, sort_by, true, ℕ, ◌∷◌, ◌≡◌,
}
use grpo_guard.Prelude.Int.{leb_ℤ, pos, ℤ}
use grpo_guard.Resume.{
  EventFile, RecoveryPlan, committed_of, holds, scan_file, unreadable, analyze_training,
  insert_step, last_version, scan_files, set_step, sort_steps, suc_ℤ,
}
use grpo_guard.Resume.Latest.{analyze_training-Latest, step_at}
use grpo_guard.Schema.Double.{zero_double}
use grpo_guard.Schema.Events.{Event, TrainingStepEvent, training_step}
use grpo_guard.Prelude.Result.{ok}
use grpo_guard.Tests.Sample.{sample_base}

abbrev step_of : String → ℕ → TrainingStepEvent
step_of id version = record {
  base = sample_base id version;
  update_id = "u";
  parent_policy_version = pos 0;
  output_policy_version = pos version;
  rollout_sequences = pos 4;
  consumed_sequences = pos 4;
  success_rate = zero_double;
  loss = zero_double;
  ratio_p50 = zero_double;
  ratio_max = zero_double;
  clip_fraction = none;
  weight_delta_fp32_vs_v0 = none;
}

abbrev step_event : String → ℕ → Event
step_event id version = training_step (step_of id version)

abbrev step_files : List EventFile
step_files =
    (record { file_name = "b"; content = holds (step_event "b" 2) })
    ∷ (record { file_name = "a"; content = holds (step_event "a" 1) })
    ∷ (record { file_name = "c"; content = unreadable })
    ∷ []

abbrev step_plan : RecoveryPlan
step_plan = record {
  plan_ok = true;
  failures = "c" ∷ [];
  last_step = some (pos 2);
  next_step = some (pos 3);
  checkpoint_manifest = none;
  checkpoint_dir = some (pos 2);
  steps = step_of "a" 1 ∷ step_of "b" 2 ∷ [];
  plan_run_id = some "run-0";
}

resumes_after : analyze_training step_files ≡ ok step_plan
unfolding analyze_training scan_files scan_file set_step sort_steps insert_step last_version sort_by
    insert_by lt_key lt_text committed_of
resumes_after = refl

analyze_training-Latest_example :
    (any (step_at (pos 2)) step_files ≡ true)
    × ((w : ℤ) → any (step_at w) step_files ≡ true → leb_ℤ w (pos 2) ≡ true)
    × (step_plan.next_step ≡ some (suc_ℤ (pos 2)))
analyze_training-Latest_example =
    analyze_training-Latest step_files step_plan (pos 2) resumes_after refl
