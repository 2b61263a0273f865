-- ===== src/Tests/Guarded.antt =====
-- guarded_optimizer_step on the sample handle.
use grpo_guard.ArtifactStore.{eq_bytes, get, verify}
use grpo_guard.Guarded.Batch.{_dtype, frombuffer, itemsize, materialize}
use grpo_guard.Guarded.Burned.{wrong_group_burns_nonce}
use grpo_guard.Guarded.Consume.{Kept}
use grpo_guard.Guarded.Materialized.{IsBound, materialize-IsBound, materialize-check_handle}
use grpo_guard.Guarded.Nonce.{consume, has_row, is_consumed, memory, sqlite}
use grpo_guard.Guarded.Once.{FreshAll, call, done, exactly_once, interrupted, untouched}
use grpo_guard.Guarded.Outcome.{fails_closed}
use grpo_guard.Guarded.Recovery.{step_log}
use grpo_guard.Guarded.Run.{
  GuardedStepResult, check_binding, check_bindings, commit_phase, consume_handles, consume_nonces,
  consume_phase, guarded_optimizer_step, loss_and_step, update_phase, write_wal,
}
use grpo_guard.Guarded.Step.{
  StepConfig, World, accept, commit, all_handles, check_handle, check_handles, eq_shape, eq_texts,
  handle, mem_id, reward_mismatch,
}
use grpo_guard.Guarded.Update.{ending}
use grpo_guard.Guarded.Wal.{
  Wal, committed, dangling, entry, is_committed, prepared, status, torn, write,
}
use grpo_guard.Prelude.{[], arith, contains, false, none, not, refl, some, true, ◌∷◌, ◌≡◌, ◌⊎◌}
use grpo_guard.Prelude.Dict.{insert, lookup}
use grpo_guard.Prelude.Int.{pos}
use grpo_guard.Prelude.Result.{Error, Result, err, nonce_reuse_error, ok, runtime_error}
use grpo_guard.Tests.Handles.{
  counter, sample_args, sample_config, sample_handle, sample_nonce, sample_request, sample_result,
  start, toy_encode, toy_layout, trusting,
}
use grpo_guard.Tests.Sample.{sample_store, toy_dumps, toy_sha256}

sample_materialized :
    materialize toy_sha256 toy_encode toy_layout toy_dumps "now" sample_store 1 sample_request
    ≡ ok sample_handle
unfolding materialize get lookup toy_sha256 frombuffer itemsize _dtype
sample_materialized = refl

materialize-IsBound_example :
    IsBound toy_sha256 toy_encode toy_layout toy_dumps "now" sample_store 1 sample_request
      sample_handle
materialize-IsBound_example =
    materialize-IsBound toy_sha256 toy_encode toy_layout toy_dumps "now" sample_store 1
      sample_request sample_handle sample_materialized

empty_registry-free : is_consumed (sqlite []) sample_nonce ≡ false
unfolding is_consumed has_row
empty_registry-free = refl

sample_checked : check_handle toy_sha256 sample_config (sqlite []) sample_handle ≡ ok tt
sample_checked =
    materialize-check_handle toy_sha256 toy_encode toy_layout toy_dumps "now" sample_store 1
      sample_request sample_handle sample_config trusting (sqlite []) sample_materialized refl refl
      refl empty_registry-free

materialize-check_handle_example :
    check_handle toy_sha256 sample_config (sqlite []) sample_handle ≡ ok tt
materialize-check_handle_example =
    materialize-check_handle toy_sha256 toy_encode toy_layout toy_dumps "now" sample_store 1
      sample_request sample_handle sample_config trusting (sqlite []) sample_materialized refl refl
      refl empty_registry-free

abbrev trained_world : World counter
trained_world = (guarded_optimizer_step counter toy_sha256 sample_config sample_args start).1

sample_accepted : accept sample_args ≡ ok (sample_handle ∷ [])
unfolding accept all_handles
sample_accepted = refl

sample_returns :
    (guarded_optimizer_step counter toy_sha256 sample_config sample_args start).0 ≡ ok sample_result
unfolding all_handles accept eq_shape eq_texts reward_mismatch check_handle check_handles mem_id
    consume_nonces consume_handles check_binding check_bindings write_wal loss_and_step commit_phase
    consume_phase update_phase guarded_optimizer_step has_row is_consumed consume write eq_bytes get
    verify lookup insert toy_sha256
sample_returns = refl

step_log_example :
    Kept counter start trained_world
    ⊎ ((status trained_world.wal "upd-0"
          ≡ some (
              ending (guarded_optimizer_step counter toy_sha256 sample_config sample_args start).0))
        × (contains "upd-0" (dangling trained_world.wal)
            ≡ not (
                is_committed (
                  ending
                    (guarded_optimizer_step counter toy_sha256 sample_config sample_args
                      start).0))))
step_log_example =
    step_log toy_sha256 counter sample_config sample_args (sample_handle ∷ []) start sample_accepted
      refl refl

-- A call that fails after the optimizer's step, and the same handle once more.
abbrev failing : StepConfig
failing = record sample_config { failpoint = some commit }

abbrev failed_call : Result (GuardedStepResult counter) × World counter
failed_call = guarded_optimizer_step counter toy_sha256 failing sample_args start

abbrev retried_call : Result (GuardedStepResult counter) × World counter
retried_call = guarded_optimizer_step counter toy_sha256 sample_config sample_args failed_call.1

failed_call-raises : (failed_call.0 ≡ err runtime_error) × (failed_call.1.params ≡ 1)
unfolding all_handles accept eq_shape eq_texts reward_mismatch check_handle check_handles mem_id
    consume_nonces consume_handles check_binding check_bindings write_wal loss_and_step commit_phase
    consume_phase update_phase guarded_optimizer_step has_row is_consumed consume write eq_bytes get
    verify lookup insert toy_sha256
failed_call-raises = (refl, refl)

retried_call-refused :
    (retried_call.0 ≡ err nonce_reuse_error) × (retried_call.1.params ≡ failed_call.1.params)
unfolding all_handles accept eq_shape eq_texts reward_mismatch check_handle check_handles mem_id
    consume_nonces consume_handles check_binding check_bindings write_wal loss_and_step commit_phase
    consume_phase update_phase guarded_optimizer_step has_row is_consumed consume write eq_bytes get
    verify lookup insert toy_sha256
retried_call-refused = (refl, refl)

exactly_once_example : FreshAll (sqlite []) (sample_nonce ∷ [])
exactly_once_example = exactly_once toy_sha256 counter start retried_call.1 (sample_nonce ∷ []) (
    call failing sample_args start _ (sample_nonce ∷ []) []
      (interrupted runtime_error (sample_handle ∷ []) failed_call-raises.0 sample_accepted
        (λ k. ground (arith, k, failed_call-raises.1)))
      (call sample_config sample_args failed_call.1 _ [] []
        (untouched nonce_reuse_error retried_call-refused.0 retried_call-refused.1) (done _)))

-- The world in which the nonce of the sample is consumed.
abbrev spent : World counter
spent = record start { registry = memory (sample_nonce ∷ []) }

spent_nonce : is_consumed spent.registry sample_nonce ≡ true
unfolding is_consumed toy_sha256
spent_nonce = refl

fails_closed_example :
    (e : Error) × (guarded_optimizer_step counter toy_sha256 sample_config sample_args spent
      ≡ (err e, spent))
fails_closed_example =
    fails_closed toy_sha256 counter sample_config sample_args (sample_handle ∷ []) spent
      sample_accepted (λ v. ground (arith, v.0.verified_fresh, spent_nonce))

abbrev wrong_group : StepConfig
wrong_group = record sample_config { group_size = pos 4 }

wrong_checked : check_handle toy_sha256 wrong_group (sqlite []) sample_handle ≡ ok tt
wrong_checked =
    materialize-check_handle toy_sha256 toy_encode toy_layout toy_dumps "now" sample_store 1
      sample_request sample_handle wrong_group trusting (sqlite []) sample_materialized refl refl
      refl empty_registry-free

not_used : mem_id 1 [] ≡ false
unfolding mem_id
not_used = refl

wrong_group_burns_nonce_example :
    let (r, w') =
      guarded_optimizer_step counter toy_sha256 wrong_group
        (some (handle sample_handle ∷ []))
        start in
    (r ≡ err runtime_error) × Kept counter start w' × (is_consumed w'.registry sample_nonce ≡ true)
wrong_group_burns_nonce_example =
    wrong_group_burns_nonce toy_sha256 counter wrong_group sample_handle start wrong_checked refl
      refl not_used

abbrev sample_lines : Wal
sample_lines = some (
    entry (record { status = prepared; update_id = "upd-0"; fields = none })
    ∷ torn
    ∷ entry (record { status = committed; update_id = "upd-1"; fields = none })
    ∷ [])
