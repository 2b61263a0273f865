-- ===== src/Official/Step.antt =====
-- The step seam of GuardedGRPOTrainer: `_guard_pre_update`, `_prepare_inputs`, `training_step`, the
-- optimizer's gate and `_guard_commit`. What the official trainer's own methods give comes in as
-- arguments.
use grpo_guard.Official.Match.{
  Columns, StepInputs, column_dict, columns_of, sample_dicts, verify_columns,
}
use grpo_guard.Official.Rollout.{Guard, RolloutBatch, RolloutRecord, _guard_validate_rollouts}
use grpo_guard.Prelude.{
  Bool, List, Option, String, [], false, if◌then◌else◌, is_nil, length, none, not, some, true, ◌&&◌,
  ◌++◌, ◌∷◌,
}
use grpo_guard.Prelude.Dict.{Dict, values}
use grpo_guard.Prelude.Result.{Result, err, guard_violation, ok}
use grpo_guard.Schema.Events.{Event}
use grpo_guard.Schema.Seal.{Bytes}
use grpo_guard.Prelude.Action.{Action, lift, pure, modify, ◌>>=◌, ◌>>◌}

-- hook(inputs), which may raise
abbrev pub hooked : Option (StepInputs → Result StepInputs) → StepInputs → Result StepInputs
hooked none inputs = ok inputs
hooked (some hook) inputs = hook inputs

module _ (sha256 : Bytes → String) where
  abbrev pub commit_matched : Guard → Dict RolloutRecord → Guard
  commit_matched g left = record g {
    rollouts = values left;
    last_verified =
        some (record { global_step = g.global_step; n_rollouts = length (values left) });
  }

  unfoldable pub verify_batch : Columns → Action Guard (Unit {0})
  verify_batch c g = elim (verify_columns sha256 g.rollouts c) [
    | err e ↦ (err e, g)
    | ok matched ↦ (ok tt, commit_matched g matched.1)
  ]

  -- Without records, and on an empty list of samples, nothing is verified.
  unfoldable pub _guard_pre_update : StepInputs → Action Guard (Unit {0})
  _guard_pre_update (column_dict c) g = if is_nil g.rollouts then (ok tt, g) else verify_batch c g
  _guard_pre_update (sample_dicts []) g = (ok tt, g)
  _guard_pre_update (sample_dicts (s ∷ ss)) g =
      if is_nil g.rollouts then (ok tt, g) else verify_batch (columns_of s (s ∷ ss)) g

  -- With the guard off, the batch of the hook is what the loss consumes.
  unfoldable pub verify_enabled : StepInputs → StepInputs → Action Guard StepInputs
  verify_enabled inputs to_verify g = elim g.enabled [
    | true ↦ (
      elim (_guard_pre_update to_verify g).0 [ ok _ ↦ ok inputs | err e ↦ err e ],
      (_guard_pre_update to_verify g).1,
    )
    | false ↦ (ok to_verify, g)
  ]

  -- `official` is super()._prepare_inputs, which may call `_generate_and_score_completions`; `hook` is
  -- the optional _guard_prepare_hook.
  unfoldable pub _prepare_inputs :
      Action Guard StepInputs → Option (StepInputs → Result StepInputs) → Action Guard StepInputs
  _prepare_inputs official hook = do
    inputs ← official
    to_verify ← lift (hooked hook inputs)
    modify (λ g. record g { step_capability = false })
    consumed ← verify_enabled inputs to_verify
    modify (λ g. record g { step_capability = true })
    pure consumed

-- _generate_and_score_completions, for what the official one returned
unfoldable pub _generate_and_score_completions :
    (Bytes → String) → (Event → Bytes) → String → RolloutBatch → Action Guard RolloutBatch
_generate_and_score_completions sha256 dumps now b = do
  _guard_validate_rollouts sha256 dumps now b
  pure b

-- The gate of _CapabilityOptimizer: `opt_step` is the step of the optimizer that it wraps.
unfoldable pub optimizer_step {ℓ} : {M : Type ℓ} → Guard → (M → M) → Action M (Unit {0})
optimizer_step g opt_step m =
    if not g.step_capability then (err guard_violation, m) else (ok tt, opt_step m)

-- training_step wraps the optimizer at the first call at which there is one.
unfoldable pub wrap_optimizer : Bool → Guard → Guard
wrap_optimizer has_optimizer g =
    if not g.opt_wrapped && has_optimizer then record g { opt_wrapped = true } else g

-- The bytes that `_guard_commit` hashes, of a model's named parameters.
unfoldable pub commit_bytes : (String → Bytes) → List (String × Bytes) → Bytes
commit_bytes encode [] = []
commit_bytes encode ((name, param) ∷ params) = encode name ++ (param ++ commit_bytes encode params)

unfoldable pub _guard_commit :
    (Bytes → String) → (String → Bytes) → Option (List (String × Bytes)) → Option String
_guard_commit sha256 encode none = none
_guard_commit sha256 encode (some params) = some (sha256 (commit_bytes encode params))
