-- ===== src/Guarded/Run.antt =====
-- The phases of guarded_optimizer_step that change state, and the whole step.
use grpo_guard.Guarded.Batch.{MaterializedBatch, ValidatedBatchHandle}
use grpo_guard.Guarded.Nonce.{consume}
use grpo_guard.Guarded.Step.{
  Argument, Failpoint, StepConfig, Trainer, World, accept, after_prepared, at_failpoint, backward,
  check_handles, commit, eq_texts, eq_ℤ, is_unknown, mem_id, step,
}
use grpo_guard.Guarded.Wal.{
  PreparedFields, WalStatus, aborted, applied, checkpointed, committed, prepared, write,
}
use grpo_guard.Prelude.{
  Bool, List, Option, String, [], false, if◌then◌else◌, is_empty, is_nil, map, none, not, some,
  ◌&&◌, ◌is◌, ◌∷◌,
}
use grpo_guard.Prelude.Int.{ℤ}
use grpo_guard.Prelude.Result.{Result, err, handle_consumed_error, ok, runtime_error, value_error}
use grpo_guard.Schema.Seal.{Bytes}
use grpo_guard.Prelude.Action.{Action, pure, lift, modify, raise_when, ◌>>=◌, ◌>>◌}

abbrev pub nonces_of : List ValidatedBatchHandle → List String
nonces_of hs = map (λ h. h.input_event.single_use_nonce_sha256) hs

abbrev pub members_of : List ValidatedBatchHandle → List String
members_of hs = map (λ h. h.input_event.preupdate_envelope.envelope_sha256) hs

abbrev pub update_id_of : List ValidatedBatchHandle → String
update_id_of [] = ""
update_id_of (h ∷ hs) = h.input_event.update_id

abbrev pub manifest_of : List ValidatedBatchHandle → String
manifest_of [] = ""
manifest_of (h ∷ hs) = h.input_event.parent_policy_manifest

abbrev pub group_differs : Option ℤ → ℤ → Bool
group_differs none actual = false
group_differs (some n) actual = not (eq_ℤ n actual)

module _ (t : Trainer) where
  -- Phase 2: nonces, handle by handle; what was consumed before an error stays consumed.
  unfoldable pub consume_nonces : List ValidatedBatchHandle → Action (World t) (Unit {0})
  consume_nonces [] w = (ok tt, w)
  consume_nonces (h ∷ hs) w =
      let (r, reg) =
        consume w.registry h.input_event.single_use_nonce_sha256 h.input_event.update_id in
      elim r [
        | err e ↦ (err e, record w { registry = reg })
        | ok _ ↦ consume_nonces hs (record w { registry = reg })
      ]

  -- [h.consume() for h in handles]
  unfoldable pub consume_handles :
      List ValidatedBatchHandle → Action (World t) (List MaterializedBatch)
  consume_handles [] w = (ok [], w)
  consume_handles (h ∷ hs) w =
      if mem_id h.handle_id w.used
      then (err handle_consumed_error, w)
      else (let (r, w') = consume_handles hs (record w { used = h.handle_id ∷ w.used }) in
          elim r [ err e ↦ (err e, w') | ok bs ↦ (ok (h.batch ∷ bs), w') ])

  -- Phase 3, for one handle: the group and the model that the handle was bound to.
  unfoldable pub check_binding :
      ℤ → List String → t.Params → ValidatedBatchHandle → Result (Unit {0})
  check_binding group_size actual_members params h =
      if group_differs h.input_event.group_size group_size
      then err runtime_error
      else if not (is_nil h.input_event.group_members)
          && not (eq_texts h.input_event.group_members actual_members)
      then err runtime_error
      else if not (is_empty h.input_event.parent_policy_manifest)
          && not (t.policy_manifest params is h.input_event.parent_policy_manifest)
      then err runtime_error
      else ok tt

  unfoldable pub check_bindings :
      ℤ → List String → t.Params → List ValidatedBatchHandle → Result (Unit {0})
  check_bindings group_size members params [] = ok tt
  check_bindings group_size members params (h ∷ hs) =
      elim (check_binding group_size members params h) [
        | err e ↦ err e
        | ok _ ↦ check_bindings group_size members params hs
      ]

  unfoldable pub write_wal :
      WalStatus → String → Option PreparedFields → Action (World t) (Unit {0})
  write_wal st uid fields = modify (λ w. record w { wal = write st uid fields w.wal })

  -- `if failpoint == name: raise RuntimeError`
  abbrev pub fail_at : Option Failpoint → Failpoint → Action (World t) (Unit {0})
  fail_at none p = pure tt
  fail_at (some q) p = raise_when (at_failpoint q p) runtime_error

  abbrev pub loss_of : List MaterializedBatch → ℤ → Action (World t) t.Loss
  loss_of batches group_size w = (t.loss_from_batches w.params batches group_size, w)

  abbrev pub run_backward : t.Loss → Action (World t) (Unit {0})
  run_backward l w = let (r, g) = t.backward l w.grads in (r, record w { grads = g })

  abbrev pub run_step : Action (World t) (Unit {0})
  run_step w = let (r, p) = t.step w.grads w.params in (r, record w { params = p })

  -- ckpt = commit_fn(model) if commit_fn is not None else None
  abbrev pub run_commit : Action (World t) (Option t.Checkpoint)
  run_commit w = elim t.commit_fn [
    | none ↦ (ok none, w)
    | some f ↦ (
      elim (f w.params).0 [ err e ↦ err e | ok c ↦ ok (some c) ],
      record w { params = (f w.params).1 },
    )
  ]

  pub record GuardedStepResult : Type 0 where
    pub loss : t.Loss
    pub consumed_nonces : List String
    pub checkpoint : Option t.Checkpoint
    pub wal_status : WalStatus

  -- The `try` block, up to the optimizer's step and after it.
  unfoldable pub loss_and_step : StepConfig → List MaterializedBatch → Action (World t) t.Loss
  loss_and_step cfg batches = do
    fail_at cfg.failpoint after_prepared
    l ← loss_of batches cfg.group_size
    fail_at cfg.failpoint Failpoint.loss
    modify (λ w. record w { grads = t.zero_grad w.grads })
    fail_at cfg.failpoint backward
    run_backward l
    fail_at cfg.failpoint step
    run_step
    pure l

  unfoldable pub commit_phase : StepConfig → String → Action (World t) (Option t.Checkpoint)
  commit_phase cfg uid = do
    write_wal applied uid none
    fail_at cfg.failpoint Failpoint.checkpoint
    ckpt ← run_commit
    write_wal checkpointed uid none
    fail_at cfg.failpoint commit
    write_wal committed uid none
    pure ckpt

  -- `except Exception`: ABORTED, and the exception again.
  abbrev pub or_abort {ℓ} : {A : Type ℓ} → String → Action (World t) A → Action (World t) A
  or_abort uid m w =
      let (r, w') = m w in
      elim r [
        | ok a ↦ (ok a, w')
        | err e ↦ (err e, record w' { wal = write aborted uid none w'.wal })
      ]

  abbrev pub prepared_fields : StepConfig → List ValidatedBatchHandle → PreparedFields
  prepared_fields cfg hs = record {
    nonces = nonces_of hs;
    layouts = map (λ h. h.input_event.materialized_layout_sha256) hs;
    parent_policy_manifest = manifest_of hs;
    group_size = cfg.group_size;
  }

  -- Phases 2 and 3: what the step consumes, and what it then checks.
  unfoldable pub consume_phase :
      StepConfig → List ValidatedBatchHandle → Action (World t) (List MaterializedBatch)
  consume_phase cfg hs = do
    consume_nonces hs
    batches ← consume_handles hs
    (λ w. (check_bindings cfg.group_size (members_of hs) w.params hs, w))
    pure batches

  -- Phases 4 to 6.
  unfoldable pub update_phase :
      StepConfig
      → List ValidatedBatchHandle
      → List MaterializedBatch
      → Action (World t) GuardedStepResult
  update_phase cfg hs batches = do
    write_wal prepared (update_id_of hs) (some (prepared_fields cfg hs))
    or_abort (update_id_of hs) (do
      l ← loss_and_step cfg batches
      ckpt ← commit_phase cfg (update_id_of hs)
      pure (record {
        loss = l;
        consumed_nonces = nonces_of hs;
        checkpoint = ckpt;
        wal_status = committed;
      }))

  unfoldable pub guarded_optimizer_step :
      (Bytes → String) → StepConfig → Option (List Argument) → Action (World t) GuardedStepResult
  guarded_optimizer_step sha256 cfg args = do
    hs ← lift (accept args)
    raise_when (is_unknown cfg.failpoint) value_error
    (λ w. (check_handles sha256 cfg w.registry hs, w))
    batches ← consume_phase cfg hs
    update_phase cfg hs batches
