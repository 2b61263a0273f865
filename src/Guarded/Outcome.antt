-- ===== src/Guarded/Outcome.antt =====
-- guarded_optimizer_step as a whole: what a call did, by where it stopped.
use grpo_guard.Guarded.Batch.{ValidatedBatchHandle}
use grpo_guard.Guarded.Claims.{Claims, Verified, check_handles-Verified}
use grpo_guard.Guarded.Consume.{Kept, consume_phase-Claims, consume_phase-Kept}
use grpo_guard.Guarded.Run.{
  check_bindings, consume_phase, guarded_optimizer_step, members_of, nonces_of, update_id_of,
  update_phase,
}
use grpo_guard.Guarded.Step.{
  Argument, StepConfig, Trainer, World, accept, check_handles, is_unknown,
}
use grpo_guard.Guarded.Update.{Logged, ending, update_phase-Logged, update_phase-registry}
use grpo_guard.Guarded.Wal.{WalStatus}
use grpo_guard.Prelude.{
  All, Bool-cases, List, Option, String, arith, false, inl, inr, refl, subst, ◌≡◌, ◌⊎◌,
}
use grpo_guard.Prelude.Result.{Error, Result-cases, err, ok, value_error}
use grpo_guard.Schema.Seal.{Bytes}

module _ (sha256 : Bytes → String) (t : Trainer) (cfg : StepConfig) where
  -- Every condition under which the model may be trained on the handles, and what the call leaves.
  pub record Authorised (args : Option (List Argument)) (w w' : World t) (st : WalStatus)
      : Type 0 where
    pub handles : List ValidatedBatchHandle
    pub accepted : accept args ≡ ok handles
    pub verified : All (Verified sha256 cfg w.registry) handles
    pub claimed : Claims w.registry (nonces_of handles) w'.registry
    pub bound : check_bindings t cfg.group_size (members_of handles) w.params handles ≡ ok tt
    pub logged : Logged (update_id_of handles) st w.wal w'.wal

  step_from :
      (args : Option (List Argument)) (hs : List ValidatedBatchHandle) (w : World t)
      → accept args ≡ ok hs
      → is_unknown cfg.failpoint ≡ false
      → check_handles sha256 cfg w.registry hs ≡ ok tt
      → let (r, w') = guarded_optimizer_step t sha256 cfg args w in
        ((e : Error) × (r ≡ err e) × Kept t w w') ⊎ Authorised args w w' (ending r)
  unfolding guarded_optimizer_step
  step_from args hs w acc fp checked =
      let c = consume_phase t cfg hs w in
      elim (Result-cases c.0) [
        | inr (e, f) ↦
            let end : guarded_optimizer_step t sha256 cfg args w ≡ (err e, c.1) =
              ground (arith, acc, fp, checked, f) in
            rw end (inl (e, refl, consume_phase-Kept t cfg hs w))
        | inl (batches, o) ↦
            let u = update_phase t cfg hs batches c.1 in
            let end : guarded_optimizer_step t sha256 cfg args w ≡ u =
              ground (arith, acc, fp, checked, o) in
            let k = consume_phase-Kept t cfg hs w in
            let (claims, binds) = consume_phase-Claims t cfg hs w batches o in
            rw end (
              inr (record {
                handles = hs;
                accepted = acc;
                verified = check_handles-Verified sha256 cfg w.registry hs checked;
                claimed = rw (update_phase-registry t cfg hs batches c.1) claims;
                bound = binds;
                logged =
                    subst (λ x. Logged (update_id_of hs) (ending u.0) x u.1.wal) k.kept_wal
                      (update_phase-Logged t cfg hs batches c.1);
              }))
      ]

  -- A call either raises before it reads a precondition as met, and leaves the world as it was; or
  -- raises while it consumes, and leaves the model and the log; or it was authorised.
  pub guarded_optimizer_step-Outcome :
      (args : Option (List Argument)) (w : World t)
      → let (r, w') = guarded_optimizer_step t sha256 cfg args w in
        ((e : Error) × (r ≡ err e) × (w' ≡ w))
        ⊎ (((e : Error) × (r ≡ err e) × Kept t w w') ⊎ Authorised args w w' (ending r))
  unfolding guarded_optimizer_step
  guarded_optimizer_step-Outcome args w = elim (Result-cases (accept args)) [
    | inr (e, f) ↦ inl (e, ground (arith, f), ground (arith, f))
    | inl (hs, o) ↦ elim (Bool-cases (is_unknown cfg.failpoint)) [
      | inl bad ↦ inl (value_error, ground (arith, o, bad), ground (arith, o, bad))
      | inr fp ↦ elim (Result-cases (check_handles sha256 cfg w.registry hs)) [
        | inr (e, f) ↦ inl (e, ground (arith, o, fp, f), ground (arith, o, fp, f))
        | inl (u, c) ↦ inr (step_from args hs w o fp c)
      ]
    ]
  ]

  -- If some handle of the call does not meet the preconditions, the call raises and the registry,
  -- the used handles, the log, the model and the gradients are all as they were.
  pub fails_closed :
      (args : Option (List Argument)) (hs : List ValidatedBatchHandle) (w : World t)
      → accept args ≡ ok hs
      → ¬ All (Verified sha256 cfg w.registry) hs
      → (e : Error) × (guarded_optimizer_step t sha256 cfg args w ≡ (err e, w))
  unfolding guarded_optimizer_step
  fails_closed args hs w acc bad = elim (Bool-cases (is_unknown cfg.failpoint)) [
    | inl unknown_name ↦ (value_error, ground (arith, acc, unknown_name))
    | inr fp ↦ elim (Result-cases (check_handles sha256 cfg w.registry hs)) [
      | inr (e, f) ↦ (e, ground (arith, acc, fp, f))
      | inl (u, c) ↦ absurd (bad (check_handles-Verified sha256 cfg w.registry hs c))
    ]
  ]
