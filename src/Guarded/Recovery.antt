-- ===== src/Guarded/Recovery.antt =====
-- The update log after a call of guarded_optimizer_step: what recovery finds in it.
use grpo_guard.Guarded.Batch.{ValidatedBatchHandle}
use grpo_guard.Guarded.Consume.{Kept, Kept-refl}
use grpo_guard.Guarded.Outcome.{guarded_optimizer_step-Outcome}
use grpo_guard.Guarded.Run.{guarded_optimizer_step, update_id_of}
use grpo_guard.Guarded.Step.{Argument, StepConfig, Trainer, World, accept}
use grpo_guard.Guarded.Update.{Logged, ending}
use grpo_guard.Guarded.Wal.{dangling, is_committed, status}
use grpo_guard.Guarded.Wal.Laws.{dangling_iff}
use grpo_guard.Prelude.{
  List, Option, String, arith, contains, eq_refl, false, inl, inr, is_empty, is_some, not, some,
  subst, sym, true, ◌≡◌, ◌⊎◌,
}
use grpo_guard.Prelude.Result.{ok}
use grpo_guard.Schema.Seal.{Bytes}

module _ (sha256 : Bytes → String) (t : Trainer) (cfg : StepConfig) where
  -- Where there is a log and the first handle has an update id: unless the call left the model, the
  -- gradients and the log alone, the log's status of the update is COMMITTED if the call returned
  -- and ABORTED if it raised, and the update is dangling exactly if the call raised.
  pub step_log :
      (args : Option (List Argument)) (hs : List ValidatedBatchHandle) (w : World t)
      → accept args ≡ ok hs
      → is_empty (update_id_of hs) ≡ false
      → is_some w.wal ≡ true
      → let (r, w') = guarded_optimizer_step t sha256 cfg args w in
        Kept t w w'
        ⊎ ((status w'.wal (update_id_of hs) ≡ some (ending r))
            × (contains (update_id_of hs) (dangling w'.wal) ≡ not (is_committed (ending r))))
  step_log args hs w acc named log = elim (guarded_optimizer_step-Outcome sha256 t cfg args w) [
    | inl (e, p, same) ↦ inl (subst (λ v. Kept t w v) (sym same) (Kept-refl t w))
    | inr (inl (e, p, kept)) ↦ inl kept
    | inr (inr a) ↦
        let w' = (guarded_optimizer_step t sha256 cfg args w).1 in
        let same : a.handles ≡ hs = ground (arith, a.accepted, acc) in
        let logged = subst (λ x. Logged (update_id_of x) _ w.wal w'.wal) same a.logged in
        let st = logged (update_id_of hs) in
        inr (
          ground (arith, st, log, eq_refl (update_id_of hs)),
          ground (
            arith,
            st,
            log,
            eq_refl (update_id_of hs),
            dangling_iff (update_id_of hs) w'.wal named,
          ),
        )
  ]
