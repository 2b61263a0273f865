-- ===== src/Guarded/Burned.antt =====
-- The group and the model are compared in phase 3, after phase 2 has consumed the nonces.
use grpo_guard.Guarded.Batch.{ValidatedBatchHandle}
use grpo_guard.Guarded.Claims.{check_handle-Verified}
use grpo_guard.Guarded.Consume.{Kept}
use grpo_guard.Guarded.Nonce.{consume, consume_once, consumed-consume, is_consumed}
use grpo_guard.Guarded.Run.{
  check_binding, check_bindings, consume_handles, consume_nonces, consume_phase, group_differs,
  guarded_optimizer_step,
}
use grpo_guard.Guarded.Step.{
  StepConfig, Trainer, World, accept, all_handles, check_handle, check_handles, handle, is_unknown,
  mem_id,
}
use grpo_guard.Prelude.{String, [], arith, eq_refl, false, inl, inr, refl, some, true, ◌∷◌, ◌≡◌}
use grpo_guard.Prelude.Result.{err, ok, runtime_error}
use grpo_guard.Schema.Seal.{Bytes}

module _ (sha256 : Bytes → String) (t : Trainer) (cfg : StepConfig) where
  -- A handle that passes phase 1 and is bound to another group size than the call's makes the call
  -- raise with the model and the log as they were, and its nonce consumed.
  pub wrong_group_burns_nonce :
      (h : ValidatedBatchHandle) (w : World t)
      → check_handle sha256 cfg w.registry h ≡ ok tt
      → is_unknown cfg.failpoint ≡ false
      → group_differs h.input_event.group_size cfg.group_size ≡ true
      → mem_id h.handle_id w.used ≡ false
      → let (r, w') = guarded_optimizer_step t sha256 cfg (some (handle h ∷ [])) w in
        (r ≡ err runtime_error)
        × Kept t w w'
        × (is_consumed w'.registry h.input_event.single_use_nonce_sha256 ≡ true)
  unfolding guarded_optimizer_step accept all_handles check_handles consume_phase consume_nonces
      consume_handles check_bindings check_binding
  wrong_group_burns_nonce h w checked fp differs unused =
      let n = h.input_event.single_use_nonce_sha256 in
      let c = consume w.registry n h.input_event.update_id in
      let w' : World t = record w { registry = c.1; used = h.handle_id ∷ w.used } in
      let once : c.0 ≡ ok tt = elim (consume_once w.registry n h.input_event.update_id) [
        | inl (held, q) ↦
            ground
              (arith, held, (check_handle-Verified sha256 cfg w.registry h checked).verified_fresh)
        | inr (free, q) ↦ q
      ] in
      let end : guarded_optimizer_step t sha256 cfg (some (handle h ∷ [])) w
          ≡ (err runtime_error, w') =
        ground (arith, checked, fp, differs, unused, once) in
      rw end (
        refl,
        record {
          kept_params = refl;
          kept_grads = refl;
          kept_wal = refl;
          kept_nonces =
              λ m old. ground (arith, consumed-consume w.registry n m h.input_event.update_id, old);
        },
        ground (arith, consumed-consume w.registry n n h.input_event.update_id, eq_refl n),
      )
