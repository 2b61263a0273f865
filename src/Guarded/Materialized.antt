-- ===== src/Guarded/Materialized.antt =====
-- `materialize`: what a handle that it returns is bound to, and that the step accepts the handle.
use grpo_guard.ArtifactStore.{ArtifactStore, get, verify}
use grpo_guard.Guarded.Batch.{Layout, Request, ValidatedBatchHandle, frombuffer, materialize}
use grpo_guard.Guarded.Nonce.{NonceRegistry, is_consumed}
use grpo_guard.Guarded.Step.{
  StepConfig, check_handle, eq_shape, event_refs, reward_mismatch, verified_by,
}
use grpo_guard.Prelude.{
  Bool, List, String, [], all, arith, eq_refl, false, is_empty, is_some, refl, some, true, ℕ, ◌is◌,
  ◌∷◌, ◌≡◌,
}
use grpo_guard.Prelude.Result.{Result, ok}
use grpo_guard.Schema.Events.{Event}
use grpo_guard.Schema.Refs.{EventRef}
use grpo_guard.Schema.Seal.{Bytes}

eq_shape_refl : (xs : List ℕ) → eq_shape xs xs ≡ true
unfolding eq_shape
eq_shape_refl [] = refl
eq_shape_refl (x ∷ xs) = ground (arith, eq_shape_refl xs)

module _ (sha256 : Bytes → String) (encode : String → Bytes) (dumps_layout : Layout → Bytes)
    (dumps : Event → Bytes) (now : String) (store : ArtifactStore) (fresh : ℕ) (q : Request) where
  -- What the handle holds is what the store holds under the references that its event names.
  pub record IsBound (h : ValidatedBatchHandle) : Type 0 where
    pub bound_tokens :
        get sha256 store h.input_event.sequence_token_ids ≡ ok h.batch.sequence_token_ids.bytes
    pub bound_mask : get sha256 store h.input_event.loss_mask ≡ ok h.batch.loss_mask.bytes
    pub bound_logprobs :
        get sha256 store h.input_event.authoritative_behavior_logprobs
        ≡ ok h.batch.behavior_logprobs.bytes
    pub bound_rewards : q.rewards ≡ some h.batch.rewards
    pub bound_reward_hash : h.input_event.reward_value_sha256 ≡ sha256 h.batch.rewards.float32_bytes
    pub bound_shape : h.input_event.reward_shape ≡ h.batch.rewards.shape
    pub bound_dtype : h.input_event.reward_dtype ≡ "float32"
    pub bound_layout : h.input_event.materialized_layout_sha256 ≡ h.batch.layout_sha256
    pub bound_nonce : h.input_event.single_use_nonce_sha256 ≡ sha256 (encode q.nonce)
    pub bound_decision : h.input_event.preupdate_validation_decision ≡ q.validation_decision
    pub bound_sealed : is_empty h.input_event.event_sha256 ≡ false
    pub bound_no_tokenizer : h.input_event.tokenizer_called ≡ false

  -- The handle that `materialize` returns is bound to the store and to the request.
  pub materialize-IsBound :
      (h : ValidatedBatchHandle)
      → materialize sha256 encode dumps_layout dumps now store fresh q ≡ ok h
      → IsBound h
  unfolding materialize frombuffer
  materialize-IsBound h e = record {
    bound_tokens = ground (arith, e);
    bound_mask = ground (arith, e);
    bound_logprobs = ground (arith, e);
    bound_rewards = ground (arith, e);
    bound_reward_hash = ground (arith, e);
    bound_shape = ground (arith, e);
    bound_dtype = ground (arith, e);
    bound_layout = ground (arith, e);
    bound_nonce = ground (arith, e);
    bound_decision = ground (arith, e);
    bound_sealed = ground (arith, e);
    bound_no_tokenizer = ground (arith, e);
  }

  IsBound-rewards :
      (h : ValidatedBatchHandle) → IsBound h → reward_mismatch sha256 h.input_event h.batch ≡ false
  unfolding reward_mismatch
  IsBound-rewards h b =
      let shape : eq_shape h.batch.rewards.shape h.input_event.reward_shape ≡ true =
        rw b.bound_shape (eq_shape_refl h.batch.rewards.shape) in
      let digest : (sha256 h.batch.rewards.float32_bytes is h.input_event.reward_value_sha256)
          ≡ true =
        rw b.bound_reward_hash (eq_refl (sha256 h.batch.rewards.float32_bytes)) in
      let dtype : ("float32" is h.input_event.reward_dtype) ≡ true = rw b.bound_dtype refl in
      ground (arith, shape, digest, dtype)

  -- A handle that `materialize` returned passes phase 1 of the step on the same store, if the
  -- verifier allows its decision and its nonce is not consumed.
  pub materialize-check_handle :
      (h : ValidatedBatchHandle) (cfg : StepConfig) (verifier : EventRef → Result Bool)
      (reg : NonceRegistry)
      → materialize sha256 encode dumps_layout dumps now store fresh q ≡ ok h
      → cfg.store ≡ store
      → cfg.decision_verifier ≡ some verifier
      → verifier q.validation_decision ≡ ok true
      → is_consumed reg (sha256 (encode q.nonce)) ≡ false
      → check_handle sha256 cfg reg h ≡ ok tt
  unfolding check_handle verify reward_mismatch
  materialize-check_handle h cfg verifier reg e same v allowed unused =
      let b = materialize-IsBound h e in
      let intact : all (verify sha256 cfg.store) (event_refs h.input_event) ≡ true =
        ground (arith, b.bound_tokens, b.bound_mask, b.bound_logprobs, same) in
      let matched = IsBound-rewards h b in
      let allows : verified_by cfg.decision_verifier h.input_event.preupdate_validation_decision
          ≡ ok true =
        ground (arith, v, allowed, b.bound_decision) in
      let free : is_consumed reg h.input_event.single_use_nonce_sha256 ≡ false =
        ground (arith, unused, b.bound_nonce) in
      let verifies : is_some cfg.decision_verifier ≡ true = ground (arith, v) in
      rw (b.bound_sealed, verifies, allows, b.bound_no_tokenizer, intact, matched, free) refl
