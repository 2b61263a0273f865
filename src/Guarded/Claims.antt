-- ===== src/Guarded/Claims.antt =====
-- What phases 1 to 3 of guarded_optimizer_step establish, said without the code's order of tests.
use grpo_guard.Align.Canonical.{before}
use grpo_guard.ArtifactStore.{verify}
use grpo_guard.Guarded.Batch.{MaterializedBatch, ValidatedBatchHandle}
use grpo_guard.Guarded.Nonce.{NonceRegistry, is_consumed}
use grpo_guard.Guarded.Step.{
  StepConfig, check_handle, check_handles, eq_shape, event_refs, reward_mismatch, verified_by,
}
use grpo_guard.Prelude.{
  All, Bool-cases, List, String, [], arith, contains, eq_iff, false, inl, inr, is_empty, refl, true,
  ℕ, ◌||◌, ◌∷◌, ◌≡◌, ◌⊎◌,
}
use grpo_guard.Prelude.Dict.{Distinct}
use grpo_guard.Prelude.Result.{Result-cases, ok}
use grpo_guard.Schema.Events.{UpdateInputEvent}
use grpo_guard.Schema.Seal.{Bytes}

-- The registry `after` is `before` with the nonces, none of which `before` held.
pub record Claims (before : NonceRegistry) (ns : List String) (after : NonceRegistry) : Type 0 where
  pub fresh : All (λ n. is_consumed before n ≡ false) ns
  pub distinct : Distinct ns
  pub held : (m : String) → is_consumed after m ≡ (is_consumed before m || contains m ns)

abbrev pub Grows : NonceRegistry → NonceRegistry → Type 0
Grows before after = (m : String) → is_consumed before m ≡ true → is_consumed after m ≡ true

pub Claims-Grows :
    (before after : NonceRegistry) (ns : List String) → Claims before ns after → Grows before after
Claims-Grows before after ns c m old = ground (arith, c.held m, old)

-- The rewards of the batch are the ones that the event binds.
pub record RewardsMatch (sha256 : Bytes → String) (ev : UpdateInputEvent)
    (batch : MaterializedBatch) : Type 0 where
  pub match_digest : ev.reward_value_sha256 ≡ sha256 batch.rewards.float32_bytes
  pub match_shape : ev.reward_shape ≡ batch.rewards.shape
  pub match_dtype : ev.reward_dtype ≡ "float32"

eq_shape_lem : (xs ys : List ℕ) → eq_shape xs ys ≡ true → ys ≡ xs
unfolding eq_shape
eq_shape_lem [] [] e = refl
eq_shape_lem [] (y ∷ ys) e = ground (arith, e)
eq_shape_lem (x ∷ xs) [] e = ground (arith, e)
eq_shape_lem (x ∷ xs) (y ∷ ys) e = ground (arith, e, eq_shape_lem xs ys)

reward_mismatch-Match :
    (sha256 : Bytes → String) (ev : UpdateInputEvent) (batch : MaterializedBatch)
    → reward_mismatch sha256 ev batch ≡ false
    → (ev.reward_value_sha256 ≡ "") ⊎ RewardsMatch sha256 ev batch
unfolding reward_mismatch
reward_mismatch-Match sha256 ev batch e = elim (Bool-cases (is_empty ev.reward_value_sha256)) [
  | inl none_bound ↦ inl (ground (arith, none_bound, eq_iff ev.reward_value_sha256 ""))
  | inr bound ↦ inr (record {
    match_digest =
        ground
          (arith, e, bound, eq_iff (sha256 batch.rewards.float32_bytes) ev.reward_value_sha256);
    match_shape = eq_shape_lem batch.rewards.shape ev.reward_shape (ground (arith, e, bound));
    match_dtype = ground (arith, e, bound, eq_iff "float32" ev.reward_dtype);
  })
]

-- What the verifier, the store and the registry said of one handle.
pub record Verified (sha256 : Bytes → String) (cfg : StepConfig) (reg : NonceRegistry)
    (h : ValidatedBatchHandle) : Type 0 where
  pub verified_sealed : is_empty h.input_event.event_sha256 ≡ false
  pub verified_allowed :
      verified_by cfg.decision_verifier h.input_event.preupdate_validation_decision ≡ ok true
  pub verified_no_tokenizer : h.input_event.tokenizer_called ≡ false
  pub verified_artifacts : All (λ r. verify sha256 cfg.store r ≡ true) (event_refs h.input_event)
  pub verified_rewards :
      (h.input_event.reward_value_sha256 ≡ "") ⊎ RewardsMatch sha256 h.input_event h.batch
  pub verified_fresh : is_consumed reg h.input_event.single_use_nonce_sha256 ≡ false

module _ (sha256 : Bytes → String) (cfg : StepConfig) (reg : NonceRegistry) where
  pub check_handle-Verified :
      (h : ValidatedBatchHandle) → check_handle sha256 cfg reg h ≡ ok tt → Verified sha256 cfg reg h
  unfolding check_handle
  check_handle-Verified h e = record {
    verified_sealed = ground (arith, e);
    verified_allowed = ground (
      arith,
      e,
      Result-cases (verified_by cfg.decision_verifier h.input_event.preupdate_validation_decision),
    );
    verified_no_tokenizer = ground (arith, e);
    verified_artifacts = (ground (arith, e), (ground (arith, e), (ground (arith, e), tt)));
    verified_rewards = reward_mismatch-Match sha256 h.input_event h.batch (ground (arith, e));
    verified_fresh = ground (arith, e);
  }

  pub check_handles-Verified :
      (hs : List ValidatedBatchHandle)
      → check_handles sha256 cfg reg hs ≡ ok tt
      → All (Verified sha256 cfg reg) hs
  unfolding check_handles
  check_handles-Verified [] e = tt
  check_handles-Verified (h ∷ hs) e = elim (Result-cases (check_handle sha256 cfg reg h)) [
    | inl (u, o) ↦ (check_handle-Verified h o, check_handles-Verified hs (ground (arith, e, o)))
    | inr (x, f) ↦ ground (arith, e, f)
  ]
