-- ===== src/Guarded/Step.antt =====
-- guarded_optimizer_step of guarded_update.py, phase by phase. `Trainer` holds what the step calls
-- and the repository does not define: torch's model and optimizer, and the caller's callbacks.
use grpo_guard.ArtifactStore.{ArtifactStore, verify}
use grpo_guard.Guarded.Batch.{MaterializedBatch, ValidatedBatchHandle}
use grpo_guard.Guarded.Nonce.{NonceRegistry, is_consumed}
use grpo_guard.Guarded.Wal.{Wal}
use grpo_guard.Prelude.{
  Bool, List, Option, String, [], all, false, is_empty, is_some, none, not, some, true, ℕ, ◌&&◌,
  ◌==◌, ◌is◌, ◌||◌, ◌∷◌,
}
use grpo_guard.Prelude.Int.{leb_ℤ, ℤ}
use grpo_guard.Prelude.Result.{
  Result, err, nonce_reuse_error, ok, raise_if, runtime_error, type_error, ◌>>◌,
}
use grpo_guard.Schema.Events.{UpdateInputEvent}
use grpo_guard.Schema.Refs.{ArtifactRef, EventRef}
use grpo_guard.Schema.Seal.{Bytes}

-- The loss is read off the parameters; `zero_grad` and `backward` write gradients only; `step` and
-- `commit_fn` write parameters, and may have written some of them when they raise.
pub record Trainer : Type 1 where
  pub Params : Type 0
  pub Grads : Type 0
  pub Loss : Type 0
  pub Checkpoint : Type 0
  pub loss_from_batches : Params → List MaterializedBatch → ℤ → Result Loss
  pub zero_grad : Grads → Grads
  pub backward : Loss → Grads → Result (Unit {0}) × Grads
  pub step : Grads → Params → Result (Unit {0}) × Params
  pub commit_fn : Option (Params → Result Checkpoint × Params)
  pub policy_manifest : Params → String

pub data Failpoint : Type 0 where
  after_prepared loss backward step checkpoint commit : Failpoint
  unknown : String → Failpoint

-- An entry of the `handles` argument: a handle, or anything else, such as raw text.
pub data Argument : Type 0 where
  handle : ValidatedBatchHandle → Argument
  other : String → Argument

abbrev pub at_failpoint : Failpoint → Failpoint → Bool
at_failpoint after_prepared after_prepared = true
at_failpoint loss loss = true
at_failpoint backward backward = true
at_failpoint step step = true
at_failpoint checkpoint checkpoint = true
at_failpoint commit commit = true
at_failpoint _ _ = false

-- The handles of the argument, if it is a non-empty list or tuple of handles; None stands for an
-- argument that is no list or tuple.
unfoldable pub all_handles : List Argument → Result (List ValidatedBatchHandle)
all_handles [] = ok []
all_handles (other text ∷ args) = err type_error
all_handles (handle h ∷ args) = elim (all_handles args) [ err e ↦ err e | ok hs ↦ ok (h ∷ hs) ]

unfoldable pub accept : Option (List Argument) → Result (List ValidatedBatchHandle)
unfolding all_handles
accept none = err type_error
accept (some []) = err type_error
accept (some (a ∷ args)) = all_handles (a ∷ args)

abbrev pub is_unknown : Option Failpoint → Bool
is_unknown (some (unknown name)) = true
is_unknown _ = false

-- The configuration of one call.
pub record StepConfig : Type 0 where
  pub store : ArtifactStore
  pub decision_verifier : Option (EventRef → Result Bool)
  pub group_size : ℤ
  pub failpoint : Option Failpoint

abbrev pub event_refs : UpdateInputEvent → List ArtifactRef
event_refs ev = ev.sequence_token_ids ∷ ev.loss_mask ∷ ev.authoritative_behavior_logprobs ∷ []

unfoldable pub eq_shape : List ℕ → List ℕ → Bool
eq_shape [] [] = true
eq_shape [] (y ∷ ys) = false
eq_shape (x ∷ xs) [] = false
eq_shape (x ∷ xs) (y ∷ ys) = x == y && eq_shape xs ys

unfoldable pub eq_texts : List String → List String → Bool
eq_texts [] [] = true
eq_texts [] (y ∷ ys) = false
eq_texts (x ∷ xs) [] = false
eq_texts (x ∷ xs) (y ∷ ys) = (x is y) && eq_texts xs ys

abbrev pub eq_ℤ : ℤ → ℤ → Bool
eq_ℤ a b = leb_ℤ a b && leb_ℤ b a

-- What the verifier says of a decision; it may raise.
abbrev pub verified_by : Option (EventRef → Result Bool) → EventRef → Result Bool
verified_by none r = ok false
verified_by (some verifier) r = verifier r

-- `if not decision_verifier(…): raise RuntimeError`
abbrev pub require_allowed : Result Bool → Result (Unit {0})
require_allowed (ok allowed) = raise_if (not allowed) runtime_error
require_allowed (err e) = err e

module _ (sha256 : Bytes → String) where
  -- The bound reward hash, shape or dtype differs from the batch's tensor.
  unfoldable pub reward_mismatch : UpdateInputEvent → MaterializedBatch → Bool
  reward_mismatch ev batch =
      not (is_empty ev.reward_value_sha256)
      && (not (sha256 batch.rewards.float32_bytes is ev.reward_value_sha256)
          || (not (eq_shape batch.rewards.shape ev.reward_shape)
              || not ("float32" is ev.reward_dtype)))

  -- Phase 1, for one handle.
  unfoldable pub check_handle :
      StepConfig → NonceRegistry → ValidatedBatchHandle → Result (Unit {0})
  check_handle cfg reg h =
      raise_if (is_empty h.input_event.event_sha256) runtime_error
      >> (raise_if (not (is_some cfg.decision_verifier)) runtime_error
          >> (require_allowed
                (verified_by cfg.decision_verifier h.input_event.preupdate_validation_decision)
              >> (raise_if h.input_event.tokenizer_called runtime_error
                  >> (raise_if (not (all (verify sha256 cfg.store) (event_refs h.input_event)))
                        runtime_error
                      >> (raise_if (reward_mismatch h.input_event h.batch) runtime_error
                          >> raise_if (is_consumed reg h.input_event.single_use_nonce_sha256)
                              nonce_reuse_error)))))

  unfoldable pub check_handles :
      StepConfig → NonceRegistry → List ValidatedBatchHandle → Result (Unit {0})
  check_handles cfg reg [] = ok tt
  check_handles cfg reg (h ∷ hs) = check_handle cfg reg h >> check_handles cfg reg hs

-- The world that a step changes.
pub record World (t : Trainer) : Type 0 where
  pub registry : NonceRegistry
  pub used : List ℕ
  pub wal : Wal
  pub params : t.Params
  pub grads : t.Grads

unfoldable pub mem_id : ℕ → List ℕ → Bool
mem_id i [] = false
mem_id i (j ∷ js) = i == j || mem_id i js
