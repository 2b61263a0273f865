-- ===== src/Guarded/Adapter.antt =====
-- GuardedUpdateAdapter of guarded_update.py: its set of nonces is its own, and lives in memory.
use grpo_guard.Prelude.Action.{Action, lift, modify, raise_when, ◌>>=◌, ◌>>◌}
use grpo_guard.ArtifactStore.{ArtifactStore, verify}
use grpo_guard.Guarded.Batch.{MaterializedBatch, ValidatedBatchHandle}
use grpo_guard.Guarded.Step.{
  Argument, event_refs, handle, mem_id, other, require_allowed, reward_mismatch, verified_by,
}
use grpo_guard.Prelude.{
  arith, subst, sym, Bool-cases, eq_refl, inl, inr, Bool, List, Option, String, all, contains,
  false, if◌then◌else◌, is_some, not, true, ℕ, ◌∷◌, ◌≡◌,
}
use grpo_guard.Prelude.Result.{
  Result-cases, Error, Result, err, handle_consumed_error, nonce_reuse_error, ok, raise_if,
  runtime_error, type_error,
}
use grpo_guard.Schema.Events.{UpdateInputEvent}
use grpo_guard.Schema.Refs.{EventRef}
use grpo_guard.Schema.Seal.{Bytes}

pub record AdapterState : Type 0 where
  pub consumed_nonces : List String
  pub used_handles : List ℕ

module _ (sha256 : Bytes → String) (store : ArtifactStore)
    (verifier : Option (EventRef → Result Bool)) where
  -- _verify_artifacts
  unfoldable pub verify_artifacts : UpdateInputEvent → MaterializedBatch → Result (Unit {0})
  verify_artifacts ev batch =
      if not (all (verify sha256 store) (event_refs ev))
      then err runtime_error
      else if reward_mismatch sha256 ev batch
      then err runtime_error
      else ok tt

  -- handle.consume()
  abbrev pub consume_handle : ValidatedBatchHandle → Action AdapterState MaterializedBatch
  consume_handle h s =
      if mem_id h.handle_id s.used_handles
      then (err handle_consumed_error, s)
      else (ok h.batch, record s { used_handles = h.handle_id ∷ s.used_handles })

  abbrev pub update_handle : ValidatedBatchHandle → Action AdapterState (Unit {0})
  update_handle h = do
    raise_when (not (is_some verifier)) runtime_error
    lift (require_allowed (verified_by verifier h.input_event.preupdate_validation_decision))
    (λ s. (
      raise_if (contains h.input_event.single_use_nonce_sha256 s.consumed_nonces) nonce_reuse_error,
      s,
    ))
    raise_when h.input_event.tokenizer_called runtime_error
    modify (λ s. record s {
      consumed_nonces = h.input_event.single_use_nonce_sha256 ∷ s.consumed_nonces;
    })
    batch ← consume_handle h
    lift (verify_artifacts h.input_event batch)

  unfoldable pub update : Argument → Action AdapterState (Unit {0})
  update (other text) s = (err type_error, s)
  update (handle h) s = update_handle h s

  -- An update that returned had an allowed decision, no tokenizer call, intact artifacts, the bound
  -- rewards, and a nonce and a handle that were unused and are used afterwards.
  pub update_returns :
      (h : ValidatedBatchHandle) (s : AdapterState)
      → (update (handle h) s).0 ≡ ok tt
      → let n = h.input_event.single_use_nonce_sha256 in
        let s' = (update (handle h) s).1 in
        (verified_by verifier h.input_event.preupdate_validation_decision ≡ ok true)
        × ((h.input_event.tokenizer_called ≡ false)
            × (verify_artifacts h.input_event h.batch ≡ ok tt))
        × ((contains n s.consumed_nonces ≡ false) × (contains n s'.consumed_nonces ≡ true))
        × ((mem_id h.handle_id s.used_handles ≡ false)
            × (mem_id h.handle_id s'.used_handles ≡ true))
  unfolding update mem_id
  update_returns h s e = (
    ground (arith, e),
    (ground (arith, e), ground (arith, e)),
    (ground (arith, e), ground (arith, e, eq_refl h.input_event.single_use_nonce_sha256)),
    (ground (arith, e), ground (arith, e)),
  )

  -- An update under a nonce that the adapter holds raises, and changes nothing.
  update_held :
      (g : ValidatedBatchHandle) (s : AdapterState)
      → contains g.input_event.single_use_nonce_sha256 s.consumed_nonces ≡ true
      → (e : Error) × (update (handle g) s ≡ (err e, s))
  unfolding update
  update_held g s held = elim (Bool-cases (is_some verifier)) [
    | inr unset ↦ (runtime_error, ground (arith, unset))
    | inl set ↦
        elim (Result-cases (verified_by verifier g.input_event.preupdate_validation_decision)) [
          | inr (e, raised) ↦ (e, ground (arith, set, raised))
          | inl (true, allowed) ↦ (nonce_reuse_error, ground (arith, set, allowed, held))
          | inl (false, refused) ↦ (runtime_error, ground (arith, set, refused))
        ]
  ]

  -- After an update that returned, every update under the same nonce, of whatever handle, raises and
  -- changes nothing.
  pub update_twice :
      (h g : ValidatedBatchHandle) (s : AdapterState)
      → (update (handle h) s).0 ≡ ok tt
      → g.input_event.single_use_nonce_sha256 ≡ h.input_event.single_use_nonce_sha256
      → let s' = (update (handle h) s).1 in (e : Error) × (update (handle g) s' ≡ (err e, s'))
  update_twice h g s returned same = update_held g (update (handle h) s).1 (
      subst (λ n. contains n (update (handle h) s).1.consumed_nonces ≡ true) (sym same)
        ((update_returns h s returned).2.1))
