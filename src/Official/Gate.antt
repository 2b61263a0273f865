-- ===== src/Official/Gate.antt =====
-- The capability that `_prepare_inputs` hands to the optimizer.
use grpo_guard.Official.Checked.{
  _guard_pre_update-Outcome, refused as batch_refused, unchecked, verified,
}
use grpo_guard.Official.Match.{StepInputs, column_dict, columns_of, sample_dicts, verify_columns}
use grpo_guard.Official.Rollout.{Guard}
use grpo_guard.Official.Step.{
  _guard_pre_update, _prepare_inputs, hooked, optimizer_step, verify_batch, verify_enabled,
}
use grpo_guard.Prelude.{
  Bool, Bool-cases, Option, String, [], ap, arith, false, inl, inr, is_nil, refl, true, ◌∙◌, ◌∷◌,
  ◌≡◌,
}
use grpo_guard.Prelude.Result.{Error, Result, Result-cases, err, guard_violation, ok}
use grpo_guard.Schema.Seal.{Bytes}
use grpo_guard.Prelude.Action.{Action}

module _ (sha256 : Bytes → String) where
  -- A batch was given the capability, or it was refused and took it away, or the hook raised.
  pub data Gated {ℓ} {M : Type ℓ} (inputs : StepInputs) (hook_result : Result StepInputs)
      (prior : Guard) (r : Result StepInputs × Guard) (opt_step : M → M) (m : M) : Type ℓ where
    granted :
        (to_verify : StepInputs)
        → hook_result ≡ ok to_verify
        → prior.enabled ≡ true
        → (_guard_pre_update sha256 to_verify prior).0 ≡ ok tt
        → r.0 ≡ ok inputs
        → optimizer_step r.1 opt_step m ≡ (ok tt, opt_step m)
        → Gated inputs hook_result prior r opt_step m
    bypassed :
        (to_verify : StepInputs)
        → hook_result ≡ ok to_verify
        → prior.enabled ≡ false
        → r.0 ≡ ok to_verify
        → optimizer_step r.1 opt_step m ≡ (ok tt, opt_step m)
        → Gated inputs hook_result prior r opt_step m
    refused :
        (to_verify : StepInputs) (why : Error)
        → hook_result ≡ ok to_verify
        → prior.enabled ≡ true
        → (_guard_pre_update sha256 to_verify prior).0 ≡ err why
        → r.0 ≡ err why
        → r.1.rollouts ≡ prior.rollouts
        → optimizer_step r.1 opt_step m ≡ (err guard_violation, m)
        → Gated inputs hook_result prior r opt_step m
    hook_raised :
        (why : Error)
        → hook_result ≡ err why
        → r ≡ (err why, prior)
        → Gated inputs hook_result prior r opt_step m

  -- The verification reads the guard's records only.
  _guard_pre_update-capability :
      (g : Guard) (x : StepInputs) (b : Bool)
      → ((_guard_pre_update sha256 x (record g { step_capability = b })).0
          ≡ (_guard_pre_update sha256 x g).0)
        × ((_guard_pre_update sha256 x (record g { step_capability = b })).1.step_capability ≡ b)
  unfolding _guard_pre_update verify_batch
  _guard_pre_update-capability g (column_dict c) b = elim (Bool-cases (is_nil g.rollouts)) [
    | inl e ↦ (ground (arith, e), ground (arith, e))
    | inr e ↦ elim (Result-cases (verify_columns sha256 g.rollouts c)) [
      | inl (r, v) ↦ (ground (arith, e, v), ground (arith, e, v))
      | inr (w, v) ↦ (ground (arith, e, v), ground (arith, e, v))
    ]
  ]
  _guard_pre_update-capability g (sample_dicts []) b = (refl, refl)
  _guard_pre_update-capability g (sample_dicts (s ∷ ss)) b = elim (Bool-cases (is_nil g.rollouts)) [
    | inl e ↦ (ground (arith, e), ground (arith, e))
    | inr e ↦ elim (Result-cases (verify_columns sha256 g.rollouts (columns_of s (s ∷ ss)))) [
      | inl (r, v) ↦ (ground (arith, e, v), ground (arith, e, v))
      | inr (w, v) ↦ (ground (arith, e, v), ground (arith, e, v))
    ]
  ]

  -- A verification that raises changes nothing.
  pub refused_unchanged :
      (g : Guard) (x : StepInputs) (e : Error)
      → (_guard_pre_update sha256 x g).0 ≡ err e
      → (_guard_pre_update sha256 x g).1 ≡ g
  refused_unchanged g x e h = elim (_guard_pre_update-Outcome sha256 g x) [
    | unchecked why same ↦ absurd (ground (arith, h, same))
    | batch_refused c why ce failed never same ↦ ap (λ (t : Result (Unit {0}) × Guard). t.1) same
    | verified c r ce v rows same ↦ absurd (ground (arith, h, same))
  ]

  abbrev cleared : Guard → Guard
  cleared g = record g { step_capability = false }

  abbrev grant : Result StepInputs × Guard → Result StepInputs × Guard
  grant (ok y, g) = (ok y, record g { step_capability = true })
  grant (err e, g) = (err e, g)

  prepared :
      (official : Action Guard StepInputs) (hook : Option (StepInputs → Result StepInputs))
      (g : Guard) (x y : StepInputs)
      → (official g).0 ≡ ok x
      → hooked hook x ≡ ok y
      → _prepare_inputs sha256 official hook g
        ≡ grant (verify_enabled sha256 x y (cleared (official g).1))
  unfolding _prepare_inputs
  prepared official hook g x y h k =
      ground (arith, h, k, Result-cases (verify_enabled sha256 x y (cleared (official g).1)).0)

  hook_raises :
      (official : Action Guard StepInputs) (hook : Option (StepInputs → Result StepInputs))
      (g : Guard) (x : StepInputs) (why : Error)
      → (official g).0 ≡ ok x
      → hooked hook x ≡ err why
      → _prepare_inputs sha256 official hook g ≡ (err why, (official g).1)
  unfolding _prepare_inputs
  hook_raises official hook g x why h k = ground (arith, h, k)

  verify_enabled-Gated {ℓ} :
      {M : Type ℓ} (x y : StepInputs) (r : Result StepInputs) (g : Guard) (opt_step : M → M) (m : M)
      → r ≡ ok y
      → Gated x r g (grant (verify_enabled sha256 x y (cleared g))) opt_step m
  unfolding verify_enabled optimizer_step
  verify_enabled-Gated x y r g opt_step m k = elim (Bool-cases g.enabled) [
    | inr off ↦ bypassed y k off (ground (arith, off)) (ground (arith, off))
    | inl on ↦ elim (Result-cases (_guard_pre_update sha256 y g).0) [
      | inl (u, e) ↦
          let p : (_guard_pre_update sha256 y (cleared g)).0 ≡ ok u =
            (_guard_pre_update-capability g y false).0 ∙ e in
          granted y k on e (ground (arith, on, p)) (ground (arith, on, p))
      | inr (why, e) ↦
          let p : (_guard_pre_update sha256 y (cleared g)).0 ≡ err why =
            (_guard_pre_update-capability g y false).0 ∙ e in
          let same : (_guard_pre_update sha256 y (cleared g)).1 ≡ cleared g =
            refused_unchanged (cleared g) y why p in
          refused y why k on e (ground (arith, on, p)) (ground (arith, on, p, same))
            (ground (arith, on, p, same))
    ]
  ]

  -- For every batch that the official trainer returned, with whatever hook and whatever optimizer
  -- step: with the guard on, the batch that was checked passed, the batch is returned and the
  -- optimizer may step, or the check raised, the exception reaches the caller, the recorded
  -- rollouts are as before, and an optimizer step raises and leaves the model; with the guard off
  -- the hook's batch is returned and the optimizer may step; and where the hook raises, so does the
  -- call, and the guard is as the official trainer left it.
  pub _prepare_inputs-Gated {ℓ} :
      {M : Type ℓ} (official : Action Guard StepInputs)
      (hook : Option (StepInputs → Result StepInputs)) (g : Guard) (x : StepInputs)
      (opt_step : M → M) (m : M)
      → (official g).0 ≡ ok x
      → Gated x (hooked hook x) (official g).1 (_prepare_inputs sha256 official hook g) opt_step m
  _prepare_inputs-Gated official hook g x opt_step m h = elim (Result-cases (hooked hook x)) [
    | inl (y, k) ↦
        rw (prepared official hook g x y h k)
          (verify_enabled-Gated x y (hooked hook x) (official g).1 opt_step m k)
    | inr (why, k) ↦ hook_raised why k (hook_raises official hook g x why h k)
  ]
