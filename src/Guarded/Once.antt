-- ===== src/Guarded/Once.antt =====
-- Sequences of calls of guarded_optimizer_step on one registry, in which other workers that share
-- the registry's database may consume nonces between the calls.
use grpo_guard.Guarded.Batch.{ValidatedBatchHandle}
use grpo_guard.Guarded.Wal.{WalStatus}
use grpo_guard.Guarded.Claims.{Claims-Grows, Grows}
use grpo_guard.Guarded.Nonce.{NonceRegistry, is_consumed}
use grpo_guard.Guarded.Outcome.{Authorised, guarded_optimizer_step-Outcome}
use grpo_guard.Guarded.Run.{GuardedStepResult, guarded_optimizer_step, nonces_of}
use grpo_guard.Guarded.Step.{Argument, StepConfig, Trainer, World, accept}
use grpo_guard.Prelude.{
  All, Bool-cases, ap, sym, List, Option, String, [], arith, contains, eq_iff, eq_refl, false, inl,
  inr, refl, subst, true, ◌++◌, ◌||◌, ◌∷◌, ◌≡◌,
}
use grpo_guard.Prelude.Dict.{Distinct}
use grpo_guard.Prelude.Result.{Error, Result, err, ok}
use grpo_guard.Schema.Seal.{Bytes}

-- The nonces of the handles that a call trained on: of all its handles if it returned, or if it
-- raised with other parameters than before; of none if it raised and left the parameters.
pub data Trained (t : Trainer) (args : Option (List Argument)) (w : World t)
    (r : Result (GuardedStepResult t)) (w' : World t) : List String → Type 0 where
  returned :
      (res : GuardedStepResult t) (hs : List ValidatedBatchHandle)
      → r ≡ ok res
      → accept args ≡ ok hs
      → Trained t args w r w' (nonces_of hs)
  interrupted :
      (e : Error) (hs : List ValidatedBatchHandle)
      → r ≡ err e
      → accept args ≡ ok hs
      → ¬ (w'.params ≡ w.params)
      → Trained t args w r w' (nonces_of hs)
  untouched : (e : Error) → r ≡ err e → w'.params ≡ w.params → Trained t args w r w' []

-- Calls sha256 t w w' ns: from `w` to `w'`, with the nonces trained on along the way, in their order.
pub data Calls (sha256 : Bytes → String) (t : Trainer)
    : World t → World t → List String → Type 1 where
  done : (w : World t) → Calls sha256 t w w []
  call :
      (cfg : StepConfig) (args : Option (List Argument)) (w w' : World t) (ms ns : List String)
      → Trained t args w
          (guarded_optimizer_step t sha256 cfg args w).0
          (guarded_optimizer_step t sha256 cfg args w).1
          ms
      → Calls sha256 t (guarded_optimizer_step t sha256 cfg args w).1 w' ns
      → Calls sha256 t w w' (ms ++ ns)
  elsewhere :
      (reg : NonceRegistry) (w w' : World t) (ns : List String)
      → Grows w.registry reg
      → Calls sha256 t (record w { registry = reg }) w' ns
      → Calls sha256 t w w' ns

-- The nonces are fresh in the registry, and no two of them are the same.
abbrev pub FreshAll : NonceRegistry → List String → Type 0
FreshAll reg ns = All (λ n. is_consumed reg n ≡ false) ns × Distinct ns

older :
    (reg next : NonceRegistry) (ns : List String)
    → Grows reg next
    → All (λ n. is_consumed next n ≡ false) ns
    → All (λ n. is_consumed reg n ≡ false) ns
older reg next [] g h = tt
older reg next (n ∷ ns) g h =
    (ground (arith, g n, h.0, Bool-cases (is_consumed reg n)), older reg next ns g h.1)

not_among :
    (reg next : NonceRegistry) (n : String) (ns : List String)
    → is_consumed next n ≡ true
    → All (λ m. is_consumed next m ≡ false) ns
    → contains n ns ≡ false
not_among reg next n [] old h = refl
not_among reg next n (m ∷ ns) old h =
    ground (arith, eq_iff n m, h.0, old, not_among reg next n ns old h.1)

contains-append :
    (n : String) (ns ms : List String) → contains n (ns ++ ms) ≡ (contains n ns || contains n ms)
contains-append n [] ms = refl
contains-append n (x ∷ ns) ms = ground (arith, contains-append n ns ms)

-- Nonces claimed now come before nonces that are fresh afterwards.
claim_first :
    (reg next : NonceRegistry) (ns ms : List String)
    → ((n : String) → contains n ns ≡ true → is_consumed next n ≡ true)
    → Grows reg next
    → FreshAll reg ns
    → FreshAll next ms
    → FreshAll reg (ns ++ ms)
claim_first reg next [] ms held g now later = (older reg next ms g later.0, later.1)
claim_first reg next (n ∷ ns) ms held g now later =
    let rest =
      claim_first reg next ns ms (λ m h. held m (ground (arith, h))) g ((now.0).1, (now.1).1)
        later in
    (
      ((now.0).0, rest.0),
      (
        ground (
          arith,
          contains-append n ns ms,
          (now.1).0,
          not_among reg next n ms (held n (ground (arith, eq_refl n))) later.0,
        ),
        rest.1,
      ),
    )

module _ (sha256 : Bytes → String) (t : Trainer) where
  claimed_first :
      (cfg : StepConfig) (args : Option (List Argument)) (hs : List ValidatedBatchHandle)
      (w : World t) (ns : List String) (st : WalStatus)
      → let next = (guarded_optimizer_step t sha256 cfg args w).1 in
        accept args ≡ ok hs
        → Authorised sha256 t cfg args w next st
        → FreshAll next.registry ns
        → FreshAll w.registry (nonces_of hs ++ ns)
  claimed_first cfg args hs w ns st acc a later =
      let next = (guarded_optimizer_step t sha256 cfg args w).1 in
      let same : a.handles ≡ hs = ground (arith, a.accepted, acc) in
      subst (λ l. FreshAll w.registry (nonces_of l ++ ns)) same
        (claim_first w.registry next.registry (nonces_of a.handles) ns
          (λ n h. ground (arith, a.claimed.held n, h))
          (Claims-Grows w.registry next.registry (nonces_of a.handles) a.claimed)
          (a.claimed.fresh, a.claimed.distinct) later)

  -- No call takes a nonce out of the registry.
  step-Grows :
      (cfg : StepConfig) (args : Option (List Argument)) (w : World t)
      → Grows w.registry (guarded_optimizer_step t sha256 cfg args w).1.registry
  step-Grows cfg args w =
      let next = (guarded_optimizer_step t sha256 cfg args w).1 in
      elim (guarded_optimizer_step-Outcome sha256 t cfg args w) [
        | inl (e, p, same) ↦ subst (λ v. Grows w.registry v.registry) (sym same) (λ n h. h)
        | inr (inl (e, p, kept)) ↦ kept.kept_nonces
        | inr (inr a) ↦ Claims-Grows w.registry next.registry (nonces_of a.handles) a.claimed
      ]

  -- One call, before calls whose nonces are fresh after it.
  call-FreshAll :
      (cfg : StepConfig) (args : Option (List Argument)) (w : World t) (ms ns : List String)
      → let (r, next) = guarded_optimizer_step t sha256 cfg args w in
        Trained t args w r next ms → FreshAll next.registry ns → FreshAll w.registry (ms ++ ns)
  call-FreshAll cfg args w _ ns (returned res hs p acc) later =
      elim (guarded_optimizer_step-Outcome sha256 t cfg args w) [
        | inl (e, q, same) ↦ absurd (ground (arith, p, q))
        | inr (inl (e, q, kept)) ↦ absurd (ground (arith, p, q))
        | inr (inr a) ↦ claimed_first cfg args hs w ns _ acc a later
      ]
  call-FreshAll cfg args w _ ns (interrupted x hs p acc moved) later =
      elim (guarded_optimizer_step-Outcome sha256 t cfg args w) [
        | inl (e, q, same) ↦ absurd (moved (ap (λ v. v.params) same))
        | inr (inl (e, q, kept)) ↦ absurd (moved kept.kept_params)
        | inr (inr a) ↦ claimed_first cfg args hs w ns _ acc a later
      ]
  call-FreshAll cfg args w _ ns (untouched x p same) later =
      let next = (guarded_optimizer_step t sha256 cfg args w).1 in
      (older w.registry next.registry ns (step-Grows cfg args w) later.0, later.1)

  -- Over any sequence of guarded optimizer steps on one registry, with other workers consuming
  -- nonces between them, no nonce is trained on twice and none that was consumed at the start is
  -- trained on, where a call trains on the nonces of all its handles if it returns, and also if it
  -- raises and leaves other parameters than before.
  pub exactly_once :
      (w w' : World t) (ns : List String) → Calls sha256 t w w' ns → FreshAll w.registry ns
  exactly_once _ _ _ (done w) = (tt, tt)
  exactly_once _ _ _ (call cfg args w w' ms ns trains rest) =
      call-FreshAll cfg args w ms ns trains
        (exactly_once (guarded_optimizer_step t sha256 cfg args w).1 w' ns rest)
  exactly_once _ _ _ (elsewhere reg w w' ns g rest) =
      let (fresh, distinct) = exactly_once (record w { registry = reg }) w' ns rest in
      (older w.registry reg ns g fresh, distinct)
