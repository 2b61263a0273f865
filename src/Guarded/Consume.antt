-- ===== src/Guarded/Consume.antt =====
-- Phases 2 and 3 of guarded_optimizer_step: what they consume, and what they leave alone.
use grpo_guard.Prelude.Action.{Preserves}
use grpo_guard.Guarded.Batch.{MaterializedBatch, ValidatedBatchHandle}
use grpo_guard.Guarded.Claims.{Claims, Grows}
use grpo_guard.Guarded.Nonce.{NonceRegistry, consume, consume_once, consumed-consume, is_consumed}
use grpo_guard.Guarded.Run.{
  check_bindings, consume_handles, consume_nonces, consume_phase, members_of, nonces_of,
}
use grpo_guard.Guarded.Step.{StepConfig, Trainer, World, mem_id}
use grpo_guard.Prelude.{
  All, Bool-cases, List, String, [], arith, contains, eq_iff, false, inl, inr, refl, sym, ◌is◌,
  ◌||◌, ◌∙◌, ◌∷◌, ◌≡◌,
}
use grpo_guard.Prelude.Result.{Result-cases, err, ok}
use grpo_guard.Prelude.Action.{Preserves}
use grpo_guard.Prelude.Action.{Preserves}
use grpo_guard.Prelude.Action.{Preserves}
use grpo_guard.Prelude.Action.{Preserves}

fresh_tail :
    (reg next : NonceRegistry) (n : String) (ns : List String)
    → ((m : String) → is_consumed next m ≡ (is_consumed reg m || (m is n)))
    → All (λ m. is_consumed next m ≡ false) ns
    → All (λ m. is_consumed reg m ≡ false) ns × (contains n ns ≡ false)
fresh_tail reg next n [] held h = (tt, refl)
fresh_tail reg next n (m ∷ ns) held h =
    let rest = fresh_tail reg next n ns held h.1 in
    (
      (ground (arith, held m, h.0), rest.0),
      ground (arith, held m, h.0, rest.1, eq_iff n m, eq_iff m n),
    )

add_claim :
    (n update_id : String) (ns : List String) (reg after : NonceRegistry)
    → is_consumed reg n ≡ false
    → Claims (consume reg n update_id).1 ns after
    → Claims reg (n ∷ ns) after
add_claim n update_id ns reg after fresh c =
    let rest =
      fresh_tail reg (consume reg n update_id).1 n ns (λ m. consumed-consume reg n m update_id)
        c.fresh in
    record {
      fresh = (fresh, rest.0);
      distinct = (rest.1, c.distinct);
      held =
          λ m. ground (arith, c.held m, consumed-consume reg n m update_id, eq_iff m n, eq_iff n m);
    }

module _ (t : Trainer) where
  -- The model, the gradients and the log are as they were, and the registry has only grown.
  pub record Kept (w w' : World t) : Type 0 where
    pub kept_params : w'.params ≡ w.params
    pub kept_grads : w'.grads ≡ w.grads
    pub kept_wal : w'.wal ≡ w.wal
    pub kept_nonces : Grows w.registry w'.registry

  consume_nonces-Kept :
      (hs : List ValidatedBatchHandle) (w : World t) → Kept w (consume_nonces t hs w).1
  unfolding consume_nonces
  consume_nonces-Kept [] w = record {
    kept_params = refl;
    kept_grads = refl;
    kept_wal = refl;
    kept_nonces = λ m old. old;
  }
  consume_nonces-Kept (h ∷ hs) w =
      let n = h.input_event.single_use_nonce_sha256 in
      let c = consume w.registry n h.input_event.update_id in
      let one : Grows w.registry c.1 =
        λ m old. ground (arith, consumed-consume w.registry n m h.input_event.update_id, old) in
      let next : World t = record w { registry = c.1 } in
      elim (Result-cases c.0) [
        | inl (u, o) ↦
            let k = consume_nonces-Kept hs next in
            rw (o, consume_nonces)
              (record {
                kept_params = k.kept_params;
                kept_grads = k.kept_grads;
                kept_wal = k.kept_wal;
                kept_nonces = λ m old. k.kept_nonces m (one m old);
              })
        | inr (e, f) ↦
            rw (f, consume_nonces)
              (record { kept_params = refl; kept_grads = refl; kept_wal = refl; kept_nonces = one })
      ]

  consume_nonces-Claims :
      (hs : List ValidatedBatchHandle) (w : World t)
      → (consume_nonces t hs w).0 ≡ ok tt
      → Claims w.registry (nonces_of hs) (consume_nonces t hs w).1.registry
  unfolding consume_nonces
  consume_nonces-Claims [] w e = record { fresh = tt; distinct = tt; held = λ m. ground arith }
  consume_nonces-Claims (h ∷ hs) w e =
      let n = h.input_event.single_use_nonce_sha256 in
      let c = consume w.registry n h.input_event.update_id in
      elim (Result-cases c.0) [
        | inl (u, o) ↦
            let fresh : is_consumed w.registry n ≡ false =
              ground (arith, consume_once w.registry n h.input_event.update_id, o) in
            rw (o, consume_nonces)
              (add_claim n h.input_event.update_id (nonces_of hs) w.registry _ fresh (
                consume_nonces-Claims hs (record w { registry = c.1 })
                  (rw (o, consume_nonces) at e)))
        | inr (x, f) ↦ ground (arith, e, f)
      ]

  pub Kept-refl : (w : World t) → Kept w w
  Kept-refl w = record {
    kept_params = refl;
    kept_grads = refl;
    kept_wal = refl;
    kept_nonces = λ m old. old;
  }

  Kept-trans : (u v w : World t) → Kept u v → Kept v w → Kept u w
  Kept-trans u v w k l = record {
    kept_params = l.kept_params ∙ k.kept_params;
    kept_grads = l.kept_grads ∙ k.kept_grads;
    kept_wal = l.kept_wal ∙ k.kept_wal;
    kept_nonces = λ m old. l.kept_nonces m (k.kept_nonces m old);
  }

  consume_handles-Kept : (hs : List ValidatedBatchHandle) → Preserves Kept (consume_handles t hs)
  unfolding consume_handles
  consume_handles-Kept [] w = Kept-refl w
  consume_handles-Kept (h ∷ hs) w =
      let next : World t = record w { used = h.handle_id ∷ w.used } in
      let k = consume_handles-Kept hs next in
      let kept : Kept w (consume_handles t hs next).1 = record {
        kept_params = k.kept_params;
        kept_grads = k.kept_grads;
        kept_wal = k.kept_wal;
        kept_nonces = k.kept_nonces;
      } in
      elim (Bool-cases (mem_id h.handle_id w.used)) [
        | inl old ↦ rw (old, consume_handles) (Kept-refl w)
        | inr new ↦ elim (Result-cases (consume_handles t hs next).0) [
          | inl (bs, o) ↦ rw (new, consume_handles, o) kept
          | inr (e, f) ↦ rw (new, consume_handles, f) kept
        ]
      ]

  -- The registry is not touched by handles.
  consume_handles-registry :
      (hs : List ValidatedBatchHandle)
      → Preserves (λ w w'. w'.registry ≡ w.registry) (consume_handles t hs)
  unfolding consume_handles
  consume_handles-registry [] w = refl
  consume_handles-registry (h ∷ hs) w =
      let next : World t = record w { used = h.handle_id ∷ w.used } in
      ground (arith, consume_handles-registry hs next)

  pub consume_phase-Kept :
      (cfg : StepConfig) (hs : List ValidatedBatchHandle) → Preserves Kept (consume_phase t cfg hs)
  unfolding consume_phase
  consume_phase-Kept cfg hs w =
      let a = consume_nonces t hs w in
      let b = consume_handles t hs a.1 in
      let after_b : Kept w b.1 =
        Kept-trans w a.1 b.1 (consume_nonces-Kept hs w) (consume_handles-Kept hs a.1) in
      elim (Result-cases a.0) [
        | inr (e, f) ↦
            let end : consume_phase t cfg hs w ≡ (err e, a.1) = ground (arith, f) in
            rw end (consume_nonces-Kept hs w)
        | inl (u, o) ↦ elim (Result-cases b.0) [
          | inr (e, f) ↦
              let end : consume_phase t cfg hs w ≡ (err e, b.1) = ground (arith, o, f) in
              rw end after_b
          | inl (bs, p) ↦
              elim (Result-cases (check_bindings t cfg.group_size (members_of hs) b.1.params hs)) [
                | inr (e, f) ↦
                    let end : consume_phase t cfg hs w ≡ (err e, b.1) = ground (arith, o, p, f) in
                    rw end after_b
                | inl (v, q) ↦
                    let end : consume_phase t cfg hs w ≡ (ok bs, b.1) = ground (arith, o, p, q) in
                    rw end after_b
              ]
        ]
      ]

  -- Phases 2 and 3 passed: the nonces were claimed, and the bindings hold of the model.
  pub consume_phase-Claims :
      (cfg : StepConfig) (hs : List ValidatedBatchHandle) (w : World t)
      (batches : List MaterializedBatch)
      → (consume_phase t cfg hs w).0 ≡ ok batches
      → let w' = (consume_phase t cfg hs w).1 in
        Claims w.registry (nonces_of hs) w'.registry
        × (check_bindings t cfg.group_size (members_of hs) w.params hs ≡ ok tt)
  unfolding consume_phase
  consume_phase-Claims cfg hs w batches e =
      let a = consume_nonces t hs w in
      let b = consume_handles t hs a.1 in
      elim (Result-cases a.0) [
        | inr (x, f) ↦ ground (arith, e, f)
        | inl (u, o) ↦ elim (Result-cases b.0) [
          | inr (x, f) ↦ ground (arith, e, o, f)
          | inl (bs, p) ↦
              elim (Result-cases (check_bindings t cfg.group_size (members_of hs) b.1.params hs)) [
                | inr (x, f) ↦ ground (arith, e, o, p, f)
                | inl (v, q) ↦
                    let c = consume_nonces-Claims hs w (ground (arith, o)) in
                    let end : consume_phase t cfg hs w ≡ (ok bs, b.1) = ground (arith, o, p, q) in
                    (
                      rw end (rw (consume_handles-registry hs a.1) c),
                      rw
                          (
                            sym (consume_nonces-Kept hs w).kept_params,
                            sym (consume_handles-Kept hs a.1).kept_params,
                          )
                          q,
                    )
              ]
        ]
      ]
