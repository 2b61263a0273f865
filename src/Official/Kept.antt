-- ===== src/Official/Kept.antt =====
-- What the store of the guard keeps while rollouts are recorded.
use grpo_guard.ArtifactStore.{ArtifactStore, get, put}
use grpo_guard.ArtifactStore.Content.{get-put, get-put_other}
use grpo_guard.Official.Rollout.{
  Guard, RolloutBatch, RolloutRecord, _guard_emit_generation, finish_row, generation_of,
  mask_of_row, octets, rollout_record, row_entry, row_span, store_put, store_rest, store_span,
  store_spans, trl_id,
}
use grpo_guard.Official.Rows.{Row}
use grpo_guard.Prelude.{
  List, Option, Option-cases, String, [], arith, inl, inr, length, none, refl, some, ℕ, ◌+◌, ◌∙◌,
  ◌∷◌, ◌≡◌,
}
use grpo_guard.Prelude.Result.{Result-cases, ok}
use grpo_guard.Prelude.Words.{bytes_32, bytes_8}
use grpo_guard.Schema.Events.{Event, generation}
use grpo_guard.Schema.Refs.{ArtifactRef}
use grpo_guard.Schema.Seal.{Bytes, seal}
use grpo_guard.Prelude.Action.{Preserves, bind-Preserves, pure, ◌>>=◌}

module _ (sha256 : Bytes → String) where
  -- The guard's store has the bytes under the reference.
  abbrev pub Reads : Guard → ArtifactRef → Bytes → Type 0
  Reads g r bytes = (s : ArtifactStore) × (g.store ≡ some s) × (get sha256 s r ≡ ok bytes)

  -- What could be read before can be read after.
  pub record Keeps (g h : Guard) : Type 0 where
    pub kept : (r : ArtifactRef) (bytes : Bytes) → Reads g r bytes → Reads h r bytes

  pub Keeps-trans : (u v w : Guard) → Keeps u v → Keeps v w → Keeps u w
  Keeps-trans u v w k l = record { kept = λ r bytes e. l.kept r bytes (k.kept r bytes e) }

  pub Keeps-refl : (u : Guard) → Keeps u u
  Keeps-refl u = record { kept = λ r bytes e. e }

  put_keeps :
      (bytes : Bytes) (producer dtype : String) (shape : List ℕ) (g : Guard) (r : ArtifactRef)
      (old : Bytes)
      → Reads g r old
      → Reads (store_put sha256 bytes producer dtype shape g).1 r old
  unfolding store_put
  put_keeps bytes producer dtype shape g r old (s, e, read) =
      rw (e, store_put)
        (
          (put sha256 s bytes octets producer (some dtype) (some shape)).1,
          refl,
          get-put_other sha256 s bytes old octets producer (some dtype) (some shape) r read,
        )

  pub store_put-Keeps :
      (bytes : Bytes) (producer dtype : String) (shape : List ℕ)
      → Preserves Keeps (store_put sha256 bytes producer dtype shape)
  store_put-Keeps bytes producer dtype shape g = record {
    kept = put_keeps bytes producer dtype shape g;
  }

  pub store_put-Reads :
      (bytes : Bytes) (producer dtype : String) (shape : List ℕ) (g : Guard) (r : ArtifactRef)
      → (store_put sha256 bytes producer dtype shape g).0 ≡ ok r
      → Reads (store_put sha256 bytes producer dtype shape g).1 r bytes
  unfolding store_put
  store_put-Reads bytes producer dtype shape g r h = elim (Option-cases g.store) [
    | inl e ↦ absurd (ground (arith, e, h))
    | inr (s, e) ↦
        let placed : (put sha256 s bytes octets producer (some dtype) (some shape)).0 ≡ ok r =
          ground (arith, e, h) in
        rw (e, store_put)
          (
            (put sha256 s bytes octets producer (some dtype) (some shape)).1,
            refl,
            get-put sha256 s bytes octets producer (some dtype) (some shape) r placed,
          )
  ]

  pub store_span-Keeps :
      (row : Option Row) (producer : String) → Preserves Keeps (store_span sha256 row producer)
  unfolding store_span
  store_span-Keeps none producer = Keeps-refl
  store_span-Keeps (some row) producer =
      bind-Preserves Keeps (store_put sha256 (bytes_32 row) producer "float32" (length row ∷ []))
        (λ r. pure (some r)) Keeps-trans
        (store_put-Keeps (bytes_32 row) producer "float32" (length row ∷ [])) (λ a. Keeps-refl)

module _ (sha256 : Bytes → String) (dumps : Event → Bytes) (now : String) where
  pub emit-store :
      (n : ℕ) (r : RolloutRecord) (g : Guard)
      → (_guard_emit_generation sha256 dumps now n r g).1.store ≡ g.store
  unfolding _guard_emit_generation
  emit-store n r g = ground (
    arith,
    Option-cases g.log,
    Result-cases (seal sha256 dumps (generation (generation_of now g.run_id n r))),
  )

  pub finish_row-Keeps :
      (n : ℕ) (r : RolloutRecord) → Preserves (Keeps sha256) (finish_row sha256 dumps now n r)
  unfolding finish_row
  finish_row-Keeps n r =
      bind-Preserves (Keeps sha256) (_guard_emit_generation sha256 dumps now n r) (λ u. pure r)
        (Keeps-trans sha256)
        (λ g. record { kept = λ q old (s, e, read). (s, emit-store n r g ∙ e, read) })
        (λ u. Keeps-refl sha256)

  pub store_spans-Keeps :
      (b : RolloutBatch) (t g i : ℕ) (p c : Row) (seq_ref mask_ref : ArtifactRef)
      → Preserves (Keeps sha256) (store_spans sha256 dumps now b t g i p c seq_ref mask_ref)
  unfolding store_spans
  store_spans-Keeps b t g i p c seq_ref mask_ref =
      let R = Keeps sha256 in
      let T = Keeps-trans sha256 in
      let old = row_span b i p c (row_entry b.old_per_token_logps i) in
      let sampling = row_span b i p c (row_entry b.sampling_per_token_logps i) in
      let built = rollout_record t i p c seq_ref mask_ref in
      let adv = store_span sha256 (row_entry b.advantages i) (trl_id "advantage-trl" g i) in
      let lps = store_span sha256 sampling (trl_id "samplinglogprob-trl" g i) in
      let last =
        λ (o s : Option ArtifactRef). adv >>= λ a. finish_row sha256 dumps now g (built o s a) in
      bind-Preserves R (store_span sha256 old (trl_id "oldlogprob-trl" g i)) (λ o. lps >>= last o) T
        (store_span-Keeps sha256 old (trl_id "oldlogprob-trl" g i))
        (λ o.
          bind-Preserves R lps (last o) T
            (store_span-Keeps sha256 sampling (trl_id "samplinglogprob-trl" g i))
            (λ s.
              bind-Preserves R adv (λ a. finish_row sha256 dumps now g (built o s a)) T
                (store_span-Keeps sha256 (row_entry b.advantages i) (trl_id "advantage-trl" g i))
                (λ a. finish_row-Keeps g (built o s a))))

  pub store_rest-Keeps :
      (b : RolloutBatch) (t g i : ℕ) (p c : Row) (seq_ref : ArtifactRef)
      → Preserves (Keeps sha256) (store_rest sha256 dumps now b t g i p c seq_ref)
  unfolding store_rest
  store_rest-Keeps b t g i p c seq_ref =
      let mask = mask_of_row b i (length p + length c) in
      bind-Preserves (Keeps sha256)
        (store_put sha256 (bytes_8 mask) (trl_id "mask-trl" g i) "int8" (length mask ∷ []))
        (store_spans sha256 dumps now b t g i p c seq_ref) (Keeps-trans sha256)
        (store_put-Keeps sha256 (bytes_8 mask) (trl_id "mask-trl" g i) "int8" (length mask ∷ []))
        (store_spans-Keeps b t g i p c seq_ref)
