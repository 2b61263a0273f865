-- ===== src/Official/RowRecorded.antt =====
-- What `record_row` leaves for one row: a record, and the bytes of its real tokens in the store.
use grpo_guard.ArtifactStore.Content.{get_sound}
use grpo_guard.Official.Kept.{
  Keeps, Keeps-refl, Keeps-trans, Reads, store_put-Keeps, store_put-Reads, store_rest-Keeps,
}
use grpo_guard.Official.Rollout.{
  Guard, RolloutBatch, RolloutRecord, _guard_emit_generation, finish_row, mask_of_row, record_row,
  rollout_record, row_entry, row_span, store_put, store_rest, store_span, store_spans, trl_id,
  uncovered,
}
use grpo_guard.Official.Rows.{Row, _align_checks}
use grpo_guard.Prelude.{
  Bool-cases, Option, String, [], ap, arith, inl, inr, is_nil, length, subst, sym, true, ℕ, ◌++◌,
  ◌+◌, ◌<◌, ◌∙◌, ◌∷◌, ◌≡◌, ◌⊎◌,
}
use grpo_guard.Prelude.Result.{Result, Result-cases, err, guard_violation, ok}
use grpo_guard.Prelude.Words.{bytes_32, bytes_8}
use grpo_guard.Schema.Events.{Event}
use grpo_guard.Schema.Refs.{ArtifactRef}
use grpo_guard.Schema.Seal.{Bytes}
use grpo_guard.Prelude.Action.{Action, Preserves, bind-Preserves, bind-next, bind-ok, ◌>>=◌}

-- A record of row i with the real tokens p and c, whose sequence the guard's store has.
pub record IsRecorded (sha256 : Bytes → String) (g : Guard) (i : ℕ) (p c : Row) (r : RolloutRecord)
    : Type 0 where
  pub index : r.index ≡ i
  pub prompt_len : r.prompt_len ≡ length p
  pub completion_len : r.completion_len ≡ length c
  pub completed : 0 < length c
  pub digest : r.sequence_ref.sha256 ≡ sha256 (bytes_32 (p ++ c))
  pub sequence : Reads sha256 g r.sequence_ref (bytes_32 (p ++ c))

module _ (sha256 : Bytes → String) (dumps : Event → Bytes) (now : String) where
  finish_row-ok :
      (n : ℕ) (r q : RolloutRecord) (g : Guard)
      → (finish_row sha256 dumps now n r g).0 ≡ ok q
      → q ≡ r
  unfolding finish_row
  finish_row-ok n r q g h =
      ground (arith, h, Result-cases (_guard_emit_generation sha256 dumps now n r g).0)

  -- The fields of the record that the rest of the body builds.
  abbrev Fields : ℕ → Row → Row → ArtifactRef → RolloutRecord → Type 0
  Fields i p c seq_ref r =
      (r.index ≡ i)
      × (r.prompt_len ≡ length p)
      × (r.completion_len ≡ length c)
      × (r.sequence_ref ≡ seq_ref)

  store_spans-Fields :
      (b : RolloutBatch) (t n i : ℕ) (p c : Row) (seq_ref mask_ref : ArtifactRef) (g : Guard)
      (r : RolloutRecord)
      → (store_spans sha256 dumps now b t n i p c seq_ref mask_ref g).0 ≡ ok r
      → Fields i p c seq_ref r
  unfolding store_spans
  store_spans-Fields b t n i p c seq_ref mask_ref g r h =
      let old =
        store_span sha256 (row_span b i p c (row_entry b.old_per_token_logps i))
          (trl_id "oldlogprob-trl" n i) in
      let lps =
        store_span sha256 (row_span b i p c (row_entry b.sampling_per_token_logps i))
          (trl_id "samplinglogprob-trl" n i) in
      let adv = store_span sha256 (row_entry b.advantages i) (trl_id "advantage-trl" n i) in
      let built = rollout_record t i p c seq_ref mask_ref in
      let finish = λ (o s a : Option ArtifactRef). finish_row sha256 dumps now n (built o s a) in
      let last = λ (o s : Option ArtifactRef). adv >>= finish o s in
      let (o, oe, h1) = bind-next old (λ o. lps >>= last o) g r h in
      let (s, se, h2) = bind-next lps (last o) (old g).1 r h1 in
      let (a, ae, h3) = bind-next adv (finish o s) (lps (old g).1).1 r h2 in
      let e : r ≡ built o s a = finish_row-ok n (built o s a) r (adv (lps (old g).1).1).1 h3 in
      (
        ap (λ (q : RolloutRecord). q.index) e,
        ap (λ (q : RolloutRecord). q.prompt_len) e,
        ap (λ (q : RolloutRecord). q.completion_len) e,
        ap (λ (q : RolloutRecord). q.sequence_ref) e,
      )

  store_rest-Fields :
      (b : RolloutBatch) (t n i : ℕ) (p c : Row) (seq_ref : ArtifactRef) (g : Guard)
      (r : RolloutRecord)
      → (store_rest sha256 dumps now b t n i p c seq_ref g).0 ≡ ok r
      → Fields i p c seq_ref r
  unfolding store_rest
  store_rest-Fields b t n i p c seq_ref g r h =
      let mask = mask_of_row b i (length p + length c) in
      let stored =
        store_put sha256 (bytes_8 mask) (trl_id "mask-trl" n i) "int8" (length mask ∷ []) in
      let (m, me, h1) = bind-next stored (store_spans sha256 dumps now b t n i p c seq_ref) g r h in
      store_spans-Fields b t n i p c seq_ref m (stored g).1 r h1

  _align_checks-completed : (p c : Row) → is_nil (_align_checks p c) ≡ true → 0 < length c
  unfolding _align_checks
  _align_checks-completed p [] h = absurd (ground (arith, h))
  _align_checks-completed p (x ∷ c) h = omega arith

  module _ (b : RolloutBatch) (t n i : ℕ) (p c : Row) where
    abbrev sequence_bytes : Bytes
    sequence_bytes = bytes_32 (p ++ c)

    abbrev stored : Action Guard ArtifactRef
    stored = store_put sha256 sequence_bytes (trl_id "gen-trl" n i) "int32" (length (p ++ c) ∷ [])

    abbrev rest : ArtifactRef → Action Guard RolloutRecord
    rest = store_rest sha256 dumps now b t n i p c

    rest-IsRecorded :
        (q : ArtifactRef) (g : Guard) (r : RolloutRecord)
        → 0 < length c
        → (stored g).0 ≡ ok q
        → (rest q (stored g).1).0 ≡ ok r
        → IsRecorded sha256 (rest q (stored g).1).1 i p c r
    rest-IsRecorded q g r some_tokens se h =
        let fields = store_rest-Fields b t n i p c q (stored g).1 r h in
        let read =
          (store_rest-Keeps sha256 dumps now b t n i p c q (stored g).1).kept q sequence_bytes (
            store_put-Reads sha256 sequence_bytes (trl_id "gen-trl" n i) "int32"
              (length (p ++ c) ∷ []) g q se) in
        record {
          index = fields.0;
          prompt_len = fields.1;
          completion_len = fields.2;
          completed = some_tokens;
          digest =
              ap (λ (a : ArtifactRef). a.sha256) fields.3
              ∙ sym (get_sound sha256 read.0 q sequence_bytes read.2).0;
          sequence =
              subst (λ a. Reads sha256 (rest q (stored g).1).1 a sequence_bytes) (sym fields.3)
                read;
        }

    chain-IsRecorded :
        (g : Guard) (r : RolloutRecord)
        → 0 < length c
        → ((stored >>= rest) g).0 ≡ ok r
        → IsRecorded sha256 ((stored >>= rest) g).1 i p c r
    chain-IsRecorded g r some_tokens h =
        let (q, se, e) = bind-ok stored rest g r h in
        subst (λ a. IsRecorded sha256 (a.1) i p c r) (sym e)
          (rest-IsRecorded q g r some_tokens se (bind-next-of q e h))
      where
        bind-next-of :
            (q : ArtifactRef)
            → (stored >>= rest) g ≡ rest q (stored g).1
            → ((stored >>= rest) g).0 ≡ ok r
            → (rest q (stored g).1).0 ≡ ok r
        bind-next-of q e h = subst (λ (a : Result RolloutRecord × Guard). a.0 ≡ ok r) e h

    -- A row is checked first, and then stored or refused.
    record_row-cases :
        (g : Guard)
        → ((0 < length c) × (record_row sha256 dumps now b t n i p c g ≡ (stored >>= rest) g))
          ⊎ (record_row sha256 dumps now b t n i p c g ≡ (err guard_violation, g))
    unfolding record_row
    record_row-cases g =
        let sampling = row_span b i p c (row_entry b.sampling_per_token_logps i) in
        elim (Bool-cases (is_nil (_align_checks p c))) [
          | inr e ↦ inr (ground (arith, e))
          | inl aligned ↦ elim (Bool-cases (uncovered (length c) sampling)) [
            | inl e ↦ inr (ground (arith, e, aligned))
            | inr fits ↦ inl (_align_checks-completed p c aligned, ground (arith, aligned, fits))
          ]
        ]

    pub record_row-IsRecorded :
        (g : Guard) (r : RolloutRecord)
        → (record_row sha256 dumps now b t n i p c g).0 ≡ ok r
        → IsRecorded sha256 (record_row sha256 dumps now b t n i p c g).1 i p c r
    record_row-IsRecorded g r h = elim (record_row-cases g) [
      | inl (some_tokens, e) ↦
          subst (λ a. IsRecorded sha256 (a.1) i p c r) (sym e)
            (chain-IsRecorded g r some_tokens
              (subst (λ (a : Result RolloutRecord × Guard). a.0 ≡ ok r) e h))
      | inr e ↦ absurd (ground (arith, e, h))
    ]

    pub record_row-Keeps : Preserves (Keeps sha256) (record_row sha256 dumps now b t n i p c)
    record_row-Keeps g = elim (record_row-cases g) [
      | inl (some_tokens, e) ↦
          subst (λ (a : Result RolloutRecord × Guard). Keeps sha256 g a.1) (sym e)
            (bind-Preserves (Keeps sha256) stored rest (Keeps-trans sha256)
              (store_put-Keeps sha256 sequence_bytes (trl_id "gen-trl" n i) "int32"
                (length (p ++ c) ∷ []))
              (store_rest-Keeps sha256 dumps now b t n i p c) g)
      | inr e ↦
          subst (λ (a : Result RolloutRecord × Guard). Keeps sha256 g a.1) (sym e)
            (Keeps-refl sha256 g)
    ]

  pub IsRecorded-Keeps :
      (g h : Guard) (i : ℕ) (p c : Row) (r : RolloutRecord)
      → Keeps sha256 g h
      → IsRecorded sha256 g i p c r
      → IsRecorded sha256 h i p c r
  IsRecorded-Keeps g h i p c r k d = record {
    index = d.index;
    prompt_len = d.prompt_len;
    completion_len = d.completion_len;
    completed = d.completed;
    digest = d.digest;
    sequence = k.kept r.sequence_ref (bytes_32 (p ++ c)) d.sequence;
  }
