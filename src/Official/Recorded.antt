-- ===== src/Official/Recorded.antt =====
-- What `_guard_validate_rollouts` records: the real tokens of every row, readable from the store.
use grpo_guard.Official.Kept.{Keeps, Keeps-refl, Keeps-trans}
use grpo_guard.Official.Rollout.{
  Guard, RolloutBatch, RolloutRecord, _guard_validate_rollouts, record_row, record_rows,
}
use grpo_guard.Official.RowRecorded.{
  IsRecorded, IsRecorded-Keeps, record_row-IsRecorded, record_row-Keeps,
}
use grpo_guard.Official.Rows.{Row, _masked_real}
use grpo_guard.Prelude.{List, String, [], get_elem?, subst, sym, ℕ, ◌+◌, ◌∙◌, ◌∷◌, ◌≡◌}
use grpo_guard.Prelude.Result.{Result, ok, ok-injective}
use grpo_guard.Schema.Events.{Event}
use grpo_guard.Schema.Seal.{Bytes}
use grpo_guard.Prelude.Action.{Preserves, bind-Preserves, bind-ok, modify, pure, ◌>>=◌}

abbrev pub real_prompt : RolloutBatch → ℕ → Row → Row
real_prompt b i p = _masked_real p (get_elem? b.prompt_mask i)

abbrev pub real_completion : RolloutBatch → ℕ → Row → Row
real_completion b i c = _masked_real c (get_elem? b.completion_mask i)

module _ (sha256 : Bytes → String) where
  -- One record for each row of both lists, in their order.
  pub data RowsRecorded (b : RolloutBatch) (g : Guard)
      : ℕ → List Row → List Row → List RolloutRecord → Type 0 where
    no_prompts : (i : ℕ) (cs : List Row) → RowsRecorded b g i [] cs []
    no_completions : (i : ℕ) (p : Row) (ps : List Row) → RowsRecorded b g i (p ∷ ps) [] []
    recorded_row :
        (i : ℕ) (p c : Row) (ps cs : List Row) (r : RolloutRecord) (rs : List RolloutRecord)
        → IsRecorded sha256 g i (real_prompt b i p) (real_completion b i c) r
        → RowsRecorded b g (i + 1) ps cs rs
        → RowsRecorded b g i (p ∷ ps) (c ∷ cs) (r ∷ rs)

module _ (sha256 : Bytes → String) (dumps : Event → Bytes) (now : String) where
  record_rows-Keeps :
      (b : RolloutBatch) (t n i : ℕ) (ps cs : List Row)
      → Preserves (Keeps sha256) (record_rows sha256 dumps now b t n i ps cs)
  unfolding record_rows
  record_rows-Keeps b t n i [] cs = Keeps-refl sha256
  record_rows-Keeps b t n i (p ∷ ps) [] = Keeps-refl sha256
  record_rows-Keeps b t n i (p ∷ ps) (c ∷ cs) =
      let more = record_rows sha256 dumps now b t n (i + 1) ps cs in
      bind-Preserves (Keeps sha256)
        (record_row sha256 dumps now b t n i (real_prompt b i p) (real_completion b i c))
        (λ r. more >>= λ rs. pure (r ∷ rs)) (Keeps-trans sha256)
        (record_row-Keeps sha256 dumps now b t n i (real_prompt b i p) (real_completion b i c))
        (λ r.
          bind-Preserves (Keeps sha256) more (λ rs. pure (r ∷ rs)) (Keeps-trans sha256)
            (record_rows-Keeps b t n (i + 1) ps cs) (λ rs. Keeps-refl sha256))

  record_rows-RowsRecorded :
      (b : RolloutBatch) (t n i : ℕ) (ps cs : List Row) (g : Guard) (rs : List RolloutRecord)
      → (record_rows sha256 dumps now b t n i ps cs g).0 ≡ ok rs
      → RowsRecorded sha256 b (record_rows sha256 dumps now b t n i ps cs g).1 i ps cs rs
  unfolding record_rows
  record_rows-RowsRecorded b t n i [] cs g rs h =
      subst (RowsRecorded sha256 b g i [] cs) (cc) (no_prompts i cs)
  record_rows-RowsRecorded b t n i (p ∷ ps) [] g rs h =
      subst (RowsRecorded sha256 b g i (p ∷ ps) []) (cc) (no_completions i p ps)
  record_rows-RowsRecorded b t n i (p ∷ ps) (c ∷ cs) g rs h =
      let row = record_row sha256 dumps now b t n i (real_prompt b i p) (real_completion b i c) in
      let more = record_rows sha256 dumps now b t n (i + 1) ps cs in
      let (r, re, e) = bind-ok row (λ r. more >>= λ qs. pure (r ∷ qs)) g rs h in
      let after = (row g).1 in
      let h1 : ((more >>= λ qs. pure (r ∷ qs)) after).0 ≡ ok rs =
        subst (λ (a : Result (List RolloutRecord) × Guard). a.0 ≡ ok rs) e h in
      let (qs, qe, e1) = bind-ok more (λ qs. pure (r ∷ qs)) after rs h1 in
      let same : r ∷ qs ≡ rs =
        ok-injective (subst (λ (a : Result (List RolloutRecord) × Guard). a.0 ≡ ok rs) e1 h1) in
      let this =
        IsRecorded-Keeps sha256 dumps now after (more after).1 i (real_prompt b i p)
          (real_completion b i c) r (record_rows-Keeps b t n (i + 1) ps cs after)
          (record_row-IsRecorded sha256 dumps now b t n i (real_prompt b i p)
            (real_completion b i c) g r re) in
      subst
        (λ (a : Result (List RolloutRecord) × Guard).
          RowsRecorded sha256 b a.1 i (p ∷ ps) (c ∷ cs) rs)
        (sym (e ∙ e1))
        (subst (RowsRecorded sha256 b (more after).1 i (p ∷ ps) (c ∷ cs)) same (
          recorded_row i p c ps cs r qs this
            (record_rows-RowsRecorded b t n (i + 1) ps cs after qs qe)))

  RowsRecorded-Keeps :
      {b : RolloutBatch} {g : Guard} {i : ℕ} {ps cs : List Row} {rs : List RolloutRecord}
      (h : Guard)
      → Keeps sha256 g h
      → RowsRecorded sha256 b g i ps cs rs
      → RowsRecorded sha256 b h i ps cs rs
  RowsRecorded-Keeps h k (no_prompts i cs) = no_prompts i cs
  RowsRecorded-Keeps h k (no_completions i p ps) = no_completions i p ps
  RowsRecorded-Keeps {b} {g} h k (recorded_row i p c ps cs r rs d rest) =
      recorded_row i p c ps cs r rs
        (IsRecorded-Keeps sha256 dumps now g h i (real_prompt b i p) (real_completion b i c) r k d)
        (RowsRecorded-Keeps h k rest)

  -- If the rollouts of a generation are accepted, there is one record for each row that has a
  -- prompt and a completion, in their order, with the lengths of the row's real tokens, a
  -- completion that is not empty, and a reference with the digest of the real tokens' bytes, which
  -- the store has.
  pub _guard_validate_rollouts-RowsRecorded :
      (b : RolloutBatch) (g : Guard)
      → (_guard_validate_rollouts sha256 dumps now b g).0 ≡ ok tt
      → RowsRecorded sha256 b
          (_guard_validate_rollouts sha256 dumps now b g).1
          0
          b.prompt_ids
          b.completion_ids
          (_guard_validate_rollouts sha256 dumps now b g).1.rollouts
  unfolding _guard_validate_rollouts
  _guard_validate_rollouts-RowsRecorded b g h =
      let m =
        record_rows sha256 dumps now b g.global_step g.gen_seq 0 b.prompt_ids b.completion_ids in
      let numbered = record g { gen_seq = g.gen_seq + 1 } in
      let (rs, re, e) = bind-ok m (λ rs. modify (λ s. record s { rollouts = rs })) numbered tt h in
      subst
        (λ (a : Result (Unit {0}) × Guard).
          RowsRecorded sha256 b a.1 0 b.prompt_ids b.completion_ids a.1.rollouts)
        (sym e)
        (RowsRecorded-Keeps (record (m numbered).1 { rollouts = rs })
          (record { kept = λ r bytes read. read })
          (record_rows-RowsRecorded b g.global_step g.gen_seq 0 b.prompt_ids b.completion_ids
            numbered rs re))
