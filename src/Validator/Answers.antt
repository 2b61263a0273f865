-- ===== src/Validator/Answers.antt =====
-- That the validator answers. Six rules read artifacts in a way that may raise; on masks of the right
-- length, with entries 0 and 1, and padding spans that are pairs, each of them catches what it meets.
mod Caught
use grpo_guard.Align.{
  Alignment, apply_padding, fill, is_binary, mask_from_artifact_bytes, reconstruct_alignment,
}
use grpo_guard.ArtifactStore.{get}
use grpo_guard.Context.{ValidationContext}
use grpo_guard.Prelude.{
  All, Bool, List, Option, Option-cases, Bool-cases, String, [], all, arith, false, inl, inr,
  length, none, refl, some, true, ◌||◌, replicate, ℕ, ◌-◌, ◌∷◌, ◌≡◌, ◌&&◌,
}
use grpo_guard.Prelude.Int.{ltb_ℤ, pos, pos_part, ℤ}
use grpo_guard.Prelude.Result.{
  Result, Result-cases, alignment_error, empty_completion_error, err, file_not_found_error,
  hash_mismatch_error, ok,
}
use grpo_guard.Rules.Base.{Verdict, _gen, _scoring}
use grpo_guard.Rules.Logprobs.{l004_token_logprob_length_mismatch, scorer_length}
use grpo_guard.Rules.Masks.{
  MaskCheck, _mask_violation, canonical, check_target, m001_mask_shape_mismatch,
  m002_prompt_selected, m003_padding_selected, m004_canonical_mask_mismatch, mask_shapes,
  misaligned_skips, unreadable_skips, padding, padding_selected, prompt, read_mask, service_length,
}
use grpo_guard.Rules.Table.{rules_by_stage, run_rule}
use grpo_guard.Rules.Tokens.{_alignment, alignment_verdict, element_count, t005_span_out_of_range}
use grpo_guard.Schema.Decision.{Code, ValidationStage, l004, m001, m002, m003, m004, t005}
use grpo_guard.Schema.Events.{Event, GenerationEvent, ScoringEvent}
use grpo_guard.Schema.Refs.{ArtifactRef}
use grpo_guard.Schema.Seal.{Bytes}
use grpo_guard.Validator.{validate_envelope}
use grpo_guard.Validator.Aggregate.{Returns}
use grpo_guard.Validator.Decide.{validate_envelope-total}
use grpo_guard.Validator.Answers.Caught.{
  alignment_verdict-returns, apply_padding-is_aligned, are_pairs, is_aligned, is_read,
  misaligned_skips-returns, returns, unreadable_skips-returns,
}

module _ (sha256 : Bytes → String) (ctx : ValidationContext) where
  -- The reference is unreadable, or to n entries of 0 and 1.
  abbrev pub HoldsMask : ArtifactRef → ℕ → Type 0
  HoldsMask r n =
      (bytes : Bytes)
      → get sha256 ctx.store r ≡ ok bytes
      → (length bytes ≡ n) × (all is_binary bytes ≡ true)

  -- The generation event's spans are pairs, and its masks fit the alignment, where there is one.
  pub record MasksFit (gen : GenerationEvent) : Type 0 where
    pub pairs : are_pairs gen.padding_spans ≡ true
    pub target :
        (a : Alignment)
        → _alignment sha256 ctx ≡ ok a
        → HoldsMask gen.completion_target_mask a.total
    pub loss :
        (a : Alignment) → _alignment sha256 ctx ≡ ok a → HoldsMask gen.loss_mask (a.total - 1)

  padding_selected-returns :
      (spans : List (List ℤ)) (target : List ℕ)
      → are_pairs spans ≡ true
      → returns (padding_selected sha256 spans target) ≡ true
  unfolding padding_selected
  padding_selected-returns [] target h = refl
  padding_selected-returns ((s ∷ e ∷ []) ∷ rest) target h =
      ground (arith, padding_selected-returns rest target h)
  padding_selected-returns ([] ∷ rest) target h = absurd (ground (arith, h))
  padding_selected-returns ((s ∷ []) ∷ rest) target h = absurd (ground (arith, h))
  padding_selected-returns ((s ∷ e ∷ x ∷ xs) ∷ rest) target h = absurd (ground (arith, h))

  get-is_read : (r : ArtifactRef) → is_read (get sha256 ctx.store r) ≡ true
  unfolding get
  get-is_read r = ground arith

  read_mask-is_read :
      (r : ArtifactRef) (n : ℕ) → HoldsMask r n → is_read (read_mask sha256 ctx r n) ≡ true
  unfolding read_mask mask_from_artifact_bytes
  read_mask-is_read r n fits = elim (Result-cases (get sha256 ctx.store r)) [
    | inr (e, g) ↦ ground (arith, g, get-is_read r)
    | inl (bytes, g) ↦ let (l, b) = fits bytes g in ground (arith, g, l, b)
  ]

  reconstruct-is_aligned :
      (n : ℕ) (start end : ℤ) (spans : List (List ℤ)) (prompt_start : ℤ)
      → are_pairs spans ≡ true
      → is_aligned (reconstruct_alignment n start end spans prompt_start) ≡ true
  unfolding reconstruct_alignment
  reconstruct-is_aligned n start end spans prompt_start h = ground (
    arith,
    apply_padding-is_aligned n start end spans false
        (fill 0 (pos_part start) (pos_part end) 1 (replicate n 0)) h,
  )

  module _ (gen : GenerationEvent) (g : _gen ctx ≡ some gen) (fit : MasksFit gen) where
    _alignment-is_aligned : is_aligned (_alignment sha256 ctx) ≡ true
    unfolding _alignment
    _alignment-is_aligned = elim (Result-cases (get sha256 ctx.store gen.sequence_token_ids)) [
      | inr (e, r) ↦ ground (arith, g, r)
      | inl (seq, r) ↦ ground (
        arith,
        g,
        r,
        reconstruct-is_aligned (element_count gen.sequence_token_ids seq) gen.completion_span.0
            gen.completion_span.1 gen.padding_spans (pos 0) fit.pairs,
      )
    ]

    check_target-returns :
        (check : MaskCheck) (a : Alignment) (t : List ℕ)
        → _alignment sha256 ctx ≡ ok a
        → returns (check_target sha256 check ctx gen a t) ≡ true
    unfolding check_target
    check_target-returns prompt a t al = refl
    check_target-returns padding a t al =
        ground (arith, padding_selected-returns gen.padding_spans t fit.pairs)
    check_target-returns canonical a t al =
        unreadable_skips-returns (read_mask sha256 ctx gen.loss_mask (a.total - 1)) _
          (read_mask-is_read gen.loss_mask (a.total - 1) (fit.loss a al)) (λ loss r. refl)

    _mask_violation-returns :
        (check : MaskCheck) → returns (_mask_violation sha256 check ctx) ≡ true
    unfolding _mask_violation
    _mask_violation-returns check =
        rw (_mask_violation, g)
          (misaligned_skips-returns (_alignment sha256 ctx) _ _alignment-is_aligned (λ a al.
            unreadable_skips-returns (read_mask sha256 ctx gen.completion_target_mask a.total) _
              (read_mask-is_read gen.completion_target_mask a.total (fit.target a al))
              (λ t r. check_target-returns check a t al)))

    service_length-returns :
        (c : Code) (a : Alignment) → returns (service_length sha256 c ctx gen a) ≡ true
    unfolding service_length
    service_length-returns c a = elim (Option-cases gen.service_behavior_logprobs) [
      | inl e ↦ rw e refl
      | inr (r, e) ↦
          rw e (unreadable_skips-returns (get sha256 ctx.store r) _ (get-is_read r) (λ b q. refl))
    ]

    m001-returns : returns (m001_mask_shape_mismatch sha256 ctx) ≡ true
    unfolding m001_mask_shape_mismatch mask_shapes
    m001-returns =
        rw (m001_mask_shape_mismatch, g)
          (alignment_verdict-returns m001 (_alignment sha256 ctx) _ _alignment-is_aligned (λ a al.
            unreadable_skips-returns (read_mask sha256 ctx gen.completion_target_mask a.total) _
              (read_mask-is_read gen.completion_target_mask a.total (fit.target a al))
              (λ t r.
                unreadable_skips-returns (read_mask sha256 ctx gen.loss_mask (a.total - 1)) _
                  (read_mask-is_read gen.loss_mask (a.total - 1) (fit.loss a al))
                  (λ l q. ground (arith, service_length-returns m001 a)))))

    scorer_length-returns :
        (a : Alignment) (o : Option ScoringEvent)
        → returns (scorer_length sha256 ctx o a (service_length sha256 l004 ctx gen a)) ≡ true
    unfolding scorer_length
    scorer_length-returns a none = service_length-returns l004 a
    scorer_length-returns a (some sc) =
        unreadable_skips-returns (get sha256 ctx.store sc.behavior_logprobs) _
          (get-is_read sc.behavior_logprobs) (λ b q. ground (arith, service_length-returns l004 a))

    l004-returns : returns (l004_token_logprob_length_mismatch sha256 ctx) ≡ true
    unfolding l004_token_logprob_length_mismatch
    l004-returns =
        rw (l004_token_logprob_length_mismatch, g)
          (misaligned_skips-returns (_alignment sha256 ctx) _ _alignment-is_aligned (λ a al.
            elim (Bool-cases a.padding_within_completion) [
              | inl p ↦ rw p refl
              | inr p ↦ ground (arith, p, scorer_length-returns a (_scoring ctx))
            ]))

    t005-returns : returns (t005_span_out_of_range sha256 ctx) ≡ true
    unfolding t005_span_out_of_range
    t005-returns =
        rw (t005_span_out_of_range, g)
          (alignment_verdict-returns t005 (_alignment sha256 ctx) _ _alignment-is_aligned
            (λ a al. refl))

  -- What the rules rely on.
  abbrev pub WellFormed : Type 0
  WellFormed = (gen : GenerationEvent) → _gen ctx ≡ some gen → MasksFit gen

  mask_rule-returns :
      (check : MaskCheck) → WellFormed → returns (_mask_violation sha256 check ctx) ≡ true
  unfolding _mask_violation
  mask_rule-returns check w = elim (Option-cases (_gen ctx)) [
    | inl g ↦ rw (_mask_violation, g) refl
    | inr (gen, g) ↦ _mask_violation-returns gen g (w gen g) check
  ]

  run_rule-returns : (c : Code) → WellFormed → returns (run_rule sha256 c ctx) ≡ true
  unfolding run_rule m001_mask_shape_mismatch m002_prompt_selected m003_padding_selected
      m004_canonical_mask_mismatch l004_token_logprob_length_mismatch t005_span_out_of_range
  run_rule-returns m001 w = elim (Option-cases (_gen ctx)) [
    | inl g ↦ rw (m001_mask_shape_mismatch, g) refl
    | inr (gen, g) ↦ m001-returns gen g (w gen g)
  ]
  run_rule-returns m002 w = mask_rule-returns prompt w
  run_rule-returns m003 w = mask_rule-returns padding w
  run_rule-returns m004 w = mask_rule-returns canonical w
  run_rule-returns l004 w = elim (Option-cases (_gen ctx)) [
    | inl g ↦ rw (l004_token_logprob_length_mismatch, g) refl
    | inr (gen, g) ↦ l004-returns gen g (w gen g)
  ]
  run_rule-returns t005 w = elim (Option-cases (_gen ctx)) [
    | inl g ↦ rw (t005_span_out_of_range, g) refl
    | inr (gen, g) ↦ t005-returns gen g (w gen g)
  ]
  run_rule-returns _ w = refl

  all-Returns : (cs : List Code) → WellFormed → All (Returns sha256 ctx) cs
  all-Returns [] w = tt
  all-Returns (c ∷ cs) w = elim (Result-cases (run_rule sha256 c ctx)) [
    | inl (r, e) ↦ ((r, e), all-Returns cs w)
    | inr (x, e) ↦ absurd (ground (arith, e, run_rule-returns c w))
  ]

-- In both stages the validator returns a decision, if the lag bound is not negative and the
-- generation event, where there is one, has padding spans that are pairs and masks that either
-- cannot be read or are of the length that the alignment gives them, with entries 0 and 1.
pub validate_envelope-answers :
    (sha256 : Bytes → String) (dumps : Event → Bytes) (rules_sha256 now : String)
    (ctx : ValidationContext) (stage : ValidationStage) (version : String)
    → WellFormed sha256 ctx
    → ltb_ℤ ctx.protocol.max_policy_lag_versions (pos 0) ≡ false
    → (ev : Event) × (validate_envelope sha256 dumps rules_sha256 now ctx stage version ≡ ok ev)
validate_envelope-answers sha256 dumps rules_sha256 now ctx stage version w bound =
    validate_envelope-total sha256 dumps rules_sha256 now ctx stage version
      (all-Returns sha256 ctx (rules_by_stage stage) w) bound
